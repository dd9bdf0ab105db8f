-- ===== src/MapReduce/Spec/Examples.antt =====
-- A configuration, validated, read and run.
use advanced_os.Prelude.{
  ℕ, ◌≡◌, ◌↔◌, refl, Bool, true, none, some, List, [], ◌∷◌, if◌then◌else◌, arith,
}
use advanced_os.Prelude.Int.{pos, negsuc}
use advanced_os.MapReduce.Text.{Text, FileSystem, text_eq}
use advanced_os.MapReduce.Shards.{FileShard, empty_shard}
use advanced_os.MapReduce.Spec.{
  MapReduceSpec, codes, stoi, read_entry, read_mr_spec_from_config_file, validate_mr_spec,
}
use advanced_os.MapReduce.Spec.Validity.{IsUsable, validate_mr_spec-IsUsable}
use advanced_os.MapReduce.Spec.RoundTrip.{
  entries, unlines, unread, IsWritable, read_mr_spec-entries,
}
use advanced_os.MapReduce.Run.{MapReduceImpl, Completes, returned, run, run-Completes}

abbrev small : MapReduceSpec
small = record {
  n_workers = pos 2;
  worker_ipaddr_ports = codes "a:1" ∷ codes "b:2" ∷ [];
  input_files = codes "in" ∷ [];
  output_dir = codes "out";
  n_output_files = pos 8;
  map_kilobytes = pos 1;
  user_id = codes "me";
}

abbrev disk : FileSystem
disk f =
    if text_eq f (codes "in")
    then some (codes "hi")
    else if text_eq f (codes "config")
    then some (unlines (entries small))
    else none

abbrev only_out : Text → Bool
only_out d = text_eq d (codes "out")

stoi_lem : stoi (codes " -12x") ≡ some (negsuc 11)
unfolding stoi
stoi_lem = refl

-- A line without `=` is its own key and value.
read_entry_lem :
    read_entry (codes "user_id") small ≡ some (record small { user_id = codes "user_id" })
unfolding read_entry text_eq
read_entry_lem = refl

validate_mr_spec-IsUsable_example :
    (validate_mr_spec disk only_out small ≡ true) ↔ IsUsable disk only_out small
validate_mr_spec-IsUsable_example = validate_mr_spec-IsUsable disk only_out small

small-IsWritable : IsWritable small
small-IsWritable = ground arith

disk_config : disk (codes "config") ≡ some (unlines (entries small))
unfolding text_eq
disk_config = refl

read_mr_spec-entries_example :
    read_mr_spec_from_config_file disk (codes "config") (unread (pos 0) (pos 0) (pos 0) [] [])
    ≡ some (true, small)
read_mr_spec-entries_example =
    read_mr_spec-entries small small-IsWritable disk (codes "config") (pos 0) (pos 0) (pos 0) [] []
      disk_config

-- an object that has a shard of an earlier run
abbrev used : MapReduceImpl
used = record { mr_spec = unread (pos 0) (pos 0) (pos 0) [] []; file_shards = empty_shard ∷ [] }

abbrev always : MapReduceSpec → List FileShard → Bool
always s shards = true

run-Completes_example :
    (run disk only_out always (codes "config") used ≡ returned true)
    ↔ Completes disk only_out always (codes "config") used
run-Completes_example = run-Completes disk only_out always (codes "config") used

-- The second registration of a user is refused.
abbrev registrations : List (Text × ℕ × ℕ)
registrations = (codes "u", 1, 2) ∷ (codes "v", 3, 4) ∷ (codes "u", 5, 6) ∷ []
