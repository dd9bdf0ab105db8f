-- ===== src/MapReduce/Examples.antt =====
-- The MapReduce theorems at concrete inputs: a file of three lines in shards, and a map job on it.
use advanced_os.Prelude.{
  ℕ, zero, suc, ◌+◌, ◌%◌, ◌≡◌, ◌⊎◌, refl, false, List, [], ◌∷◌, ◌++◌, none, some, if◌then◌else◌,
  get_or, All, arith, replicate, length-replicate,
}
use advanced_os.MapReduce.Text.{
  Text, FileSystem, content, text_eq, all_lines, append_file, to_string,
}
use advanced_os.MapReduce.Shards.{FileShard, empty_shard, failed, done, shard_files}
use advanced_os.MapReduce.Shards.Pieces.{AllTiled, all_pieces}
use advanced_os.MapReduce.Shards.Tiles.{shard_files-AllTiled}
use advanced_os.MapReduce.Shards.Failures.{shard_files-exact_fit}
use advanced_os.MapReduce.Mapper.{
  Pair, MapQuery, read_buffer, intermediate_name, names_from, handle_map_job,
}
use advanced_os.MapReduce.Mapper.Batching.{
  pairs_of, pairs_in, written, IsInput, target, handle_map_job-written,
}
use advanced_os.MapReduce.Reducer.{ReduceQuery, parse_line}
use advanced_os.MapReduce.Reducer.Parsing.{printed, IsPlain}
use advanced_os.MapReduce.Reducer.Job.{Reduced, routed, map-Reduced}

-- the lines "a", "bb" and "c"
abbrev three_lines : Text
three_lines = b'a' ∷ 10 ∷ b'b' ∷ b'b' ∷ 10 ∷ b'c' ∷ 10 ∷ []

abbrev disk : FileSystem
disk f = if text_eq f (b'a' ∷ []) then some three_lines else none

-- the whole file fits into the first shard
shard_files_lem :
    shard_files disk 1 ((b'a' ∷ []) ∷ []) []
    ≡ done (record { files = (b'a' ∷ []) ∷ []; offsets = (0, 7) ∷ [] } ∷ [])
unfolding shard_files text_eq
shard_files_lem = refl

shard_files-AllTiled_example :
    (shard_files disk 1 ((b'a' ∷ []) ∷ []) (empty_shard ∷ []) ≡ failed)
    ⊎ ((shards : List FileShard) × (shard_files disk 1 ((b'a' ∷ []) ∷ []) (empty_shard ∷ [])
          ≡ done (empty_shard ∷ shards))
        × AllTiled disk ((b'a' ∷ []) ∷ []) (all_pieces shards))
shard_files-AllTiled_example = shard_files-AllTiled disk 1 ((b'a' ∷ []) ∷ []) (empty_shard ∷ [])

-- one file of 1024 bytes
abbrev full_disk : FileSystem
full_disk f = some (replicate 1024 b'a')

shard_files-exact_fit_example : shard_files full_disk 1 ((b'f' ∷ []) ∷ []) [] ≡ failed
shard_files-exact_fit_example =
    shard_files-exact_fit full_disk 1 (b'f' ∷ []) (replicate 1024 b'a') [] [] refl
      (length-replicate {A = ℕ} 1024 b'a') (omega arith)

-- each line is a key, with the value "1"
abbrev count_one : Text → List Pair
count_one line = (line, b'1' ∷ []) ∷ []

abbrev query : MapQuery
query = record {
  n_partitions = 2;
  partitions =
      record { filename = b'a' ∷ []; start = 0; end = 2 }
      ∷ record { filename = b'a' ∷ []; start = 2; end = 7 }
      ∷ [];
}

abbrev first_byte : Text → ℕ
first_byte [] = 0
first_byte (c ∷ cs) = c

abbrev address : Text
address = b'5' ∷ b'0' ∷ []

-- The keys "a" and "c" go to the second file.
handle_map_job_lem :
    content
      ((handle_map_job first_byte count_one address query disk).1 (intermediate_name address 1))
    ≡ b'a' ∷ b',' ∷ b' ' ∷ b'1' ∷ 10 ∷ b'c' ∷ b',' ∷ b' ' ∷ b'1' ∷ 10 ∷ []
unfolding handle_map_job text_eq names_from all_lines append_file to_string
handle_map_job_lem = refl

-- No intermediate name begins with an `a`.
names_from-IsInput :
    (addr : Text) (i n j : ℕ) → text_eq (get_or (names_from addr i n) j []) (b'a' ∷ []) ≡ false
unfolding names_from text_eq
names_from-IsInput addr i zero j = refl
names_from-IsInput addr i (suc n) zero = refl
names_from-IsInput addr i (suc n) (suc j) = names_from-IsInput addr (i + 1) n j

disk-IsInput : IsInput first_byte 2 (names_from address 0 2) (b'a' ∷ [])
unfolding target
disk-IsInput k = names_from-IsInput address 0 2 (first_byte k % 2)

handle_map_job-written_example :
    content
      ((handle_map_job first_byte count_one address query disk).1 (intermediate_name address 1))
    ≡ content (disk (intermediate_name address 1))
      ++ written first_byte 2
          (names_from address 0 2)
          (intermediate_name address 1)
          (pairs_in count_one disk query.partitions)
handle_map_job-written_example =
    handle_map_job-written first_byte count_one address query disk
      (disk-IsInput, (disk-IsInput, tt)) (intermediate_name address 1)

-- the pairs of an intermediate file
abbrev some_pairs : List Pair
some_pairs = (b'b' ∷ [], b'1' ∷ []) ∷ (b'a' ∷ [], b'2' ∷ []) ∷ (b'b' ∷ [], b'3' ∷ []) ∷ []

abbrev pair_disk : FileSystem
pair_disk f = if text_eq f (b'a' ∷ []) then some (printed some_pairs) else none

-- the reducer emits each value with its key
abbrev list_values : Text → List Text → List Pair
list_values k [] = []
list_values k (v ∷ vs) = (k, v) ∷ list_values k vs

abbrev reduce_query : ReduceQuery
reduce_query = record {
  partition_id = 0;
  output_dir = b'o' ∷ [];
  files = (b'a' ∷ []) ∷ (b'z' ∷ []) ∷ [];
}

abbrev pairs_on_disk : Text → List Pair
pairs_on_disk f = if text_eq f (b'a' ∷ []) then some_pairs else []

parse_line_lem : parse_line (b'a' ∷ b',' ∷ b' ' ∷ b'2' ∷ []) ≡ some (b'a' ∷ [], b'2' ∷ [])
unfolding parse_line
parse_line_lem = refl

some_pairs-IsPlain : All IsPlain some_pairs
some_pairs-IsPlain = (
  ((refl, tt), (refl, (refl, (refl, (refl, tt))))),
  (
    ((refl, tt), (refl, (refl, (refl, (refl, tt))))),
    (((refl, tt), (refl, (refl, (refl, (refl, tt))))), tt),
  ),
)

counted-IsPlain : All IsPlain (pairs_in count_one disk query.partitions)
unfolding pairs_in pairs_of read_buffer text_eq all_lines
counted-IsPlain = (
  ((refl, tt), (refl, (refl, (refl, (refl, tt))))),
  (
    ((refl, (refl, tt)), (refl, (refl, (refl, (refl, (refl, tt)))))),
    (((refl, tt), (refl, (refl, (refl, (refl, tt))))), tt),
  ),
)

abbrev second_file : ReduceQuery
second_file = record {
  partition_id = 1;
  output_dir = b'o' ∷ [];
  files = intermediate_name address 1 ∷ [];
}

map-Reduced_example :
    Reduced list_values second_file (handle_map_job first_byte count_one address query disk).1 (
      routed first_byte 2
        (names_from address 0 2)
        (intermediate_name address 1)
        (pairs_in count_one disk query.partitions))
map-Reduced_example =
    map-Reduced first_byte count_one list_values address query second_file disk
      (intermediate_name address 1) (disk-IsInput, (disk-IsInput, tt)) counted-IsPlain
      (unfold text_eq in refl) refl
