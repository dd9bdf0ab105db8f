-- ===== src/MapReduce/Run.antt =====
-- MapReduceImpl of project4/src/mapreduce_impl.cc, which MapReduce::run of mapreduce.cc calls. The
-- outcome of the master's run is a parameter, as the workers decide it.
use advanced_os.Prelude.{
  ℕ, ◌≡◌, ◌↔◌, inl, inr, refl, Bool, true, false, Option, none, some, List, ◌++◌, if◌then◌else◌,
  arith,
}
use advanced_os.Prelude.Int.{ℤ, pos, negsuc}
use advanced_os.MapReduce.Text.{Text, FileSystem}
use advanced_os.MapReduce.Spec.{MapReduceSpec, read_mr_spec_from_config_file, validate_mr_spec}
use advanced_os.MapReduce.Spec.Validity.{IsUsable, validate_mr_spec-IsUsable}
use advanced_os.MapReduce.Shards.{FileShard, Outcome, done, failed, out_of_fuel, shard_files}
use advanced_os.MapReduce.Shards.Pieces.{all_pieces, AllTiled}
use advanced_os.MapReduce.Shards.Tiles.{shard_files-AllTiled}

pub record MapReduceImpl : Type 0 where
  pub mr_spec : MapReduceSpec
  pub file_shards : List FileShard

-- `map_kilobytes`, which is positive where it is used
abbrev pub kilobytes : ℤ → ℕ
kilobytes (pos n) = n
kilobytes (negsuc n) = 0

-- how a run ends: with a result, by an exception, or not
pub data Run : Type 0 where
  returned : Bool → Run
  threw : Run
  endless : Run

-- The specification, and whether it could be read and is valid.
unfoldable pub checked :
    FileSystem → (Text → Bool) → Option (Bool × MapReduceSpec) → Option (Bool × MapReduceSpec)
checked fs is_directory none = none
checked fs is_directory (some (false, s)) = some (false, s)
checked fs is_directory (some (true, s)) = some (validate_mr_spec fs is_directory s, s)

module _ (fs : FileSystem) (is_directory : Text → Bool) where
  unfoldable pub read_and_validate_spec : Text → MapReduceImpl → Option (Bool × MapReduceSpec)
  unfolding checked
  read_and_validate_spec config_filename impl =
      checked fs is_directory (read_mr_spec_from_config_file fs config_filename impl.mr_spec)

  -- The shards go behind those that the object has.
  unfoldable pub create_shards : MapReduceSpec → List FileShard → Outcome (List FileShard)
  create_shards s file_shards = shard_files fs (kilobytes s.map_kilobytes) s.input_files file_shards

  module _ (run_master : MapReduceSpec → List FileShard → Bool) where
    -- `run` behind the sharding
    unfoldable pub run_shards : MapReduceSpec → Outcome (List FileShard) → Run
    run_shards s failed = returned false
    run_shards s (done shards) = if run_master s shards then returned true else returned false
    run_shards s out_of_fuel = endless

    -- `run` behind the reading
    unfoldable pub run_spec : Option (Bool × MapReduceSpec) → List FileShard → Run
    unfolding run_shards create_shards
    run_spec none file_shards = threw
    run_spec (some (false, s)) file_shards = returned false
    run_spec (some (true, s)) file_shards = run_shards s (create_shards s file_shards)

    unfoldable pub run : Text → MapReduceImpl → Run
    unfolding read_and_validate_spec run_spec
    run config_filename impl =
        run_spec (read_and_validate_spec config_filename impl) impl.file_shards

-- a job that is set up as it should be, and that the master completes
pub record Completes (fs : FileSystem) (is_directory : Text → Bool)
    (run_master : MapReduceSpec → List FileShard → Bool) (config_filename : Text)
    (impl : MapReduceImpl) : Type 0 where
  pub spec : MapReduceSpec
  pub shards : List FileShard
  pub read : read_mr_spec_from_config_file fs config_filename impl.mr_spec ≡ some (true, spec)
  pub usable : IsUsable fs is_directory spec
  pub sharded :
      shard_files fs (kilobytes spec.map_kilobytes) spec.input_files impl.file_shards
      ≡ done (impl.file_shards ++ shards)
  pub tiled : AllTiled fs spec.input_files (all_pieces shards)
  pub mastered : run_master spec (impl.file_shards ++ shards) ≡ true

module _ (fs : FileSystem) (is_directory : Text → Bool)
    (run_master : MapReduceSpec → List FileShard → Bool) (config_filename : Text)
    (impl : MapReduceImpl) where
  abbrev Good : Type 0
  Good = Completes fs is_directory run_master config_filename impl

  run_shards-true :
      (s : MapReduceSpec) (o : Outcome (List FileShard)) (shards : List FileShard)
      → o ≡ done shards
      → run_shards fs is_directory run_master s o ≡ returned true
      → run_master s shards ≡ true
  unfolding run_shards
  run_shards-true s o shards e h = ground arith

  run_shards-failed :
      (s : MapReduceSpec) (o : Outcome (List FileShard))
      → o ≡ failed
      → run_shards fs is_directory run_master s o ≡ returned false
  unfolding run_shards
  run_shards-failed s o e = ground arith

  Completes-shards :
      (s : MapReduceSpec)
      → read_mr_spec_from_config_file fs config_filename impl.mr_spec ≡ some (true, s)
      → IsUsable fs is_directory s
      → run_shards fs is_directory run_master s (create_shards fs is_directory s impl.file_shards)
        ≡ returned true
      → Good
  unfolding create_shards
  Completes-shards s read usable h =
      elim (shard_files-AllTiled fs (kilobytes s.map_kilobytes) s.input_files impl.file_shards) [
        | inl bad ↦ absurd (ground (arith, run_shards-failed s _ bad))
        | inr (shards, e, tiled) ↦ record {
          spec = s;
          shards = shards;
          read = read;
          usable = usable;
          sharded = e;
          tiled = tiled;
          mastered = run_shards-true s _ (impl.file_shards ++ shards) e h;
        }
      ]

  checked-true :
      (o : Option (Bool × MapReduceSpec)) (s : MapReduceSpec)
      → checked fs is_directory o ≡ some (true, s)
      → (o ≡ some (true, s)) × IsUsable fs is_directory s
  unfolding checked
  checked-true none s h = cc
  checked-true (some (false, t)) s h = ground arith
  checked-true (some (true, t)) s h = ground (arith, validate_mr_spec-IsUsable fs is_directory t)

  run_spec-Completes :
      (o : Option (Bool × MapReduceSpec))
      → read_and_validate_spec fs is_directory config_filename impl ≡ o
      → run_spec fs is_directory run_master o impl.file_shards ≡ returned true
      → Good
  unfolding run_spec read_and_validate_spec
  run_spec-Completes none e h = absurd (ground arith)
  run_spec-Completes (some (false, s)) e h = absurd (ground arith)
  run_spec-Completes (some (true, s)) e h =
      let (read, usable) = checked-true _ s e in Completes-shards s read usable h

  Completes-run : Good → run fs is_directory run_master config_filename impl ≡ returned true
  unfolding run read_and_validate_spec run_spec run_shards create_shards
  Completes-run g =
      rw
        (
          g.read,
          (validate_mr_spec-IsUsable fs is_directory g.spec).1 g.usable,
          g.sharded,
          g.mastered,
        )
        refl

  -- A run returns true exactly when the configuration can be read and is valid, the input files are cut
  -- into shards that cover them without gap or overlap, and the master completes with that
  -- specification and those shards behind the ones that the object had before.
  pub run-Completes :
      (run fs is_directory run_master config_filename impl ≡ returned true)
      ↔ Completes fs is_directory run_master config_filename impl
  run-Completes = (λ h. run_spec-Completes _ refl (unfold run in h), Completes-run)
