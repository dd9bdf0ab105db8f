-- ===== src/MapReduce/Mapper.antt =====
-- project4/src/mr_tasks.cc and MapRequest of project4/src/worker_request.cc: the map side of a
-- worker. The user's mapper and `std::hash` are parameters.
pub mod Batching
use advanced_os.Prelude.{
  ℕ, zero, suc, ◌+◌, ◌-◌, ◌%◌, Bool, true, false, Option, none, some, List, [], ◌∷◌, ◌++◌, leb,
  if◌then◌else◌, length, get_or, take, drop, replicate,
}
use mathlib.Core.List.{foldl}
use advanced_os.MapReduce.Text.{
  Text, FileSystem, content, append_file, to_string, newline, all_lines,
}

abbrev pub key_value_pair_dump_threshold : ℕ
key_value_pair_dump_threshold = 1000

abbrev pub Pair : Type 0
Pair = Text × Text

-- `BaseMapperInternal`
pub record BaseMapper : Type 0 where
  pub num_partitions : ℕ
  pub intermediate_files : List Text
  pub key_value_pairs : List Pair

-- the line `k, v` of an intermediate file
abbrev pub pair_line : Pair → Text
pair_line (k, v) = k ++ (b',' ∷ b' ' ∷ v ++ newline ∷ [])

-- a piece of a file in a `MapQuery`
pub record FilePartition : Type 0 where
  pub filename : Text
  pub start : ℕ
  pub end : ℕ

pub record MapQuery : Type 0 where
  pub n_partitions : ℕ
  pub partitions : List FilePartition

-- the zeroed buffer of `end - start` bytes, and what `read` puts in it
unfoldable pub read_buffer : FileSystem → FilePartition → Text
read_buffer fs p =
    let size = p.end - p.start in
    let got = take size (drop p.start (content (fs p.filename))) in
    got ++ replicate (size - length got) 0

abbrev pub intermediate_name : Text → ℕ → Text
intermediate_name addr i =
    (b'i' ∷ b'n' ∷ b't' ∷ b'e' ∷ b'r' ∷ b'm' ∷ b'e' ∷ b'd' ∷ b'i' ∷ b'a' ∷ b't' ∷ b'e' ∷ b'/' ∷ [])
    ++ (to_string i ++ (b'_' ∷ addr ++ (b'.' ∷ b't' ∷ b'x' ∷ b't' ∷ [])))

unfoldable pub names_from : Text → ℕ → ℕ → List Text
names_from addr i zero = []
names_from addr i (suc n) = intermediate_name addr i ∷ names_from addr (i + 1) n

-- the mapper as a job sets it up
pub job_mapper : Text → MapQuery → BaseMapper
unfolding names_from
job_mapper addr q = record {
  num_partitions = q.n_partitions;
  intermediate_files = names_from addr 0 q.n_partitions;
  key_value_pairs = [];
}

module _ (hash : Text → ℕ) where
  -- A hash is below the number of partitions, which is the number of file names.
  pub file_of : BaseMapper → Text → Text
  file_of m k = get_or m.intermediate_files (hash k % m.num_partitions) []

  pub dump_pairs : BaseMapper → List Pair → FileSystem → FileSystem
  unfolding file_of
  dump_pairs m [] fs = fs
  dump_pairs m (p ∷ ps) fs = dump_pairs m ps (append_file (file_of m p.0) (pair_line p) fs)

  pub dump : BaseMapper × FileSystem → BaseMapper × FileSystem
  unfolding dump_pairs
  dump (m, fs) = (record m { key_value_pairs = [] }, dump_pairs m m.key_value_pairs fs)

  pub emit : BaseMapper × FileSystem → Pair → BaseMapper × FileSystem
  unfolding dump
  emit (m, fs) p =
      let (m', fs') =
        if leb key_value_pair_dump_threshold (length m.key_value_pairs)
        then dump (m, fs)
        else (m, fs) in
      (record m' { key_value_pairs = m'.key_value_pairs ++ p ∷ [] }, fs')

  module _ (mapper : Text → List Pair) where
    pub map_lines : List Text → BaseMapper × FileSystem → BaseMapper × FileSystem
    unfolding emit
    map_lines [] s = s
    map_lines (l ∷ ls) s = map_lines ls (foldl emit s (mapper l))

    pub map_partitions : List FilePartition → BaseMapper × FileSystem → BaseMapper × FileSystem
    unfolding map_lines read_buffer
    map_partitions [] s = s
    map_partitions (p ∷ ps) s =
        map_partitions ps (map_lines (all_lines newline (read_buffer s.1 p)) s)

    -- The files written, and the file names of the result.
    unfoldable pub handle_map_job : Text → MapQuery → FileSystem → List Text × FileSystem
    unfolding map_partitions names_from job_mapper
    handle_map_job addr q fs =
        let files = names_from addr 0 q.n_partitions in
        (files, (dump (map_partitions q.partitions (job_mapper addr q, fs))).1)
