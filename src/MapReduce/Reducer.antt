-- ===== src/MapReduce/Reducer.antt =====
-- ReduceRequest of project4/src/worker_request.cc and BaseReducerInternal of mr_tasks.cc: the reduce
-- side of a worker. The user's reducer is a parameter, which yields the pairs that it emits.
pub mod Grouping
pub mod Parsing
pub mod Job
use advanced_os.Prelude.{
  ℕ, zero, suc, ◌+◌, ◌-◌, Bool, true, false, Option, none, some, ◌>>=◌, List, [], ◌∷◌, ◌++◌, ltb,
  leb, ◌==◌, if◌then◌else◌, length, take, drop,
}
use mathlib.Core.List.{foldl}
use advanced_os.MapReduce.Text.{
  Text, FileSystem, append_file, to_string, newline, all_lines, text_eq,
}
use advanced_os.MapReduce.Mapper.{Pair}

-- `<` of `std::string`, the order of a `std::map`
unfoldable pub text_lt : Text → Text → Bool
text_lt s [] = false
text_lt [] (d ∷ ds) = true
text_lt (c ∷ cs) (d ∷ ds) = let rest = text_lt cs ds in if c == d then rest else ltb c d

-- `find_first_of(',')`, `none` for npos
unfoldable pub find_comma : Text → Option ℕ
find_comma [] = none
find_comma (c ∷ cs) =
    let rest = find_comma cs in
    if c == b',' then some 0 else elim rest [ none ↦ none | some i ↦ some (suc i) ]

-- `substr(pos)`, `none` where it throws
abbrev pub substr : Text → ℕ → Option Text
substr l pos = if leb pos (length l) then some (drop pos l) else none

-- The key and the value of a line, by the place of its first comma. npos becomes the int -1, for
-- which the key is the whole line and the value starts at 1. `none` stands for an exception, which
-- nothing catches.
unfoldable pub split_at : Text → Option ℕ → Option Pair
split_at l none = substr l 1 >>= λ v. some (l, v)
split_at l (some pos) = substr l (pos + 2) >>= λ v. some (take pos l, v)

unfoldable pub parse_line : Text → Option Pair
unfolding find_comma split_at
parse_line l = split_at l (find_comma l)

-- `word2values`, in the order of its keys
abbrev pub Values : Type 0
Values = List (Text × List Text)

unfoldable pub push_value : Text → Text → Values → Values
unfolding text_lt
push_value k v [] = (k, v ∷ []) ∷ []
push_value k v ((k', vs) ∷ m) =
    let rest = push_value k v m in
    if text_eq k k'
    then (k', vs ++ v ∷ []) ∷ m
    else if text_lt k k'
    then (k, v ∷ []) ∷ (k', vs) ∷ m
    else (k', vs) ∷ rest

-- The loop over the lines of a file.
unfoldable pub read_pairs : List Text → Values → Option Values
unfolding parse_line push_value
read_pairs [] m = some m
read_pairs (l ∷ ls) m = parse_line l >>= λ p. read_pairs ls (push_value p.0 p.1 m)

-- A file that cannot be opened is passed over.
unfoldable pub read_file : Option Text → Values → Option Values
unfolding read_pairs
read_file none m = some m
read_file (some text) m = read_pairs (all_lines newline text) m

-- The loop over the files of the query.
unfoldable pub read_files : FileSystem → List Text → Values → Option Values
unfolding read_file
read_files fs [] m = some m
read_files fs (f ∷ files) m = read_file (fs f) m >>= λ m'. read_files fs files m'

-- `BaseReducerInternal::emit`
unfoldable pub emit_line : Text → FileSystem → Pair → FileSystem
emit_line filename fs (k, v) = append_file filename (k ++ (b' ' ∷ v ++ newline ∷ [])) fs

unfoldable pub reduce_all : (Text → List Text → List Pair) → Text → Values → FileSystem → FileSystem
unfolding emit_line
reduce_all reducer filename [] fs = fs
reduce_all reducer filename ((k, vs) ∷ m) fs =
    reduce_all reducer filename m (foldl (emit_line filename) fs (reducer k vs))

pub record ReduceQuery : Type 0 where
  pub partition_id : ℕ
  pub output_dir : Text
  pub files : List Text

abbrev pub output_file : ReduceQuery → Text
output_file q = q.output_dir ++ (b'/' ∷ to_string q.partition_id)

-- The name of the output file and the files written, `none` where an exception ends the worker.
unfoldable pub handle_reduce_job :
    (Text → List Text → List Pair) → ReduceQuery → FileSystem → Option (Text × FileSystem)
unfolding read_files reduce_all
handle_reduce_job reducer q fs = do
  word2values ← read_files fs q.files []
  some (output_file q, reduce_all reducer (output_file q) word2values fs)
