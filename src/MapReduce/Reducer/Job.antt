-- ===== src/MapReduce/Reducer/Job.antt =====
-- A whole reduce job, and a reduce job on what a map job has written.
use advanced_os.Prelude.{
  ℕ, ◌≡◌, inl, inr, refl, ap, sym, subst, ◌∙◌, Option, none, some, ◌>>=◌, List, [], ◌∷◌, ◌++◌,
  if◌then◌else◌, All, Bool-cases,
}
use mathlib.Core.List.{foldl, append_assoc, append-nil}
use advanced_os.MapReduce.Text.{
  Text, FileSystem, content, append_file, newline, text_eq, text_eq_refl,
}
use advanced_os.MapReduce.Text.Lines.{lines, all_lines-lines}
use advanced_os.MapReduce.Mapper.{Pair, pair_line, MapQuery, names_from, handle_map_job}
use advanced_os.MapReduce.Mapper.Batching.{
  content-append_file, pairs_in, target, written, AllInputs, handle_map_job-written,
}
use advanced_os.MapReduce.Reducer.{
  Values, push_value, read_pairs, read_file, read_files, emit_line, reduce_all, ReduceQuery,
  output_file, handle_reduce_job,
}
use advanced_os.MapReduce.Reducer.Grouping.{
  push_all, IsAscending, push_all-IsAscending, values_at, values_of, values_at-push_all,
}
use advanced_os.MapReduce.Reducer.Parsing.{printed, IsPlain, read_pairs-printed}

-- what the reducer's pairs add to the output file
unfoldable pub report : List Pair → Text
report [] = []
report (p ∷ ps) = (p.0 ++ (b' ' ∷ p.1 ++ newline ∷ [])) ++ report ps

unfoldable pub reports : (Text → List Text → List Pair) → Values → Text
unfolding report
reports reducer [] = []
reports reducer (e ∷ m) = report (reducer e.0 e.1) ++ reports reducer m

content-emits :
    (f : Text) (ps : List Pair) (fs : FileSystem)
    → content (foldl (emit_line f) fs ps f) ≡ content (fs f) ++ report ps
unfolding emit_line report
content-emits f [] fs = sym (append-nil (content (fs f)))
content-emits f (p ∷ ps) fs =
    let line = p.0 ++ (b' ' ∷ p.1 ++ newline ∷ []) in
    content-emits f ps (append_file f line fs)
    ∙ ap (λ t. t ++ report ps) (content-append_file f f line fs ∙ rw (text_eq_refl f) refl)
    ∙ append_assoc (content (fs f)) line (report ps)

content-reduce_all :
    (reducer : Text → List Text → List Pair) (f : Text) (m : Values) (fs : FileSystem)
    → content (reduce_all reducer f m fs f) ≡ content (fs f) ++ reports reducer m
unfolding reduce_all reports
content-reduce_all reducer f [] fs = sym (append-nil (content (fs f)))
content-reduce_all reducer f ((k, vs) ∷ m) fs =
    content-reduce_all reducer f m (foldl (emit_line f) fs (reducer k vs))
    ∙ ap (λ t. t ++ reports reducer m) (content-emits f (reducer k vs) fs)
    ∙ append_assoc (content (fs f)) (report (reducer k vs)) (reports reducer m)

-- the pairs of the files, in order
unfoldable pub pairs_of_files : (Text → List Pair) → List Text → List Pair
pairs_of_files pairs [] = []
pairs_of_files pairs (f ∷ files) = pairs f ++ pairs_of_files pairs files

-- The file holds the given pairs, each on a line of its own; without pairs it need not exist.
abbrev pub HoldsPairs : FileSystem → (Text → List Pair) → Text → Type 0
HoldsPairs fs pairs f = (content (fs f) ≡ printed (pairs f)) × All IsPlain (pairs f)

push_all-append :
    (ps qs : List Pair) (m : Values) → push_all (ps ++ qs) m ≡ push_all qs (push_all ps m)
unfolding push_all
push_all-append [] qs m = refl
push_all-append (p ∷ ps) qs m = push_all-append ps qs (push_value p.0 p.1 m)

-- A file that is missing is read as an empty one.
read_file-content :
    (o : Option Text) (m : Values) → read_file o m ≡ read_pairs (lines newline (content o)) m
unfolding read_file
read_file-content none m = unfold read_pairs lines in refl
read_file-content (some text) m = ap (λ ls. read_pairs ls m) (all_lines-lines newline text)

read_files-printed :
    (fs : FileSystem) (pairs : Text → List Pair) (files : List Text) (m : Values)
    → All (HoldsPairs fs pairs) files
    → read_files fs files m ≡ some (push_all (pairs_of_files pairs files) m)
unfolding pairs_of_files read_files
read_files-printed fs pairs [] m h = unfold push_all in refl
read_files-printed fs pairs (f ∷ files) m h =
    ap (λ (o : Option Values). o >>= λ m'. read_files fs files m')
      (read_file-content (fs f) m
        ∙ ap (λ t. read_pairs (lines newline t) m) h.0.0
        ∙ read_pairs-printed (pairs f) m h.0.1)
    ∙ read_files-printed fs pairs files (push_all (pairs f) m) h.1
    ∙ ap some (sym (push_all-append (pairs f) (pairs_of_files pairs files) m))

-- What a reduce job does with files that hold the pairs `ps`: it ends, and calls the reducer once
-- for each key, in the keys' order, with the key's values in their order.
pub record Reduced (reducer : Text → List Text → List Pair) (q : ReduceQuery) (fs : FileSystem)
    (ps : List Pair) : Type 0 where
  groups : Values
  files : FileSystem
  result : handle_reduce_job reducer q fs ≡ some (output_file q, files)
  ascending : IsAscending groups
  values : (k : Text) → values_at k groups ≡ values_of k ps
  output : content (files (output_file q)) ≡ content (fs (output_file q)) ++ reports reducer groups

-- A reduce job on files that hold pairs, each on a line of its own and with no comma in its key,
-- ends without an exception; it calls the reducer once for each key, in the keys' order, with all
-- values of the key in the order of the files, and adds what the reducer emits to the output file.
pub handle_reduce_job-Reduced :
    (reducer : Text → List Text → List Pair) (q : ReduceQuery) (fs : FileSystem)
    (pairs : Text → List Pair)
    → All (HoldsPairs fs pairs) q.files
    → Reduced reducer q fs (pairs_of_files pairs q.files)
unfolding handle_reduce_job
handle_reduce_job-Reduced reducer q fs pairs h =
    let ps = pairs_of_files pairs q.files in
    let groups = push_all ps [] in
    let none_yet : IsAscending [] = unfold IsAscending in tt in
    record {
      groups = groups;
      files = reduce_all reducer (output_file q) groups fs;
      result =
          ap
            (λ (o : Option Values).
              o >>= λ w. some (output_file q, reduce_all reducer (output_file q) w fs))
            (read_files-printed fs pairs q.files [] h);
      ascending = push_all-IsAscending ps [] none_yet;
      values = λ k. values_at-push_all k ps [] none_yet ∙ unfold values_at in refl;
      output = content-reduce_all reducer (output_file q) groups fs;
    }

-- The pairs whose key goes to the file.
unfoldable pub routed : (Text → ℕ) → ℕ → List Text → Text → List Pair → List Pair
unfolding target
routed hash n names f [] = []
routed hash n names f (p ∷ ps) =
    (if text_eq (target hash n names p.0) f then p ∷ [] else []) ++ routed hash n names f ps

written-printed :
    (hash : Text → ℕ) (n : ℕ) (names : List Text) (f : Text) (ps : List Pair)
    → written hash n names f ps ≡ printed (routed hash n names f ps)
unfolding written routed printed
written-printed hash n names f [] = refl
written-printed hash n names f (p ∷ ps) = elim (Bool-cases (text_eq (target hash n names p.0) f)) [
  | inl same ↦ rw same (ap (◌++◌ (pair_line p)) (written-printed hash n names f ps))
  | inr other ↦ rw other (written-printed hash n names f ps)
]

routed-IsPlain :
    (hash : Text → ℕ) (n : ℕ) (names : List Text) (f : Text) (ps : List Pair)
    → All IsPlain ps
    → All IsPlain (routed hash n names f ps)
unfolding routed
routed-IsPlain hash n names f [] h = tt
routed-IsPlain hash n names f (p ∷ ps) h = elim (Bool-cases (text_eq (target hash n names p.0) f)) [
  | inl same ↦ rw same (h.0, routed-IsPlain hash n names f ps h.1)
  | inr other ↦ rw other (routed-IsPlain hash n names f ps h.1)
]

-- A map job and then a reduce job on one of its intermediate files, which was empty before: the
-- reducer gets, for each key of that file, exactly the values that the mapper emitted for it, in
-- their order, if the pairs emitted have no newline, their keys no comma, and no input file has the
-- name of an intermediate file. The query names this file alone.
pub map-Reduced :
    (hash : Text → ℕ) (mapper : Text → List Pair) (reducer : Text → List Text → List Pair)
    (addr : Text) (mq : MapQuery) (rq : ReduceQuery) (fs : FileSystem) (f : Text)
    → AllInputs hash mq.n_partitions (names_from addr 0 mq.n_partitions) mq.partitions
    → All IsPlain (pairs_in mapper fs mq.partitions)
    → content (fs f) ≡ []
    → rq.files ≡ f ∷ []
    → Reduced reducer rq (handle_map_job hash mapper addr mq fs).1 (
        routed hash mq.n_partitions
          (names_from addr 0 mq.n_partitions)
          f
          (pairs_in mapper fs mq.partitions))
map-Reduced hash mapper reducer addr mq rq fs f inputs plain empty only =
    let names = names_from addr 0 mq.n_partitions in
    let ps = pairs_in mapper fs mq.partitions in
    let mine = routed hash mq.n_partitions names f ps in
    let fs' = (handle_map_job hash mapper addr mq fs).1 in
    let holds : content (fs' f) ≡ printed mine =
      handle_map_job-written hash mapper addr mq fs inputs f
      ∙ ap (λ t. t ++ written hash mq.n_partitions names f ps) empty
      ∙ written-printed hash mq.n_partitions names f ps in
    subst (Reduced reducer rq fs')
      (ap (pairs_of_files (λ g. mine)) only ∙ unfold pairs_of_files in append-nil mine)
      (handle_reduce_job-Reduced reducer rq fs' (λ g. mine)
        (subst (All (HoldsPairs fs' (λ g. mine))) (sym only)
          ((holds, routed-IsPlain hash mq.n_partitions names f ps plain), tt)))
