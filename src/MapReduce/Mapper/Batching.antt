-- ===== src/MapReduce/Mapper/Batching.antt =====
-- The buffer of 1000 pairs does not show: a map job writes exactly the pairs emitted for its lines,
-- each to the file of its key, in their order.
use advanced_os.Prelude.{
  subst, ℕ, ◌%◌, ◌≡◌, refl, sym, ap, ◌∙◌, false, List, [], ◌∷◌, ◌++◌, leb, if◌then◌else◌, length,
  Bool-cases, inl, inr, All, All-map, get_or,
}
use mathlib.Core.List.{foldl, append_assoc, append-nil}
use advanced_os.MapReduce.Text.{
  Text, FileSystem, content, append_file, newline, all_lines, text_eq, text_eq-eq,
}
use advanced_os.MapReduce.Mapper.{
  key_value_pair_dump_threshold, Pair, BaseMapper, pair_line, FilePartition, MapQuery, read_buffer,
  dump_pairs, dump, emit, map_lines, map_partitions, handle_map_job, names_from,
}

pub content-append_file :
    (f g t : Text) (fs : FileSystem)
    → content (append_file f t fs g) ≡ content (fs g) ++ (if text_eq f g then t else [])
unfolding append_file
content-append_file f g t fs = elim (Bool-cases (text_eq f g)) [
  | inl same ↦ rw same (ap (λ h. content (fs h) ++ t) (text_eq-eq f g same))
  | inr other ↦ rw other (sym (append-nil (content (fs g))))
]

append_file-other :
    (f g t : Text) (fs : FileSystem) → text_eq f g ≡ false → append_file f t fs g ≡ fs g
unfolding append_file
append_file-other f g t fs h = rw h

-- The user's mapper, without the buffer and the files.
module _ (mapper : Text → List Pair) where
  -- what it emits for the lines
  unfoldable pub pairs_of : List Text → List Pair
  pairs_of [] = []
  pairs_of (l ∷ ls) = mapper l ++ pairs_of ls

  -- what it emits for the pieces of a query, as the input files stand
  unfoldable pub pairs_in : FileSystem → List FilePartition → List Pair
  unfolding pairs_of
  pairs_in fs [] = []
  pairs_in fs (p ∷ ps) = pairs_of (all_lines newline (read_buffer fs p)) ++ pairs_in fs ps

  read_buffer-same :
      (fs gs : FileSystem) (p : FilePartition)
      → gs p.filename ≡ fs p.filename
      → read_buffer gs p ≡ read_buffer fs p
  unfolding read_buffer
  read_buffer-same fs gs p e = rw e

  pairs_in-same :
      (fs gs : FileSystem) (ps : List FilePartition)
      → All (λ (p : FilePartition). gs p.filename ≡ fs p.filename) ps
      → pairs_in gs ps ≡ pairs_in fs ps
  unfolding pairs_in
  pairs_in-same fs gs [] h = refl
  pairs_in-same fs gs (p ∷ ps) h = rw (read_buffer-same fs gs p h.0, pairs_in-same fs gs ps h.1)

-- A job fixes the number of partitions and the file names; `target` is the file of a key.
module _ (hash : Text → ℕ) (n : ℕ) (names : List Text) where
  abbrev holding : List Pair → BaseMapper
  holding kvs = record { num_partitions = n; intermediate_files = names; key_value_pairs = kvs }

  unfoldable pub target : Text → Text
  target k = get_or names (hash k % n) []

  -- what the pairs `ps` add to the file `f`
  unfoldable pub written : Text → List Pair → Text
  written f [] = []
  written f (p ∷ ps) = (if text_eq (target p.0) f then pair_line p else []) ++ written f ps

  written-append :
      (f : Text) (ps qs : List Pair) → written f (ps ++ qs) ≡ written f ps ++ written f qs
  unfolding written
  written-append f [] qs = refl
  written-append f (p ∷ ps) qs = rw (written-append f ps qs, append_assoc)

  content-dump_pairs :
      (kvs ps : List Pair) (fs : FileSystem) (f : Text)
      → content (dump_pairs hash (holding kvs) ps fs f) ≡ content (fs f) ++ written f ps
  unfolding dump_pairs written target
  content-dump_pairs kvs [] fs f = sym (append-nil (content (fs f)))
  content-dump_pairs kvs (p ∷ ps) fs f =
      content-dump_pairs kvs ps (append_file (target p.0) (pair_line p) fs) f
      ∙ ap (λ t. t ++ written f ps) (content-append_file (target p.0) f (pair_line p) fs)
      ∙ append_assoc (content (fs f)) (if text_eq (target p.0) f then pair_line p else [])
          (written f ps)

  -- no key goes to `g`
  abbrev pub IsInput : Text → Type 0
  IsInput g = (k : Text) → text_eq (target k) g ≡ false

  dump_pairs-other :
      (kvs ps : List Pair) (fs : FileSystem) (g : Text)
      → IsInput g
      → dump_pairs hash (holding kvs) ps fs g ≡ fs g
  unfolding dump_pairs target
  dump_pairs-other kvs [] fs g h = refl
  dump_pairs-other kvs (p ∷ ps) fs g h =
      dump_pairs-other kvs ps (append_file (target p.0) (pair_line p) fs) g h
      ∙ append_file-other (target p.0) g (pair_line p) fs (h p.0)

  -- From the buffer `kvs` and the files `fs` the pairs `ps` have been emitted.
  record Emits (kvs : List Pair) (fs : FileSystem) (ps : List Pair) (r : BaseMapper × FileSystem)
      : Type 0 where
    kept : List Pair
    files : FileSystem
    result : r ≡ (holding kept, files)
    seen :
        (f : Text)
        → content (files f) ++ written f kept ≡ (content (fs f) ++ written f kvs) ++ written f ps
    inputs : (g : Text) → IsInput g → files g ≡ fs g

  Emits-none : (kvs : List Pair) (fs : FileSystem) → Emits kvs fs [] (holding kvs, fs)
  unfolding written
  Emits-none kvs fs = record {
    kept = kvs;
    files = fs;
    result = refl;
    seen = λ f. sym (append-nil _);
    inputs = λ g h. refl;
  }

  Emits-then :
      {kvs : List Pair} {fs : FileSystem} {ps : List Pair} {r : BaseMapper × FileSystem}
      (qs : List Pair) (next : BaseMapper × FileSystem → BaseMapper × FileSystem)
      → (e : Emits kvs fs ps r) → Emits e.kept e.files qs (next (holding e.kept, e.files))
      → Emits kvs fs (ps ++ qs) (next r)
  Emits-then {kvs} {fs} {ps} qs next e d = record {
    kept = d.kept;
    files = d.files;
    result = ap next e.result ∙ d.result;
    seen = λ f.
        d.seen f
        ∙ ap (λ t. t ++ written f qs) (e.seen f)
        ∙ append_assoc (content (fs f) ++ written f kvs) (written f ps) (written f qs)
        ∙ ap (◌++◌ (content (fs f) ++ written f kvs)) (sym (written-append f ps qs));
    inputs = λ g h. d.inputs g h ∙ e.inputs g h;
  }

  emit-Emits :
      (kvs : List Pair) (fs : FileSystem) (p : Pair)
      → Emits kvs fs (p ∷ []) (emit hash (holding kvs, fs) p)
  unfolding emit written
  emit-Emits kvs fs p = elim (Bool-cases (leb key_value_pair_dump_threshold (length kvs))) [
    | inl full ↦ record {
      kept = p ∷ [];
      files = dump_pairs hash (holding kvs) kvs fs;
      result = rw full;
      seen = λ f. ap (λ t. t ++ written f (p ∷ [])) (content-dump_pairs kvs kvs fs f);
      inputs = λ g h. dump_pairs-other kvs kvs fs g h;
    }
    | inr room ↦ record {
      kept = kvs ++ p ∷ [];
      files = fs;
      result = rw room;
      seen = λ f.
          ap (◌++◌ (content (fs f))) (written-append f kvs (p ∷ []))
          ∙ sym (append_assoc (content (fs f)) (written f kvs) (written f (p ∷ [])));
      inputs = λ g h. refl;
    }
  ]

  all-Emits :
      (ps : List Pair) (kvs : List Pair) (fs : FileSystem)
      → Emits kvs fs ps (foldl (emit hash) (holding kvs, fs) ps)
  all-Emits [] kvs fs = Emits-none kvs fs
  all-Emits (p ∷ ps) kvs fs =
      let e = emit-Emits kvs fs p in
      Emits-then ps (λ s. foldl (emit hash) s ps) e (all-Emits ps e.kept e.files)

  abbrev pub AllInputs : List FilePartition → Type 0
  AllInputs ps = All (λ (p : FilePartition). IsInput p.filename) ps

  module _ (mapper : Text → List Pair) where
    map_lines-Emits :
        (ls : List Text) (kvs : List Pair) (fs : FileSystem)
        → Emits kvs fs (pairs_of mapper ls) (map_lines hash mapper ls (holding kvs, fs))
    unfolding map_lines pairs_of
    map_lines-Emits [] kvs fs = Emits-none kvs fs
    map_lines-Emits (l ∷ ls) kvs fs =
        let e = all-Emits (mapper l) kvs fs in
        Emits-then (pairs_of mapper ls) (map_lines hash mapper ls) e
          (map_lines-Emits ls e.kept e.files)

    map_partitions-Emits :
        (ps : List FilePartition) (kvs : List Pair) (fs : FileSystem)
        → AllInputs ps
        → Emits kvs fs (pairs_in mapper fs ps) (map_partitions hash mapper ps (holding kvs, fs))
    unfolding map_partitions pairs_in
    map_partitions-Emits [] kvs fs h = Emits-none kvs fs
    map_partitions-Emits (p ∷ ps) kvs fs h =
        let e = map_lines-Emits (all_lines newline (read_buffer fs p)) kvs fs in
        let same = pairs_in-same mapper fs e.files ps (
          All-map (λ (q : FilePartition). IsInput q.filename)
            (λ (q : FilePartition). e.files q.filename ≡ fs q.filename) ps
            (λ q i. e.inputs q.filename i) h.1) in
        Emits-then (pairs_in mapper fs ps) (map_partitions hash mapper ps) e (
          subst
            (λ l. Emits e.kept e.files l (map_partitions hash mapper ps (holding e.kept, e.files)))
            same (map_partitions-Emits ps e.kept e.files h.1))

    dump_seen :
        {fs : FileSystem} {ps : List Pair} {r : BaseMapper × FileSystem} (f : Text)
        → Emits [] fs ps r
        → content ((dump hash r).1 f) ≡ content (fs f) ++ written f ps
    unfolding dump written
    dump_seen {fs} {ps} f e =
        ap (λ r. content ((dump hash r).1 f)) e.result
        ∙ content-dump_pairs e.kept e.kept e.files f
        ∙ e.seen f
        ∙ ap (λ t. t ++ written f ps) (append-nil (content (fs f)))

-- A map job adds to each file exactly the pairs emitted for the lines of its pieces whose key goes
-- there, in their order, whatever the size of the buffer. No input file has an intermediate name.
pub handle_map_job-written :
    (hash : Text → ℕ) (mapper : Text → List Pair) (addr : Text) (q : MapQuery) (fs : FileSystem)
    → AllInputs hash q.n_partitions (names_from addr 0 q.n_partitions) q.partitions
    → (f : Text)
    → content ((handle_map_job hash mapper addr q fs).1 f)
      ≡ content (fs f)
        ++ written hash q.n_partitions
            (names_from addr 0 q.n_partitions)
            f
            (pairs_in mapper fs q.partitions)
unfolding handle_map_job
handle_map_job-written hash mapper addr q fs h f =
    dump_seen hash q.n_partitions (names_from addr 0 q.n_partitions) mapper f (
      map_partitions-Emits hash q.n_partitions (names_from addr 0 q.n_partitions) mapper
        q.partitions [] fs h)
