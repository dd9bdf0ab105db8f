-- ===== src/MapReduce/Spec/RoundTrip.antt =====
-- A written configuration is read back by read_mr_spec_from_config_file of
-- project4/src/mapreduce_spec.h.
use advanced_os.Prelude.{
  ℕ, ◌≡◌, refl, ap, ◌∙◌, true, false, Option, some, ◌>>=◌, List, [], ◌∷◌, ◌++◌, All, All-append,
  ◌==◌, arith,
}
use advanced_os.Prelude.Int.{ℤ}
use advanced_os.MapReduce.Text.{Text, FileSystem, newline, text_eq}
use advanced_os.MapReduce.Text.Lines.{lines, Lacks, lines-line, lines-last, all_lines-lines}
use advanced_os.MapReduce.Spec.{
  MapReduceSpec, codes, stoi, read_entry, read_entries, read_open, read_mr_spec_from_config_file,
}
use advanced_os.MapReduce.Spec.Numbers.{shown, IsInt, stoi-shown, shown-Lacks}

-- the texts with commas between them
abbrev pub join : List Text → Text
join [] = []
join (x ∷ []) = x
join (x ∷ y ∷ xs) = x ++ (b',' ∷ join (y ∷ xs))

-- each text followed by a newline
abbrev pub unlines : List Text → Text
unlines [] = []
unlines (l ∷ ls) = l ++ (newline ∷ unlines ls)

-- the lines of a configuration file, in the order of project4/test/config.ini
abbrev pub entries : MapReduceSpec → List Text
entries s =
    (codes "n_workers" ++ (b'=' ∷ shown s.n_workers))
    ∷ (codes "worker_ipaddr_ports" ++ (b'=' ∷ join s.worker_ipaddr_ports))
    ∷ (codes "input_files" ++ (b'=' ∷ join s.input_files))
    ∷ (codes "output_dir" ++ (b'=' ∷ s.output_dir))
    ∷ (codes "n_output_files" ++ (b'=' ∷ shown s.n_output_files))
    ∷ (codes "map_kilobytes" ++ (b'=' ∷ shown s.map_kilobytes))
    ∷ (codes "user_id" ++ (b'=' ∷ s.user_id))
    ∷ []

-- an element of a list in a configuration
abbrev pub IsEntry : Text → Type 0
IsEntry [] = ⊥
IsEntry (c ∷ cs) = Lacks b',' (c ∷ cs) × Lacks newline (c ∷ cs)

-- a specification that can be written as a configuration
pub record IsWritable (s : MapReduceSpec) : Type 0 where
  pub workers : IsInt s.n_workers
  pub outputs : IsInt s.n_output_files
  pub shard_size : IsInt s.map_kilobytes
  pub addresses : All IsEntry s.worker_ipaddr_ports
  pub inputs : All IsEntry s.input_files
  pub directory : Lacks newline s.output_dir
  pub user : Lacks newline s.user_id

-- the state before a configuration is read: the numbers are whatever they are
abbrev pub unread : ℤ → ℤ → ℤ → Text → Text → MapReduceSpec
unread a b c dir user = record {
  n_workers = a;
  worker_ipaddr_ports = [];
  input_files = [];
  output_dir = dir;
  n_output_files = b;
  map_kilobytes = c;
  user_id = user;
}

lines-unlines : (ls : List Text) → All (Lacks newline) ls → lines newline (unlines ls) ≡ ls
lines-unlines [] h = unfold lines in refl
lines-unlines (l ∷ ls) h = lines-line newline l (unlines ls) h.0 ∙ ap (◌∷◌ l) (lines-unlines ls h.1)

lines-join : (xs : List Text) → All IsEntry xs → lines b',' (join xs) ≡ xs
lines-join [] h = unfold lines in refl
lines-join ([] ∷ xs) h = absurd h.0
lines-join ((c ∷ cs) ∷ []) h = lines-last b',' c cs h.0.0
lines-join ((c ∷ cs) ∷ y ∷ xs) h =
    lines-line b',' (c ∷ cs) (join (y ∷ xs)) h.0.0 ∙ ap (◌∷◌ (c ∷ cs)) (lines-join (y ∷ xs) h.1)

join-Lacks : (xs : List Text) → All IsEntry xs → Lacks newline (join xs)
join-Lacks [] h = tt
join-Lacks ([] ∷ xs) h = absurd h.0
join-Lacks ((c ∷ cs) ∷ []) h = h.0.1
join-Lacks ((c ∷ cs) ∷ y ∷ xs) h =
    All-append (λ (d : ℕ). (d == newline) ≡ false) (c ∷ cs) (b',' ∷ join (y ∷ xs)) h.0.1
      (refl, join-Lacks (y ∷ xs) h.1)

entries-Lacks : (s : MapReduceSpec) → IsWritable s → All (Lacks newline) (entries s)
entries-Lacks s w = ground (
  arith,
  shown-Lacks s.n_workers,
  shown-Lacks s.n_output_files,
  shown-Lacks s.map_kilobytes,
  join-Lacks s.worker_ipaddr_ports w.addresses,
  join-Lacks s.input_files w.inputs,
)

-- A line of a configuration sets the field of its key.
module _ (v : Text) (s : MapReduceSpec) where
  read_number :
      {z : ℤ}
      → stoi v ≡ some z
      → (read_entry (codes "n_workers" ++ (b'=' ∷ v)) s ≡ some (record s { n_workers = z }))
        × (read_entry (codes "n_output_files" ++ (b'=' ∷ v)) s
            ≡ some (record s { n_output_files = z }))
        × (read_entry (codes "map_kilobytes" ++ (b'=' ∷ v)) s
            ≡ some (record s { map_kilobytes = z }))
  unfolding read_entry text_eq
  read_number e = (
    ap (λ o. o >>= λ n. some (record s { n_workers = n })) e,
    ap (λ o. o >>= λ n. some (record s { n_output_files = n })) e,
    ap (λ o. o >>= λ n. some (record s { map_kilobytes = n })) e,
  )

  read_list :
      {l : List Text}
      → lines b',' v ≡ l
      → (read_entry (codes "worker_ipaddr_ports" ++ (b'=' ∷ v)) s
          ≡ some (record s { worker_ipaddr_ports = s.worker_ipaddr_ports ++ l }))
        × (read_entry (codes "input_files" ++ (b'=' ∷ v)) s
            ≡ some (record s { input_files = s.input_files ++ l }))
  unfolding read_entry text_eq
  read_list e = (
    ap (λ l. some (record s { worker_ipaddr_ports = s.worker_ipaddr_ports ++ l }))
        (all_lines-lines b',' v ∙ e),
    ap (λ l. some (record s { input_files = s.input_files ++ l })) (all_lines-lines b',' v ∙ e),
  )

  read_text :
      (read_entry (codes "output_dir" ++ (b'=' ∷ v)) s ≡ some (record s { output_dir = v }))
      × (read_entry (codes "user_id" ++ (b'=' ∷ v)) s ≡ some (record s { user_id = v }))
  unfolding read_entry text_eq
  read_text = (refl, refl)

read_next :
    (l : Text) (ls : List Text) (s : MapReduceSpec) {t : MapReduceSpec} {r : Option MapReduceSpec}
    → read_entry l s ≡ some t
    → read_entries ls t ≡ r
    → read_entries (l ∷ ls) s ≡ r
unfolding read_entries
read_next l ls s e h = ap (λ o. o >>= λ s'. read_entries ls s') e ∙ h

module _ (s : MapReduceSpec) (w : IsWritable s) where
  read_entries-entries :
      (a b c : ℤ) (dir user : Text) → read_entries (entries s) (unread a b c dir user) ≡ some s
  read_entries-entries a b c dir user =
      let s0 = unread a b c dir user in
      let s1 = record s0 { n_workers = s.n_workers } in
      let s2 = record s1 { worker_ipaddr_ports = s.worker_ipaddr_ports } in
      let s3 = record s2 { input_files = s.input_files } in
      let s4 = record s3 { output_dir = s.output_dir } in
      let s5 = record s4 { n_output_files = s.n_output_files } in
      let s6 = record s5 { map_kilobytes = s.map_kilobytes } in
      let n = shown s.n_workers in
      let o = shown s.n_output_files in
      let k = shown s.map_kilobytes in
      let ips = join s.worker_ipaddr_ports in
      let files = join s.input_files in
      read_next _ _ s0 (read_number n s0 (stoi-shown s.n_workers w.workers)).0 (
        read_next _ _ s1 (read_list ips s1 (lines-join s.worker_ipaddr_ports w.addresses)).0 (
          read_next _ _ s2 (read_list files s2 (lines-join s.input_files w.inputs)).1 (
            read_next _ _ s3 (read_text s.output_dir s3).0 (
              read_next _ _ s4 (read_number o s4 (stoi-shown s.n_output_files w.outputs)).1 (
                read_next _ _ s5 (read_number k s5 (stoi-shown s.map_kilobytes w.shard_size)).2
                  (read_next _ _ s6 (read_text s.user_id s6).1 (unfold read_entries in refl)))))))

  -- A specification whose numbers are ints of 32 bits, whose addresses and input files are not empty
  -- and hold neither a comma nor a newline, and whose output directory and user hold no newline, is
  -- read back unchanged from the file that holds its seven entries, into a specification without
  -- addresses and input files.
  pub read_mr_spec-entries :
      (fs : FileSystem) (config_filename : Text) (a b c : ℤ) (dir user : Text)
      → fs config_filename ≡ some (unlines (entries s))
      → read_mr_spec_from_config_file fs config_filename (unread a b c dir user) ≡ some (true, s)
  unfolding read_mr_spec_from_config_file
  read_mr_spec-entries fs name a b c dir user e =
      ap (λ o. read_open o (unread a b c dir user)) e
      ∙ ap (λ ls. read_entries ls (unread a b c dir user) >>= λ s'. some (true, s'))
          (all_lines-lines newline (unlines (entries s))
            ∙ lines-unlines (entries s) (entries-Lacks s w))
      ∙ ap (λ o. o >>= λ s'. some (true, s')) (read_entries-entries a b c dir user)
