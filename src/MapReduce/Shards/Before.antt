-- ===== src/MapReduce/Shards/Before.antt =====
-- The shards that shard_files of project4/src/file_shard.h finds in its vector stay before the new ones.
use advanced_os.Prelude.{
  ℕ, zero, suc, ◌+◌, ◌-◌, ◌*◌, ◌≡◌, ◌⊎◌, arith, refl, sym, ap, ◌∙◌, List, [], ◌∷◌, ◌++◌, ltb,
  length, Option-cases, Bool-cases, inl, inr,
}
use mathlib.Core.List.{append_assoc, append-nil}
use advanced_os.MapReduce.Text.{Text, FileSystem}
use advanced_os.MapReduce.Shards.{
  FileShard, empty_shard, get_file_size, get_split, Sharding, Outcome, done, failed, out_of_fuel,
  add_piece, take_rest, close_shard, shard_loop, shard_each, shard_files,
}

abbrev onto : List FileShard → Sharding → Sharding
onto before s = record s { closed = before ++ s.closed }

abbrev on_done : {A : Type 0} → (A → A) → Outcome A → Outcome A
on_done g (done a) = done (g a)
on_done g failed = failed
on_done g out_of_fuel = out_of_fuel

abbrev pub appended : List FileShard → Outcome (List FileShard) → Outcome (List FileShard)
appended before = on_done (◌++◌ before)

Outcome-cases :
    {A : Type 0} (o : Outcome A) → ((a : A) × (o ≡ done a)) ⊎ ((o ≡ failed) ⊎ (o ≡ out_of_fuel))
Outcome-cases (done a) = inl (a, refl)
Outcome-cases failed = inr (inl refl)
Outcome-cases out_of_fuel = inr (inr refl)

module _ (before : List FileShard) (fs : FileSystem) (shard_size : ℕ) where
  close_shard-onto :
      (f : Text) (offset split : ℕ) (s : Sharding)
      → close_shard shard_size f offset split (onto before s)
        ≡ onto before (close_shard shard_size f offset split s)
  unfolding close_shard
  close_shard-onto f offset split s =
      ap (λ c. record { closed = c; shard = empty_shard; remain = shard_size })
        (append_assoc before s.closed (add_piece f offset (offset + split) s.shard ∷ []))

  shard_loop-onto :
      (fuel : ℕ) (f : Text) (offset size : ℕ) (s : Sharding)
      → shard_loop fuel fs shard_size f offset size (onto before s)
        ≡ on_done (onto before) (shard_loop fuel fs shard_size f offset size s)
  unfolding shard_loop take_rest
  shard_loop-onto zero f offset size s = elim (Bool-cases (ltb 0 size)) [
    | inl more ↦ ground arith
    | inr over ↦ ground arith
  ]
  shard_loop-onto (suc fuel) f offset size s = elim (Bool-cases (ltb 0 size)) [
    | inr over ↦ ground arith
    | inl more ↦ elim (Bool-cases (ltb size s.remain)) [
      | inl fits ↦ ground (arith, shard_loop-onto fuel f offset 0 (take_rest f offset size s))
      | inr splits ↦ elim (Option-cases (get_split fs f offset s.remain)) [
        | inl bad ↦ ground arith
        | inr (split, e) ↦ ground (
          arith,
          ap (shard_loop fuel fs shard_size f (offset + split) (size - split))
                (close_shard-onto f offset split s)
              ∙ shard_loop-onto fuel f (offset + split) (size - split)
                  (close_shard shard_size f offset split s),
        )
      ]
    ]
  ]

  shard_each-onto :
      (files : List Text) (s : Sharding)
      → shard_each fs shard_size files (onto before s)
        ≡ on_done (onto before) (shard_each fs shard_size files s)
  unfolding shard_each
  shard_each-onto [] s = refl
  shard_each-onto (f ∷ files) s = elim (Option-cases (get_file_size fs f)) [
    | inl gone ↦ ground arith
    | inr (size, e) ↦ elim (Outcome-cases (shard_loop size fs shard_size f 0 size s)) [
      | inl (t, r) ↦ ground (arith, shard_loop-onto size f 0 size s, shard_each-onto files t)
      | inr (inl bad) ↦ ground (arith, shard_loop-onto size f 0 size s)
      | inr (inr bad) ↦ ground (arith, shard_loop-onto size f 0 size s)
    ]
  ]

-- The result behind some shards is that behind none, with these before it.
pub shard_files-before :
    (fs : FileSystem) (kb : ℕ) (files : List Text) (before : List FileShard)
    → shard_files fs kb files before ≡ appended before (shard_files fs kb files [])
unfolding shard_files
shard_files-before fs kb files before =
    let start : Sharding = record { closed = []; shard = empty_shard; remain = kb * 1024 } in
    let moved = shard_each-onto before fs (kb * 1024) files start in
    let from : onto before start ≡ record start { closed = before } =
      ap (λ c. record start { closed = c }) (append-nil before) in
    let e = sym (ap (shard_each fs (kb * 1024) files) from) ∙ moved in
    elim (Outcome-cases (shard_each fs (kb * 1024) files start)) [
      | inl (t, r) ↦ elim (Bool-cases (ltb 0 (length t.shard.files))) [
        | inl some_left ↦ ground (arith, e, append_assoc before t.closed (t.shard ∷ []))
        | inr none_left ↦ ground (arith, e)
      ]
      | inr (inl bad) ↦ ground (arith, e)
      | inr (inr bad) ↦ ground (arith, e)
    ]
