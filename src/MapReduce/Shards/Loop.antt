-- ===== src/MapReduce/Shards/Loop.antt =====
-- The loop over one file adds pieces that cover what is left of the file.
use advanced_os.Prelude.{
  ℕ, zero, suc, ◌+◌, ◌-◌, ◌≡◌, ◌<◌, ◌≤◌, ◌⊎◌, inl, inr, refl, sym, subst, ◌∙◌, List, [], ◌∷◌, ◌++◌,
  none, some, length, arith, Option-cases, dec_lt,
}
use mathlib.Core.List.{append_assoc, append-nil}
use advanced_os.MapReduce.Text.{Text, FileSystem}
use advanced_os.MapReduce.Shards.{
  get_split, Sharding, Outcome, done, failed, take_rest, close_shard, shard_loop,
}
use advanced_os.MapReduce.Shards.Pieces.{
  Piece, AtLine, Tiles, covered, piece, IsParallel, placed, placed-take_rest, placed-close_shard,
}
use advanced_os.MapReduce.Shards.Splits.{get_split-AtLine}

-- What one file adds: its pieces, behind those placed before.
pub record Adds (f bytes : Text) (o : ℕ) (s s' : Sharding) : Type 0 where
  pub new : List Piece
  pub tiled : Tiles f bytes o new
  pub after : placed s' ≡ placed s ++ new
  pub parallel : IsParallel s'.shard

pub Adds-piece :
    (f bytes : Text) (o e : ℕ) (s t u : Sharding)
    → o < e
    → AtLine bytes e
    → placed t ≡ placed s ++ record { file = f; start = o; end = e } ∷ []
    → Adds f bytes e t u
    → Adds f bytes o s u
Adds-piece f bytes o e s t u lt line next a = record {
  new = record { file = f; start = o; end = e } ∷ a.new;
  tiled = piece lt line a.tiled;
  after = a.after ∙ rw (next, append_assoc) refl;
  parallel = a.parallel;
}

pub AtLine-end : (bytes : Text) (e : ℕ) → e ≡ length bytes → AtLine bytes e
AtLine-end bytes zero h = sym h
AtLine-end bytes (suc e) h = inl h

abbrev pub Ends : Text → Text → ℕ → Sharding → Outcome Sharding → Type 0
Ends f bytes o s r = (r ≡ failed) ⊎ ((s' : Sharding) × (r ≡ done s') × Adds f bytes o s s')

module _ (fs : FileSystem) (shard_size : ℕ) (f : Text) (o : ℕ) (s : Sharding) where
  pub loop_done : (fuel : ℕ) → shard_loop fuel fs shard_size f o 0 s ≡ done s
  unfolding shard_loop
  loop_done zero = refl
  loop_done (suc fuel) = refl

  pub loop_rest :
      (fuel size : ℕ)
      → 0 < size
      → size < s.remain
      → shard_loop (suc fuel) fs shard_size f o size s ≡ done (take_rest f o size s)
  unfolding shard_loop
  loop_rest zero size h k = ground arith
  loop_rest (suc fuel) size h k = ground arith

  pub loop_fails :
      (fuel size : ℕ)
      → 0 < size
      → s.remain ≤ size
      → get_split fs f o s.remain ≡ none
      → shard_loop (suc fuel) fs shard_size f o size s ≡ failed
  unfolding shard_loop
  loop_fails fuel size h k e = ground arith

  pub loop_splits :
      (fuel size split : ℕ)
      → 0 < size
      → s.remain ≤ size
      → get_split fs f o s.remain ≡ some split
      → shard_loop (suc fuel) fs shard_size f o size s
        ≡ shard_loop fuel fs shard_size f
            (o + split)
            (size - split)
            (close_shard shard_size f o split s)
  unfolding shard_loop
  loop_splits fuel size split h k e = ground arith

-- The loop ends within its fuel; unless it fails, its pieces cover what is left of the file.
pub shard_loop-Adds :
    (fuel : ℕ) (fs : FileSystem) (shard_size : ℕ) (f bytes : Text) (o size : ℕ) (s : Sharding)
    → fs f ≡ some bytes
    → size ≡ length bytes - o
    → size ≤ fuel
    → IsParallel s.shard
    → Ends f bytes o s (shard_loop fuel fs shard_size f o size s)
shard_loop-Adds fuel fs shard_size f bytes o zero s e all few same = inr (
  s,
  loop_done fs shard_size f o s fuel,
  record {
    new = [];
    tiled = covered (omega arith);
    after = sym (append-nil (placed s));
    parallel = same;
  },
)
shard_loop-Adds zero fs shard_size f bytes o (suc n) s e all few same = absurd (omega arith)
shard_loop-Adds (suc fuel) fs shard_size f bytes o (suc n) s e all few same =
    elim (dec_lt (suc n) s.remain) [
      | yes rest ↦
          let (after, same') = placed-take_rest f o (suc n) s same in
          inr (
            take_rest f o (suc n) s,
            loop_rest fs shard_size f o s fuel (suc n) (omega arith) rest,
            record {
              new = record { file = f; start = o; end = o + suc n } ∷ [];
              tiled =
                  piece (omega arith) (AtLine-end bytes (o + suc n) (omega arith))
                    (covered (omega arith));
              after = after;
              parallel = same';
            },
          )
      | no over ↦ elim (Option-cases (get_split fs f o s.remain)) [
        | inl gone ↦
            inl (loop_fails fs shard_size f o s fuel (suc n) (omega arith) (omega arith) gone)
        | inr (split, h) ↦
            let (pos, line) = get_split-AtLine fs f bytes o s.remain split e h in
            let (after, same') = placed-close_shard shard_size f o split s same in
            let t = close_shard shard_size f o split s in
            subst (Ends f bytes o s)
              (sym
                (loop_splits fs shard_size f o s fuel (suc n) split (omega arith) (omega arith) h))
              (elim (shard_loop-Adds fuel fs shard_size f bytes (o + split) (suc n - split) t e
                (omega arith) (omega arith) same') [
                  | inl bad ↦ inl bad
                  | inr (u, r, adds) ↦
                      inr
                        (u, r, Adds-piece f bytes o (o + split) s t u (omega arith) line after adds)
                ])
      ]
    ]
