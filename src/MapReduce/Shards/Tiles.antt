-- ===== src/MapReduce/Shards/Tiles.antt =====
-- The pieces of the shards, in order, cover each input file from its start to its end, without gap
-- or overlap, and each ends at the end of a line.
use advanced_os.Prelude.{
  ℕ, ◌*◌, ◌≡◌, ◌⊎◌, inl, inr, refl, sym, ap, subst, ◌∙◌, List, [], ◌∷◌, ◌++◌, none, some, ltb,
  if◌then◌else◌, length, arith, Option-cases, lt→ltb,
}
use mathlib.Core.List.{append_assoc, append-nil}
use advanced_os.MapReduce.Text.{Text, FileSystem}
use advanced_os.MapReduce.Shards.{
  FileShard, empty_shard, get_file_size, Sharding, Outcome, done, failed, shard_loop, shard_each,
  shard_files,
}
use advanced_os.MapReduce.Shards.Pieces.{
  Piece, all_pieces, AllTiled, zip_pieces, no_files, next_file, all_pieces-snoc, IsParallel, placed,
}
use advanced_os.MapReduce.Shards.Before.{appended, shard_files-before}
use advanced_os.MapReduce.Shards.Loop.{Adds, shard_loop-Adds}

record AddsAll (fs : FileSystem) (files : List Text) (s s' : Sharding) : Type 0 where
  new : List Piece
  tiled : AllTiled fs files new
  after : placed s' ≡ placed s ++ new
  parallel : IsParallel s'.shard

abbrev EndsAll : FileSystem → List Text → Sharding → Outcome Sharding → Type 0
EndsAll fs files s r = (r ≡ failed) ⊎ ((s' : Sharding) × (r ≡ done s') × AddsAll fs files s s')

AddsAll-next :
    (fs : FileSystem) (f bytes : Text) (files : List Text) (s t u : Sharding)
    → fs f ≡ some bytes
    → Adds f bytes 0 s t
    → AddsAll fs files t u
    → AddsAll fs (f ∷ files) s u
AddsAll-next fs f bytes files s t u e a b = record {
  new = a.new ++ b.new;
  tiled = next_file bytes e a.tiled b.tiled;
  after = b.after ∙ ap (λ l. l ++ b.new) a.after ∙ append_assoc (placed s) a.new b.new;
  parallel = b.parallel;
}

module _ (fs : FileSystem) (shard_size : ℕ) (f : Text) (files : List Text) (s : Sharding) where
  each_missing : fs f ≡ none → shard_each fs shard_size (f ∷ files) s ≡ failed
  unfolding shard_each get_file_size
  each_missing e = ground arith

  pub each_fails :
      (bytes : Text)
      → fs f ≡ some bytes
      → shard_loop (length bytes) fs shard_size f 0 (length bytes) s ≡ failed
      → shard_each fs shard_size (f ∷ files) s ≡ failed
  unfolding get_file_size
  each_fails bytes e h = unfold shard_each in ground arith

  each_next :
      (bytes : Text) (t : Sharding)
      → fs f ≡ some bytes
      → shard_loop (length bytes) fs shard_size f 0 (length bytes) s ≡ done t
      → shard_each fs shard_size (f ∷ files) s ≡ shard_each fs shard_size files t
  unfolding get_file_size
  each_next bytes t e h = unfold shard_each in ground arith

shard_each-AddsAll :
    (fs : FileSystem) (shard_size : ℕ) (files : List Text) (s : Sharding)
    → IsParallel s.shard
    → EndsAll fs files s (shard_each fs shard_size files s)
shard_each-AddsAll fs shard_size [] s same = inr (
  s,
  unfold shard_each in refl,
  record { new = []; tiled = no_files; after = sym (append-nil (placed s)); parallel = same },
)
shard_each-AddsAll fs shard_size (f ∷ files) s same = elim (Option-cases (fs f)) [
  | inl gone ↦ inl (each_missing fs shard_size f files s gone)
  | inr (bytes, e) ↦
      elim (shard_loop-Adds (length bytes) fs shard_size f bytes 0 (length bytes) s e (omega arith)
        (omega arith) same) [
          | inl bad ↦ inl (each_fails fs shard_size f files s bytes e bad)
          | inr (t, r, adds) ↦
              subst (EndsAll fs (f ∷ files) s) (sym (each_next fs shard_size f files s bytes t e r))
                (elim (shard_each-AddsAll fs shard_size files t adds.parallel) [
                  | inl bad ↦ inl bad
                  | inr (u, r', more) ↦ inr (u, r', AddsAll-next fs f bytes files s t u e adds more)
                ])
        ]
]

abbrev pub start : ℕ → List FileShard → Sharding
start kb before = record { closed = before; shard = empty_shard; remain = kb * 1024 }

module _ (fs : FileSystem) (kb : ℕ) (files : List Text) (before : List FileShard) where
  pub files_fail :
      shard_each fs (kb * 1024) files (start kb before) ≡ failed
      → shard_files fs kb files before ≡ failed
  files_fail h = unfold shard_files in ground arith

  files_done :
      (s : Sharding)
      → shard_each fs (kb * 1024) files (start kb before) ≡ done s
      → shard_files fs kb files before
        ≡ done (if ltb 0 (length s.shard.files) then s.closed ++ s.shard ∷ [] else s.closed)
  files_done s h = unfold shard_files in ground arith

last_shard :
    (closed : List FileShard) (fs : List Text) (os : List (ℕ × ℕ))
    → all_pieces
        (if ltb 0 (length fs) then closed ++ record { files = fs; offsets = os } ∷ [] else closed)
      ≡ all_pieces closed ++ zip_pieces fs os
unfolding zip_pieces
last_shard closed [] os = sym (append-nil (all_pieces closed))
last_shard closed (f ∷ fs) os =
    rw (lt→ltb 0 (length (f ∷ fs)) (omega arith)) (all_pieces-snoc closed _)

tiled_of_none :
    (fs : FileSystem) (kb : ℕ) (files : List Text)
    → (shard_files fs kb files [] ≡ failed)
      ⊎ ((shards : List FileShard) × (shard_files fs kb files [] ≡ done shards)
          × AllTiled fs files (all_pieces shards))
unfolding placed all_pieces zip_pieces
tiled_of_none fs kb files = elim (shard_each-AddsAll fs (kb * 1024) files (start kb []) refl) [
  | inl bad ↦ inl (files_fail fs kb files [] bad)
  | inr (s, r, a) ↦ inr (
    _,
    files_done fs kb files [] s r,
    subst (AllTiled fs files) (sym (last_shard s.closed s.shard.files s.shard.offsets ∙ a.after))
        a.tiled,
  )
]

-- Sharding ends within its fuel, and unless it fails it appends shards to those that the vector has
-- before, and the pieces of the shards appended, in order, cover each input file from its start to its
-- end without gap or overlap. Each piece ends behind a newline or at the end of its file, or one byte
-- behind a file that lacks the last newline.
pub shard_files-AllTiled :
    (fs : FileSystem) (map_kilobytes : ℕ) (input_files : List Text) (before : List FileShard)
    → (shard_files fs map_kilobytes input_files before ≡ failed)
      ⊎ ((shards : List FileShard) × (shard_files fs map_kilobytes input_files before
            ≡ done (before ++ shards))
          × AllTiled fs input_files (all_pieces shards))
shard_files-AllTiled fs kb files before = elim (tiled_of_none fs kb files) [
  | inl bad ↦ inl (shard_files-before fs kb files before ∙ ap (appended before) bad)
  | inr (shards, e, tiled) ↦
      inr (shards, shard_files-before fs kb files before ∙ ap (appended before) e, tiled)
]
