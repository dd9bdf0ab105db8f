-- ===== src/MapReduce/Shards/Pieces.antt =====
-- The pieces of shards, and what it means that they cover the input files.
use advanced_os.Prelude.{
  ℕ, zero, suc, ◌+◌, ◌≡◌, ◌<◌, ◌≤◌, ◌⊎◌, refl, ap, false, List, [], ◌∷◌, ◌++◌, some, length, get_or,
  arith, length-append,
}
use mathlib.Core.List.{append_assoc, append-nil}
use advanced_os.MapReduce.Text.Lines.{ends}
use advanced_os.MapReduce.Text.{Text, FileSystem, newline}
use advanced_os.MapReduce.Shards.{FileShard, Sharding, add_piece, take_rest, close_shard}

-- a file with a start and an end in it
pub record Piece : Type 0 where
  pub file : Text
  pub start : ℕ
  pub end : ℕ

unfoldable pub zip_pieces : List Text → List (ℕ × ℕ) → List Piece
zip_pieces (f ∷ fs) ((a, b) ∷ os) = record { file = f; start = a; end = b } ∷ zip_pieces fs os
zip_pieces _ _ = []

abbrev pub pieces : FileShard → List Piece
pieces s = zip_pieces s.files s.offsets

unfoldable pub all_pieces : List FileShard → List Piece
all_pieces [] = []
all_pieces (s ∷ ss) = pieces s ++ all_pieces ss

-- The end of the file, or behind a newline, or one byte behind a file that lacks the last newline.
abbrev pub AtLine : Text → ℕ → Type 0
AtLine bytes zero = length bytes ≡ 0
AtLine bytes (suc e) =
    (suc e ≡ length bytes)
    ⊎ (((e < length bytes) × (get_or bytes e 0 ≡ newline))
        ⊎ ((e ≡ length bytes) × (ends newline bytes ≡ false)))

pub data Tiles (f bytes : Text) : ℕ → List Piece → Type 0 where
  covered : {o : ℕ} → length bytes ≤ o → Tiles f bytes o []
  piece :
      {o e : ℕ} {ps : List Piece}
      → o < e
      → AtLine bytes e
      → Tiles f bytes e ps
      → Tiles f bytes o (record { file = f; start = o; end = e } ∷ ps)

pub data AllTiled (fs : FileSystem) : List Text → List Piece → Type 0 where
  no_files : AllTiled fs [] []
  next_file :
      {f : Text} {files : List Text} {ps qs : List Piece} (bytes : Text)
      → fs f ≡ some bytes
      → Tiles f bytes 0 ps
      → AllTiled fs files qs
      → AllTiled fs (f ∷ files) (ps ++ qs)

pub zip_pieces-snoc :
    (fs : List Text) (os : List (ℕ × ℕ)) (f : Text) (a b : ℕ)
    → length fs ≡ length os
    → zip_pieces (fs ++ f ∷ []) (os ++ (a, b) ∷ [])
      ≡ zip_pieces fs os ++ record { file = f; start = a; end = b } ∷ []
unfolding zip_pieces
zip_pieces-snoc [] [] f a b h = refl
zip_pieces-snoc [] (o ∷ os) f a b h = absurd (omega arith)
zip_pieces-snoc (g ∷ fs) [] f a b h = absurd (omega arith)
zip_pieces-snoc (g ∷ fs) ((c, d) ∷ os) f a b h =
    ap (◌∷◌ (record { file = g; start = c; end = d })) (zip_pieces-snoc fs os f a b (omega arith))

pub all_pieces-snoc :
    (ss : List FileShard) (s : FileShard) → all_pieces (ss ++ s ∷ []) ≡ all_pieces ss ++ pieces s
unfolding all_pieces
all_pieces-snoc [] s = append-nil (pieces s)
all_pieces-snoc (t ∷ ss) s = rw (all_pieces-snoc ss s, append_assoc)

abbrev pub IsParallel : FileShard → Type 0
IsParallel s = length s.files ≡ length s.offsets

-- the pieces placed so far
unfoldable pub placed : Sharding → List Piece
placed s = all_pieces s.closed ++ pieces s.shard

pub pieces-add_piece :
    (f : Text) (a b : ℕ) (s : FileShard)
    → IsParallel s
    → (pieces (add_piece f a b s) ≡ pieces s ++ record { file = f; start = a; end = b } ∷ [])
      × IsParallel (add_piece f a b s)
unfolding add_piece
pieces-add_piece f a b s h = (
  zip_pieces-snoc s.files s.offsets f a b h,
  omega (arith, length-append s.files (f ∷ []), length-append s.offsets ((a, b) ∷ [])),
)

pub placed-take_rest :
    (f : Text) (o size : ℕ) (s : Sharding)
    → IsParallel s.shard
    → (placed (take_rest f o size s)
        ≡ placed s ++ record { file = f; start = o; end = o + size } ∷ [])
      × IsParallel (take_rest f o size s).shard
unfolding placed take_rest
placed-take_rest f o size s h =
    let (e, same) = pieces-add_piece f o (o + size) s.shard h in (rw (e, append_assoc) refl, same)

pub placed-close_shard :
    (shard_size : ℕ) (f : Text) (o split : ℕ) (s : Sharding)
    → IsParallel s.shard
    → (placed (close_shard shard_size f o split s)
        ≡ placed s ++ record { file = f; start = o; end = o + split } ∷ [])
      × IsParallel (close_shard shard_size f o split s).shard
unfolding placed close_shard zip_pieces
placed-close_shard shard_size f o split s h =
    let (e, same) = pieces-add_piece f o (o + split) s.shard h in
    (rw (append-nil, all_pieces-snoc, e, append_assoc) refl, refl)
