-- ===== src/MapReduce/Shards.antt =====
-- project4/src/file_shard.h: the input files cut into shards at line ends. The file system is the
-- parameter `FileSystem`; sizes are `long`, and neither they nor the int `map_kilobytes * 1024` overflow.
pub mod Pieces
pub mod Splits
pub mod Loop
pub mod Tiles
pub mod Failures
pub mod Before
use advanced_os.Prelude.{
  ℕ, zero, suc, ◌+◌, ◌-◌, ◌*◌, ◌≡◌, ◌<◌, ◌≤◌, List, [], ◌∷◌, ◌++◌, Bool, true, false, Option, none,
  some, ltb, ◌==◌, if◌then◌else◌, length, drop,
}
use advanced_os.MapReduce.Text.{Text, FileSystem, newline, getline}

pub record FileShard : Type 0 where
  pub files : List Text
  pub offsets : List (ℕ × ℕ)  -- (start, end) offsets for each file

abbrev pub empty_shard : FileShard
empty_shard = record { files = []; offsets = [] }

-- `none` stands for -1 in these two.
pub get_file_size : FileSystem → Text → Option ℕ
get_file_size fs filename = elim (fs filename) [ none ↦ none | some bytes ↦ some (length bytes) ]

pub get_split : FileSystem → Text → ℕ → ℕ → Option ℕ
get_split fs filename offset remain = elim (fs filename) [
  | none ↦ none
  | some bytes ↦ elim (getline newline (drop (offset + remain) bytes)) [
    | none ↦ none
    | some (line, _) ↦ some (remain + length line + 1)
  ]
]

-- the variables of `shard_files`
pub record Sharding : Type 0 where
  pub closed : List FileShard
  pub shard : FileShard
  pub remain : ℕ

unfoldable pub add_piece : Text → ℕ → ℕ → FileShard → FileShard
add_piece f start end s = record {
  files = s.files ++ f ∷ [];
  offsets = s.offsets ++ (start, end) ∷ [];
}

pub data Outcome (A : Type 0) : Type 0 where
  done : A → Outcome A
  failed : Outcome A
  out_of_fuel : Outcome A

-- The branch where what is left of the file fits.
pub take_rest : Text → ℕ → ℕ → Sharding → Sharding
unfolding add_piece
take_rest f offset size s = record s {
  shard = add_piece f offset (offset + size) s.shard;
  remain = s.remain - size;
}

-- The branch where it does not: the shard is closed at the end of a line.
pub close_shard : ℕ → Text → ℕ → ℕ → Sharding → Sharding
unfolding add_piece
close_shard shard_size f offset split s = record {
  closed = s.closed ++ add_piece f offset (offset + split) s.shard ∷ [];
  shard = empty_shard;
  remain = shard_size;
}

-- `while (file_size > 0)`. A split may end one byte behind the file; then `file_size` is -1, which
-- ends the loop as 0 does.
pub shard_loop : ℕ → FileSystem → ℕ → Text → ℕ → ℕ → Sharding → Outcome Sharding
unfolding get_split take_rest close_shard
shard_loop zero fs shard_size f offset size s = elim (ltb 0 size) [
  | true ↦ out_of_fuel
  | false ↦ done s
]
shard_loop (suc fuel) fs shard_size f offset size s = elim (ltb 0 size) [
  | false ↦ done s
  | true ↦ elim (ltb size s.remain) [
    | true ↦ shard_loop fuel fs shard_size f offset 0 (take_rest f offset size s)
    | false ↦ elim (get_split fs f offset s.remain) [
      | none ↦ failed
      | some split ↦
          shard_loop fuel fs shard_size f (offset + split) (size - split)
            (close_shard shard_size f offset split s)
    ]
  ]
]

pub shard_each : FileSystem → ℕ → List Text → Sharding → Outcome Sharding
unfolding get_file_size shard_loop
shard_each fs shard_size [] s = done s
shard_each fs shard_size (f ∷ fs') s = elim (get_file_size fs f) [
  | none ↦ failed
  | some size ↦ elim (shard_loop size fs shard_size f 0 size s) [
    | done s' ↦ shard_each fs shard_size fs' s'
    | failed ↦ failed
    | out_of_fuel ↦ out_of_fuel
  ]
]

-- `shard_files`, for the size and the input files of a specification, behind the shards that the vector
-- has before
unfoldable pub shard_files : FileSystem → ℕ → List Text → List FileShard → Outcome (List FileShard)
unfolding shard_each
shard_files fs map_kilobytes input_files file_shards =
    let shard_size = map_kilobytes * 1024 in
    elim (shard_each fs shard_size input_files
      (record { closed = file_shards; shard = empty_shard; remain = shard_size })) [
        | done s ↦ elim (ltb 0 (length s.shard.files)) [
          | true ↦ done (s.closed ++ s.shard ∷ [])
          | false ↦ done s.closed
        ]
        | failed ↦ failed
        | out_of_fuel ↦ out_of_fuel
      ]
