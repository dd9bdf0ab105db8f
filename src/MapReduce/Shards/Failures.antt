-- ===== src/MapReduce/Shards/Failures.antt =====
-- Where sharding fails although every file can be read.
use advanced_os.Prelude.{
  ℕ, zero, suc, ◌+◌, ◌*◌, ◌<◌, ◌≤◌, ◌≡◌, none, some, List, ◌∷◌, length, drop-all, arith,
}
use advanced_os.MapReduce.Text.{Text, FileSystem, getline}
use advanced_os.MapReduce.Shards.{FileShard, get_split, failed, shard_loop, shard_files}
use advanced_os.MapReduce.Shards.Loop.{loop_fails}
use advanced_os.MapReduce.Shards.Tiles.{start, each_fails, files_fail}

-- Behind the end of a file there is no line to end the shard with.
get_split-end :
    (fs : FileSystem) (f bytes : Text) (offset remain : ℕ)
    → fs f ≡ some bytes
    → length bytes ≤ offset + remain
    → get_split fs f offset remain ≡ none
unfolding get_split getline
get_split-end fs f bytes offset remain e h = ground (arith, e, drop-all (offset + remain) bytes h)

-- A first input file whose size is exactly that of a shard, which is not zero, makes the sharding
-- fail.
pub shard_files-exact_fit :
    (fs : FileSystem) (map_kilobytes : ℕ) (f bytes : Text) (files : List Text)
    (before : List FileShard)
    → fs f ≡ some bytes
    → length bytes ≡ map_kilobytes * 1024
    → 0 < map_kilobytes
    → shard_files fs map_kilobytes (f ∷ files) before ≡ failed
shard_files-exact_fit fs kb f bytes files before e size pos =
    files_fail fs kb (f ∷ files) before
      (each_fails fs (kb * 1024) f files (start kb before) bytes e (loop (length bytes) size))
  where
    loop : (n : ℕ) → n ≡ kb * 1024 → shard_loop n fs (kb * 1024) f 0 n (start kb before) ≡ failed
    loop zero same = absurd (omega arith)
    loop (suc n) same =
        loop_fails fs (kb * 1024) f 0 (start kb before) n (suc n) (omega arith) (omega arith)
          (get_split-end fs f bytes 0 (kb * 1024) e (omega arith))
