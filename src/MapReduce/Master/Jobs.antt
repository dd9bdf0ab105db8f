-- ===== src/MapReduce/Master/Jobs.antt =====
-- The loops of run and schedule_monitor of project4/src/master.cc, and the jobs that worker_client.cc
-- sends.
use advanced_os.Prelude.{
  ℕ, ◌+◌, ◌-◌, Bool, true, false, not, ◌&&◌, Option, none, some, ◌>>=◌, List, [], ◌∷◌, ◌++◌, leb,
  ◌==◌, if◌then◌else◌, length, take, drop,
}
use advanced_os.Prelude.Int.{ℤ, pos, negsuc}
use advanced_os.MapReduce.Text.{Text, find_first}
use advanced_os.MapReduce.Shards.{FileShard}
use advanced_os.MapReduce.Spec.{stoi, is_empty}
use advanced_os.MapReduce.Mapper.{FilePartition, MapQuery}
use advanced_os.MapReduce.Master.State.{WorkerClient, Master, find, put, is_in}

-- the pieces of a shard in a query; a shard has an offset for each file
unfoldable pub shard_partitions : List Text → List (ℕ × ℕ) → List FilePartition
shard_partitions [] os = []
shard_partitions (f ∷ fs) [] = []
shard_partitions (f ∷ fs) ((s, e) ∷ os) =
    record { filename = f; start = s; end = e } ∷ shard_partitions fs os

-- `send_mapper_job`: the query that is sent, and the client
unfoldable pub send_mapper_job : ℕ → FileShard → WorkerClient → MapQuery × WorkerClient
unfolding shard_partitions
send_mapper_job n_partitions shard client = (
  record { n_partitions = n_partitions; partitions = shard_partitions shard.files shard.offsets },
  record client { map_shards = client.map_shards ++ shard ∷ [] },
)

pub record ReduceJob : Type 0 where
  pub partition_id : ℤ
  pub dir : Text
  pub files : List Text

-- `send_reducer_job`, which leaves the client as it is
unfoldable pub send_reducer_job : ℤ → Text → List Text → WorkerClient → ReduceJob × WorkerClient
send_reducer_job partition_id output_dir files client =
    (record { partition_id = partition_id; dir = output_dir; files = files }, client)

-- The part under the lock of the loop over the shards, where a worker is ready. A worker that has been
-- dropped is passed over, and the shard is tried again.
unfoldable pub claim_map_from : List Text → List FileShard → Master → Master
unfolding is_in put
claim_map_from [] todo m = m
claim_map_from (u ∷ queue) [] m = m
claim_map_from (u ∷ queue) (shard ∷ todo) m =
    if is_in u m.dropped_worker_ips then record m { ready_queue = queue } else record m {
      ready_queue = queue;
      worker2job = put u (pos m.index) m.worker2job;
      claimed = some u;
    }

unfoldable pub claim_map : Master → Master
unfolding claim_map_from
claim_map m = claim_map_from m.ready_queue (drop m.index m.shards) m

-- The part behind the lock, with the client that is found: `none` where a null pointer is followed.
unfoldable pub send_map_to :
    Text → Option WorkerClient → FileShard → Master → Option (Master × (Text × MapQuery))
unfolding put send_mapper_job
send_map_to u none shard m = none
send_map_to u (some client) shard m =
    let (query, client') = send_mapper_job m.num_partitions shard client in
    some (
      record m {
        ip_addr2worker = put u client' m.ip_addr2worker;
        index = m.index + 1;
        claimed = none;
      },
      (u, query),
    )

unfoldable pub send_map : Text → FileShard → Master → Option (Master × (Text × MapQuery))
unfolding send_map_to find
send_map u shard m = send_map_to u (find u m.ip_addr2worker) shard m

-- The last block of `schedule_monitor`.
unfoldable pub check_complete : Master → Master
check_complete m =
    let map_done =
      is_empty m.unfinished_shards && (m.num_map_msgs == m.num_shards + m.num_dropped_map_jobs) in
    let reduce_done =
      is_empty m.unfinished_partitions && (length m.output_files == m.num_partitions) in
    if not m.map_complete
    then record m {
      map_complete = if map_done then true else m.map_complete;
      num_dropped_workers = 0;
    }
    else if not m.reduce_complete
    then record m {
      reduce_complete = if reduce_done then true else m.reduce_complete;
      num_dropped_workers = 0;
    }
    else record m { num_dropped_workers = 0 }

-- The end of a round over the shards: whether all are complete, and the state of the next round.
unfoldable pub next_shards : Master → Bool × Master
next_shards m =
    if is_empty m.unfinished_shards
    then (if m.map_complete
        then (true, record m { shards = []; index = 0 })
        else (false, record m { index = 0 }))
    else (false, record m { shards = m.unfinished_shards; unfinished_shards = []; index = 0 })

-- The number in the name of an intermediate file. The positions are ints, for which npos + 1 is 0 and
-- npos is -1; a negative length means the rest of the text.
unfoldable pub index_text : Text → Option ℕ → Option ℕ → Text
index_text f none none = f
index_text f none (some end) = take end f
index_text f (some slash) none = drop (slash + 1) f
index_text f (some slash) (some end) =
    let rest = drop (slash + 1) f in
    if leb (slash + 1) end then take (end - (slash + 1)) rest else rest

unfoldable pub file_index : Text → Option ℤ
unfolding index_text find_first stoi
file_index f = stoi (index_text f (find_first b'/' f) (find_first b'_' f))

-- `==` of ints
unfoldable pub int_eq : ℤ → ℤ → Bool
int_eq (pos a) (pos b) = a == b
int_eq (negsuc a) (negsuc b) = a == b
int_eq _ _ = false

-- `idx2files[idx].push_back(f)`; the order of an `unordered_map` is left open, here it is that of
-- insertion
unfoldable pub push_file : ℤ → Text → List (ℤ × List Text) → List (ℤ × List Text)
unfolding int_eq
push_file idx f [] = (idx, f ∷ []) ∷ []
push_file idx f ((j, fs) ∷ m) =
    let rest = push_file idx f m in if int_eq j idx then (j, fs ++ f ∷ []) ∷ m else (j, fs) ∷ rest

-- `none` where `std::stoi` throws
unfoldable pub group_files : List Text → List (ℤ × List Text) → Option (List (ℤ × List Text))
unfolding file_index push_file
group_files [] m = some m
group_files (f ∷ fs) m = file_index f >>= λ idx. group_files fs (push_file idx f m)

abbrev pub keys : List (ℤ × List Text) → List ℤ
keys [] = []
keys ((i, fs) ∷ m) = i ∷ keys m

-- What `run` does between the map and the reduce jobs.
unfoldable pub start_reduce : Master → Option (List (ℤ × List Text) × Master)
unfolding group_files
start_reduce m = group_files m.intermediate_files [] >>= λ idx2files.
    some (idx2files, record m { partitions = m.partitions ++ keys idx2files })
