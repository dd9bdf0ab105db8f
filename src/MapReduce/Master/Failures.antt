-- ===== src/MapReduce/Master/Failures.antt =====
-- handle_worker_failure and a round of monitor of project4/src/master.cc.
use advanced_os.Prelude.{
  ℕ, ◌+◌, ◌-◌, Bool, Option, none, some, List, [], ◌∷◌, ◌++◌, ltb, if◌then◌else◌, drop, ◌>>=◌,
}
use advanced_os.Prelude.Int.{ℤ, pos, negsuc}
use advanced_os.MapReduce.Text.{Text, to_string, find_first, contains}
use advanced_os.MapReduce.Master.State.{WorkerClient, Master, find, erase, erase_first}

-- the lambda `remove_worker_ip`
unfoldable pub remove_worker_ip : Text → Master → Master
unfolding erase erase_first
remove_worker_ip worker_ip m = record m {
  worker2job = erase worker_ip m.worker2job;
  ip_addr2worker = erase worker_ip m.ip_addr2worker;
  worker_ips = erase_first worker_ip m.worker_ips;
  dropped_worker_ips = m.dropped_worker_ips ++ worker_ip ∷ [];
}

-- `substr(find_first_of(":") + 1)`; npos + 1 is 0
unfoldable pub port_of : Text → Option ℕ → Text
port_of worker_ip none = worker_ip
port_of worker_ip (some i) = drop (i + 1) worker_ip

-- The loop over the intermediate files, which ends at the first that has the text in its name: the
-- files that are left, and those removed.
unfoldable pub remove_intermediate : Text → List Text → List Text × List Text
unfolding contains
remove_intermediate base [] = ([], [])
remove_intermediate base (f ∷ files) =
    let (left, removed) = remove_intermediate base files in
    if contains base f then (files, f ∷ []) else (f ∷ left, removed)

unfoldable pub drop_worker : Master → Master
drop_worker m = record m {
  num_workers = m.num_workers - 1;
  num_dropped_workers = m.num_dropped_workers + 1;
}

-- The branch where the map jobs are not complete.
unfoldable pub fail_map_worker : Text → Option WorkerClient → Master → Master
unfolding remove_worker_ip port_of remove_intermediate drop_worker find_first
fail_map_worker worker_ip none m = m
fail_map_worker worker_ip (some client) m =
    let (left, removed) =
      remove_intermediate (port_of worker_ip (find_first b':' worker_ip)) m.intermediate_files in
    drop_worker (
      remove_worker_ip worker_ip (record m {
        unfinished_shards = m.unfinished_shards ++ client.map_shards;
        num_dropped_map_jobs = m.num_dropped_map_jobs + client.completed_map_jobs;
        intermediate_files = left;
        removed = m.removed ++ removed;
      }))

-- `std::to_string` of an int
abbrev pub int_text : ℤ → Text
int_text (pos n) = to_string n
int_text (negsuc n) = b'-' ∷ to_string (n + 1)

unfoldable pub output_names : Text → List ℤ → List Text
output_names dir [] = []
output_names dir (p ∷ ps) = (dir ++ (b'/' ∷ int_text p)) ∷ output_names dir ps

-- The branch where they are, `none` where a null pointer is followed.
unfoldable pub fail_reduce_worker : Text → Option WorkerClient → Master → Option Master
unfolding remove_worker_ip output_names drop_worker
fail_reduce_worker worker_ip none m = none
fail_reduce_worker worker_ip (some client) m = some (
    drop_worker (
      remove_worker_ip worker_ip (record m {
        unfinished_partitions = m.unfinished_partitions ++ client.reduce_partitions;
        num_dropped_reduce_jobs = m.num_dropped_reduce_jobs + client.completed_reduce_jobs;
        removed = m.removed ++ output_names m.output_dir client.reduce_partitions;
      })))

unfoldable pub handle_worker_failure : Text → Master → Option Master
unfolding fail_map_worker fail_reduce_worker find
handle_worker_failure worker_ip m =
    let client = find worker_ip m.ip_addr2worker in
    if m.map_complete
    then fail_reduce_worker worker_ip client m
    else some (fail_map_worker worker_ip client m)

-- an answer to a ping: the worker, and whether the call failed
pub record Pong : Type 0 where
  pub worker_ip : Text
  pub error_msg : Bool

-- The second loop of a round of `monitor`, over the answers in the order in which they come, from
-- the loop's variable: the state, and the answers that are not read in this round.
unfoldable pub receive_pongs : ℕ → List Pong → Master → Option (Master × List Pong)
unfolding handle_worker_failure
receive_pongs i [] m = some (m, [])
receive_pongs i (p ∷ ps) m =
    if ltb i m.num_workers
    then ((if p.error_msg then handle_worker_failure p.worker_ip m else some m)
        >>= receive_pongs (i + 1) ps)
    else some (m, p ∷ ps)
