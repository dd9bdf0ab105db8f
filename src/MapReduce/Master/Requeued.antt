-- ===== src/MapReduce/Master/Requeued.antt =====
-- What the operations of project4/src/master.cc do to the partitions that wait to be sent again.
use advanced_os.Prelude.{
  ℕ, ◌+◌, ◌≡◌, ◌≤◌, refl, sym, Bool, Option, none, some, List, [], ◌∷◌, ◌++◌, length, length-append,
  drop, arith, Bool-cases, inl, inr,
}
use advanced_os.Prelude.Int.{ℤ}
use advanced_os.MapReduce.Text.{Text}
use advanced_os.MapReduce.Mapper.{MapQuery}
use advanced_os.MapReduce.Shards.{FileShard}
use advanced_os.MapReduce.Master.State.{WorkerClient, Master, find, erase, is_in}
use advanced_os.MapReduce.Master.Failures.{fail_map_worker, fail_reduce_worker}
use advanced_os.MapReduce.Master.Responses.{
  ClientCall, handle_response, take_reply, count_error, Reply, map_result, reduce_result,
}
use advanced_os.MapReduce.Master.Jobs.{
  ReduceJob, claim_map, claim_map_from, send_map, send_map_to, check_complete, next_shards,
  start_reduce,
}
use advanced_os.MapReduce.Master.Reduce.{
  claim_reduce, claim_reduce_from, send_reduce, send_reduce_to, next_partitions,
}
use advanced_os.MapReduce.Master.Clients.{sum, sum-put, sum-erase}

-- the partitions that the clients hold, and those that wait to be sent again
unfoldable pub requeued : Master → ℕ
unfolding sum
requeued m = sum (λ c. length c.reduce_partitions) m.ip_addr2worker + length m.unfinished_partitions

abbrev held_partitions : WorkerClient → ℕ
held_partitions c = length c.reduce_partitions

send_map_to-requeued :
    (v : Text) (o : Option WorkerClient) (shard : FileShard) (m : Master) {m' : Master}
    {job : Text × MapQuery}
    → o ≡ find v m.ip_addr2worker
    → send_map_to v o shard m ≡ some (m', job)
    → requeued m' ≡ requeued m
unfolding send_map_to requeued
send_map_to-requeued v none shard m e h = absurd (ground arith)
send_map_to-requeued v (some c) shard m e h = ground (
  arith,
  sum-put held_partitions v c (record c { map_shards = c.map_shards ++ shard ∷ [] })
      m.ip_addr2worker (sym e),
)

send_reduce_to-requeued :
    (idx : List (ℤ × List Text)) (v : Text) (o : Option WorkerClient) (q : ℤ) (m : Master)
    {m' : Master} {job : Text × ReduceJob}
    → o ≡ find v m.ip_addr2worker
    → send_reduce_to idx v o q m ≡ some (m', job)
    → requeued m' ≡ requeued m
unfolding send_reduce_to requeued
send_reduce_to-requeued idx v none q m e h = absurd (ground arith)
send_reduce_to-requeued idx v (some c) q m e h =
    ground (arith, sum-put held_partitions v c c m.ip_addr2worker (sym e))

pub rounds-requeued :
    (m : Master) {m' : Master} {b : Bool}
    → (next_shards m ≡ (b, m') → requeued m' ≡ requeued m)
      × (next_partitions m ≡ (b, m') → requeued m' ≤ requeued m)
unfolding next_shards next_partitions requeued
rounds-requeued m = (λ h. ground arith, λ h. ground arith)

claim_map_from-requeued :
    (queue : List Text) (todo : List FileShard) (m : Master)
    → requeued (claim_map_from queue todo m) ≡ requeued m
unfolding claim_map_from requeued
claim_map_from-requeued [] todo m = refl
claim_map_from-requeued (v ∷ queue) [] m = refl
claim_map_from-requeued (v ∷ queue) (shard ∷ todo) m = ground arith

claim_reduce_from-requeued :
    (queue : List Text) (todo : List ℤ) (m : Master)
    → requeued (claim_reduce_from queue todo m) ≡ requeued m
unfolding claim_reduce_from requeued
claim_reduce_from-requeued [] todo m = refl
claim_reduce_from-requeued (v ∷ queue) [] m = refl
claim_reduce_from-requeued (v ∷ queue) (q ∷ todo) m = ground arith

pub claims-requeued :
    (m : Master) → (requeued (claim_map m) ≡ requeued m) × (requeued (claim_reduce m) ≡ requeued m)
unfolding claim_map claim_reduce
claims-requeued m = (
  claim_map_from-requeued m.ready_queue (drop m.index m.shards) m,
  claim_reduce_from-requeued m.ready_queue (drop m.index m.partitions) m,
)

pub send_map-requeued :
    (v : Text) (shard : FileShard) (m : Master) {m' : Master} {job : Text × MapQuery}
    → send_map v shard m ≡ some (m', job)
    → requeued m' ≡ requeued m
unfolding send_map
send_map-requeued v shard m h = send_map_to-requeued v (find v m.ip_addr2worker) shard m refl h

pub send_reduce-requeued :
    (idx : List (ℤ × List Text)) (v : Text) (q : ℤ) (m : Master) {m' : Master}
    {job : Text × ReduceJob}
    → send_reduce idx v q m ≡ some (m', job)
    → requeued m' ≡ requeued m
unfolding send_reduce
send_reduce-requeued idx v q m h =
    send_reduce_to-requeued idx v (find v m.ip_addr2worker) q m refl h

pub check_complete-requeued : (m : Master) → requeued (check_complete m) ≡ requeued m
unfolding check_complete requeued
check_complete-requeued m = ground arith

pub start_reduce-requeued :
    (m : Master) {idx2files : List (ℤ × List Text)} {m' : Master}
    → start_reduce m ≡ some (idx2files, m')
    → requeued m' ≡ requeued m
unfolding start_reduce requeued
start_reduce-requeued m h = ground arith

take_reply-requeued :
    (v : Text) (o : Option WorkerClient) (r : Reply) (m : Master)
    → o ≡ find v m.ip_addr2worker
    → requeued (take_reply v o r m) ≡ requeued m
unfolding take_reply requeued
take_reply-requeued v none r m e = refl
take_reply-requeued v (some c) (map_result files) m e = ground (
  arith,
  sum-put held_partitions v c (record c { completed_map_jobs = c.completed_map_jobs + 1 })
      m.ip_addr2worker (sym e),
)
take_reply-requeued v (some c) (reduce_result file) m e = ground (
  arith,
  sum-put held_partitions v c (record c { completed_reduce_jobs = c.completed_reduce_jobs + 1 })
      m.ip_addr2worker (sym e),
)

count_error-requeued : (r : Reply) (m : Master) → requeued (count_error r m) ≡ requeued m
unfolding count_error requeued
count_error-requeued (map_result files) m = refl
count_error-requeued (reduce_result file) m = refl

pub handle_response-requeued :
    (call : ClientCall) (m : Master) → requeued (handle_response call m) ≡ requeued m
unfolding handle_response requeued
handle_response-requeued call m =
    let v = call.worker_ip_addr in
    let n = record m { ready_queue = m.ready_queue ++ v ∷ []; worker2job = erase v m.worker2job } in
    elim (Bool-cases call.ok) [
      | inr bad ↦ rw bad (count_error-requeued call.reply m)
      | inl good ↦ elim (Bool-cases (is_in v m.worker_ips)) [
        | inr gone ↦ ground arith
        | inl there ↦
            rw (good, there) (take_reply-requeued v (find v m.ip_addr2worker) call.reply n refl)
      ]
    ]

pub fail_map_worker-requeued :
    (v : Text) (o : Option WorkerClient) (m : Master)
    → o ≡ find v m.ip_addr2worker
    → requeued (fail_map_worker v o m) ≤ requeued m
unfolding fail_map_worker requeued
fail_map_worker-requeued v none m e = omega arith
fail_map_worker-requeued v (some c) m e =
    ground (arith, sum-erase held_partitions v c m.ip_addr2worker (sym e))

pub fail_reduce_worker-requeued :
    (v : Text) (o : Option WorkerClient) (m : Master) {m' : Master}
    → o ≡ find v m.ip_addr2worker
    → fail_reduce_worker v o m ≡ some m'
    → requeued m' ≡ requeued m
unfolding fail_reduce_worker requeued
fail_reduce_worker-requeued v none m e h = absurd (ground arith)
fail_reduce_worker-requeued v (some c) m e h = ground (
  arith,
  length-append m.unfinished_partitions c.reduce_partitions,
  sum-erase held_partitions v c m.ip_addr2worker (sym e),
)
