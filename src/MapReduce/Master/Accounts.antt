-- ===== src/MapReduce/Master/Accounts.antt =====
-- What the operations of project4/src/master.cc do to the counters of map jobs.
use advanced_os.Prelude.{
  ℕ, ◌+◌, ◌≡◌, refl, sym, Bool, false, Option, none, some, List, [], ◌∷◌, ◌++◌, drop, arith,
  Bool-cases, inl, inr,
}
use advanced_os.MapReduce.Text.{Text}
use advanced_os.MapReduce.Mapper.{MapQuery}
use advanced_os.MapReduce.Shards.{FileShard}
use advanced_os.MapReduce.Master.State.{WorkerClient, Master, find, erase, is_in}
use advanced_os.MapReduce.Master.Failures.{handle_worker_failure, fail_map_worker}
use advanced_os.MapReduce.Master.Responses.{
  ClientCall, handle_response, take_reply, count_error, Reply, map_result, reduce_result,
}
use advanced_os.MapReduce.Master.Jobs.{
  claim_map, claim_map_from, send_map, send_map_to, check_complete, next_shards,
}
use advanced_os.MapReduce.Master.Steps.{map_errors}
use advanced_os.MapReduce.Master.Clients.{sum, sum-put, sum-erase}

-- the map jobs that the workers that are left have completed
unfoldable pub completed_jobs : Master → ℕ
unfolding sum
completed_jobs m = sum (λ c. c.completed_map_jobs) m.ip_addr2worker

-- What a step does to the accounts, where it counts `e` failed map jobs.
pub record Balanced (m m' : Master) (e : ℕ) : Type 0 where
  pub going : m'.map_complete ≡ false → m.map_complete ≡ false
  pub shards : m'.num_shards ≡ m.num_shards
  pub even :
      m.map_complete ≡ false
      → m'.num_map_msgs + m.num_dropped_map_jobs + completed_jobs m + e
        ≡ m.num_map_msgs + m'.num_dropped_map_jobs + completed_jobs m'

send_map_to-Balanced :
    (u : Text) (o : Option WorkerClient) (shard : FileShard) (m : Master) {m' : Master}
    {job : Text × MapQuery}
    → o ≡ find u m.ip_addr2worker
    → send_map_to u o shard m ≡ some (m', job)
    → Balanced m m' 0
unfolding completed_jobs send_map_to
send_map_to-Balanced u none shard m e h = absurd (ground arith)
send_map_to-Balanced u (some c) shard m e h = ground (
  arith,
  sum-put (λ c. c.completed_map_jobs) u c (record c { map_shards = c.map_shards ++ shard ∷ [] })
      m.ip_addr2worker (sym e),
)

claim_map_from-Balanced :
    (queue : List Text) (todo : List FileShard) (m : Master)
    → Balanced m (claim_map_from queue todo m) 0
unfolding completed_jobs claim_map_from
claim_map_from-Balanced [] todo m = ground arith
claim_map_from-Balanced (u ∷ queue) [] m = ground arith
claim_map_from-Balanced (u ∷ queue) (shard ∷ todo) m = ground arith

pub claim_map-Balanced : (m : Master) → Balanced m (claim_map m) 0
unfolding claim_map
claim_map-Balanced m = claim_map_from-Balanced m.ready_queue (drop m.index m.shards) m

pub send_map-Balanced :
    (u : Text) (shard : FileShard) (m : Master) {m' : Master} {job : Text × MapQuery}
    → send_map u shard m ≡ some (m', job)
    → Balanced m m' 0
unfolding send_map
send_map-Balanced u shard m h = send_map_to-Balanced u (find u m.ip_addr2worker) shard m refl h

pub check_complete-Balanced : (m : Master) → Balanced m (check_complete m) 0
unfolding completed_jobs check_complete
check_complete-Balanced m = ground arith

pub next_shards-Balanced :
    (m : Master) {m' : Master} {b : Bool} → next_shards m ≡ (b, m') → Balanced m m' 0
unfolding completed_jobs next_shards
next_shards-Balanced m h = ground arith

abbrev reply_errors : Reply → ℕ
reply_errors (map_result files) = 1
reply_errors (reduce_result file) = 0

count_error-Balanced : (r : Reply) (m : Master) → Balanced m (count_error r m) (reply_errors r)
unfolding completed_jobs count_error
count_error-Balanced (map_result files) m = ground arith
count_error-Balanced (reduce_result file) m = ground arith

take_reply-Balanced :
    (u : Text) (o : Option WorkerClient) (r : Reply) (m : Master)
    → o ≡ find u m.ip_addr2worker
    → Balanced m (take_reply u o r m) 0
unfolding completed_jobs take_reply
take_reply-Balanced u none r m e = ground arith
take_reply-Balanced u (some c) (map_result files) m e = ground (
  arith,
  sum-put (λ c. c.completed_map_jobs) u c
      (record c { completed_map_jobs = c.completed_map_jobs + 1 }) m.ip_addr2worker (sym e),
)
take_reply-Balanced u (some c) (reduce_result file) m e = ground (
  arith,
  sum-put (λ c. c.completed_map_jobs) u c
      (record c { completed_reduce_jobs = c.completed_reduce_jobs + 1 }) m.ip_addr2worker (sym e),
)

pub handle_response-Balanced :
    (call : ClientCall) (m : Master) → Balanced m (handle_response call m) (map_errors call)
unfolding completed_jobs handle_response
handle_response-Balanced call m =
    let u = call.worker_ip_addr in
    let n = record m { ready_queue = m.ready_queue ++ u ∷ []; worker2job = erase u m.worker2job } in
    elim (Bool-cases call.ok) [
      | inr bad ↦ ground (arith, count_error-Balanced call.reply m)
      | inl good ↦ elim (Bool-cases (is_in u m.worker_ips)) [
        | inr gone ↦ ground arith
        | inl there ↦
            ground (arith, take_reply-Balanced u (find u m.ip_addr2worker) call.reply n refl)
      ]
    ]

fail_map_worker-Balanced :
    (u : Text) (o : Option WorkerClient) (m : Master)
    → o ≡ find u m.ip_addr2worker
    → Balanced m (fail_map_worker u o m) 0
unfolding completed_jobs fail_map_worker
fail_map_worker-Balanced u none m e = ground arith
fail_map_worker-Balanced u (some c) m e =
    ground (arith, sum-erase (λ c. c.completed_map_jobs) u c m.ip_addr2worker (sym e))

pub handle_worker_failure-Balanced :
    (u : Text) (m : Master) {m' : Master}
    → m.map_complete ≡ false
    → handle_worker_failure u m ≡ some m'
    → Balanced m m' 0
unfolding handle_worker_failure
handle_worker_failure-Balanced u m going h =
    ground (arith, fail_map_worker-Balanced u (find u m.ip_addr2worker) m refl)
