-- ===== src/MapReduce/Master/Partitions.antt =====
-- No partition is queued again by project4/src/master.cc.
use advanced_os.Prelude.{ℕ, ◌≡◌, ◌≤◌, refl, false, some, List, [], ◌∷◌, length, arith}
use advanced_os.MapReduce.Text.{Text}
use advanced_os.MapReduce.Shards.{FileShard}
use advanced_os.MapReduce.Spec.{MapReduceSpec}
use advanced_os.MapReduce.Master.State.{
  WorkerClient, Master, find, put, new_master, new_client, new_clients,
}
use advanced_os.MapReduce.Master.Failures.{handle_worker_failure, fail_reduce_worker}
use advanced_os.MapReduce.Master.Reduce.{next_partitions}
use advanced_os.MapReduce.Master.Steps.{Phase, Step, Reach}
use advanced_os.MapReduce.Master.Clients.{sum, sum-put-le}
use advanced_os.MapReduce.Master.Requeued.{requeued}
use advanced_os.MapReduce.Master.Requeued

fail_requeued :
    (u : Text) (m : Master) {m' : Master}
    → handle_worker_failure u m ≡ some m'
    → requeued m' ≤ requeued m
unfolding handle_worker_failure
fail_requeued u m {m'} h = ground (
  arith,
  Requeued.fail_map_worker-requeued u (find u m.ip_addr2worker) m refl,
  λ (s : fail_reduce_worker u (find u m.ip_addr2worker) m ≡ some m').
      Requeued.fail_reduce_worker-requeued u (find u m.ip_addr2worker) m refl s,
)

Step-requeued : {p p' : Phase} {m m' : Master} {e : ℕ} → Step p m p' m' e → requeued m' ≤ requeued m
Step-requeued {m} (Step.claim_map a b z c h) = ground (arith, Requeued.claims-requeued m)
Step-requeued {m} (Step.send_map u shard todo j a b z c d h) =
    omega (arith, Requeued.send_map-requeued u shard m h)
Step-requeued {m} (Step.check_map a b z c l h) = ground (arith, Requeued.check_complete-requeued m)
Step-requeued {m} (Step.next_map a b z h) = omega (arith, (Requeued.rounds-requeued m).0 h)
Step-requeued {m} (Step.end_map idx o a b z h g) =
    omega (arith, (Requeued.rounds-requeued m).0 h, Requeued.start_reduce-requeued o g)
Step-requeued {m} (Step.claim_reduce a b z c h) = ground (arith, Requeued.claims-requeued m)
Step-requeued {m} (Step.send_reduce idx u q todo j a b z c d h) =
    omega (arith, Requeued.send_reduce-requeued idx u q m h)
Step-requeued {m} (Step.check_reduce a b z c l h) =
    ground (arith, Requeued.check_complete-requeued m)
Step-requeued {m} (Step.next_reduce a b z h) = omega (arith, (Requeued.rounds-requeued m).1 h)
Step-requeued {m} (Step.end_reduce a b z h) = omega (arith, (Requeued.rounds-requeued m).1 h)
Step-requeued {m} (Step.respond call b z h) =
    ground (arith, Requeued.handle_response-requeued call m)
Step-requeued {m} (Step.fail u b z h) = fail_requeued u m h

new_clients-none :
    (us : List Text) (m : List (Text × WorkerClient))
    → sum (λ c. length c.reduce_partitions) m ≡ 0
    → sum (λ c. length c.reduce_partitions) (new_clients us m) ≡ 0
unfolding new_clients new_client
new_clients-none [] m h = h
new_clients-none (u ∷ us) m h =
    new_clients-none us (put u new_client m)
      (ground (arith, sum-put-le (λ c. length c.reduce_partitions) u new_client m))

start-requeued : (spec : MapReduceSpec) (job : List FileShard) → requeued (new_master spec job) ≡ 0
unfolding new_master requeued
start-requeued spec job = ground (arith, new_clients-none spec.worker_ipaddr_ports [] refl)

Reach-requeued :
    {spec : MapReduceSpec} {job : List FileShard} {p : Phase} {m : Master} {n : ℕ}
    → Reach spec job p m n
    → requeued m ≡ 0
Reach-requeued {spec} {job} Reach.start = start-requeued spec job
Reach-requeued (Reach.next r st) = omega (arith, Step-requeued st, Reach-requeued r)

nil_of_length : {A : Type 0} (l : List A) → length l ≡ 0 → l ≡ []
nil_of_length [] h = refl
nil_of_length (x ∷ l) h = absurd (omega arith)

unfinished-nil : (m : Master) → requeued m ≡ 0 → m.unfinished_partitions ≡ []
unfolding requeued
unfinished-nil m h = nil_of_length m.unfinished_partitions (omega arith)

-- In every state that is reached, whatever workers have failed, no partition waits to be sent again,
-- and a further round over the partitions is over the same ones as the last.
pub no_partition_requeued :
    (spec : MapReduceSpec) (job : List FileShard) (p : Phase) (m m' : Master) (n : ℕ)
    → Reach spec job p m n
    → next_partitions m ≡ (false, m')
    → (m.unfinished_partitions ≡ []) × (m'.partitions ≡ m.partitions)
unfolding next_partitions
no_partition_requeued spec job p m m' n r h = ground (arith, unfinished-nil m (Reach-requeued r))
