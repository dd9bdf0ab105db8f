-- ===== src/MapReduce/Master/Completion.antt =====
-- When schedule_monitor of project4/src/master.cc finds the map jobs complete.
use advanced_os.Prelude.{ℕ, ◌+◌, ◌≡◌, ◌≤◌, refl, Bool, true, false, List, [], ◌∷◌, length, arith}
use advanced_os.MapReduce.Text.{Text}
use advanced_os.MapReduce.Shards.{FileShard}
use advanced_os.MapReduce.Spec.{MapReduceSpec}
use advanced_os.MapReduce.Master.State.{
  WorkerClient, Master, put, new_master, new_client, new_clients,
}
use advanced_os.MapReduce.Master.Jobs.{check_complete}
use advanced_os.MapReduce.Master.Steps.{Phase, Step, Reach}
use advanced_os.MapReduce.Master.Outstanding.{count, held}
use advanced_os.MapReduce.Master.Clients.{sum, sum-put-le}
use advanced_os.MapReduce.Master.Kept.{
  Keeps, handle_worker_failure-Frame, Reach-Keeps, all_held, claim_reduce_complete,
  send_reduce_complete, start_reduce_complete, next_shards_complete, next_partitions_complete,
}
use advanced_os.MapReduce.Master.Accounts.{
  completed_jobs, claim_map-Balanced, send_map-Balanced, check_complete-Balanced,
  next_shards-Balanced, handle_response-Balanced, handle_worker_failure-Balanced,
}

-- Where the counts stand before the map jobs are complete, behind `n` failed map jobs.
record Counted (num_shards : ℕ) (m : Master) (n : ℕ) : Type 0 where
  shards : m.map_complete ≡ false → m.num_shards ≡ num_shards
  even : m.map_complete ≡ false → m.num_map_msgs + n ≡ m.num_dropped_map_jobs + completed_jobs m

module _ (job : List FileShard) where
  Step-Counted :
      {p p' : Phase} {m m' : Master} {n e : ℕ}
      → Step p m p' m' e
      → Keeps (λ _. true) job p m
      → Counted (length job) m n
      → Counted (length job) m' (n + e)
  Step-Counted {m} (Step.claim_map a b z o h) k c = ground (arith, claim_map-Balanced m)
  Step-Counted {m} (Step.send_map u shard todo j a b z o d h) k c =
      ground (arith, send_map-Balanced u shard m h)
  Step-Counted {m} (Step.check_map a b z o l h) k c = ground (arith, check_complete-Balanced m)
  Step-Counted {m} (Step.next_map a b z h) k c = ground (arith, next_shards-Balanced m h)
  Step-Counted {m} (Step.end_map idx o a b z h g) k c =
      ground (arith, next_shards_complete m h, start_reduce_complete o g)
  Step-Counted {m} (Step.claim_reduce a b z o h) k c = ground (arith, claim_reduce_complete m)
  Step-Counted {m} (Step.send_reduce idx u q todo j a b z o d h) k c =
      ground (arith, send_reduce_complete idx u q m h)
  Step-Counted {m} (Step.check_reduce a b z o l h) k c = ground (arith, check_complete-Balanced m)
  Step-Counted {m} (Step.next_reduce a b z h) k c = ground (arith, next_partitions_complete m h)
  Step-Counted {m} (Step.end_reduce a b z h) k c = ground (arith, next_partitions_complete m h)
  Step-Counted {m} (Step.respond call b z h) k c = ground (arith, handle_response-Balanced call m)
  Step-Counted {m} (Step.fail u b z h) k c = ground (
    arith,
    handle_worker_failure-Frame u m h,
    λ (going : m.map_complete ≡ false). handle_worker_failure-Balanced u m going h,
  )

  new_clients-idle :
      (us : List Text) (m : List (Text × WorkerClient))
      → sum (λ c. c.completed_map_jobs) m ≡ 0
      → sum (λ c. c.completed_map_jobs) (new_clients us m) ≡ 0
  unfolding new_clients new_client
  new_clients-idle [] m h = h
  new_clients-idle (u ∷ us) m h =
      new_clients-idle us (put u new_client m)
        (ground (arith, sum-put-le (λ c. c.completed_map_jobs) u new_client m))

  start-Counted : (spec : MapReduceSpec) → Counted (length job) (new_master spec job) 0
  unfolding new_master completed_jobs sum
  start-Counted spec = ground (arith, new_clients-idle spec.worker_ipaddr_ports [] refl)

  Reach-Counted :
      {spec : MapReduceSpec} {p : Phase} {m : Master} {n : ℕ}
      → Reach spec job p m n
      → Counted (length job) m n
  Reach-Counted {spec} Reach.start = start-Counted spec
  Reach-Counted (Reach.next r st) =
      Step-Counted st (Reach-Keeps (λ _. true) job r) (Reach-Counted r)

  check_complete-sums :
      (m : Master) (n : ℕ)
      → Counted (length job) m n
      → m.map_complete ≡ false
      → (check_complete m).map_complete ≡ true
      → completed_jobs m ≡ length job + n
  unfolding check_complete
  check_complete-sums m n c going done = ground (arith, c.even going, c.shards going)

  -- Where the check at the end of a round finds the map jobs complete, the workers that are left have
  -- been sent every shard of the job (for every test, at least as many shards pass it there as in the
  -- job), and have completed exactly as many map jobs as the job has shards, and one more for each map
  -- job that has failed.
  pub map_completed :
      (spec : MapReduceSpec) (p : Phase) (m : Master) (n : ℕ) (P : FileShard → Bool)
      → Reach spec job p m n
      → length m.shards ≤ m.index
      → m.map_complete ≡ false
      → (check_complete m).map_complete ≡ true
      → (count P job ≤ sum (held P) m.ip_addr2worker) × (completed_jobs m ≡ length job + n)
  map_completed spec p m n P r ended going done = (
    omega (arith, all_held P job m ended going done, (Reach-Keeps P job r).kept going),
    check_complete-sums m n (Reach-Counted r) going done,
  )
