-- ===== src/MapReduce/Master/Kept.antt =====
-- No shard of a job is lost before the map jobs are complete.
use advanced_os.Prelude.{
  refl, [], ◌∷◌, ℕ, ◌≡◌, ◌≤◌, Bool, true, false, some, List, length, drop, drop-all, arith,
}
use advanced_os.Prelude.Int.{ℤ}
use advanced_os.MapReduce.Text.{Text}
use advanced_os.MapReduce.Shards.{FileShard}
use advanced_os.MapReduce.Spec.{MapReduceSpec}
use advanced_os.MapReduce.Master.State.{Master, new_master}
use advanced_os.MapReduce.Master.Failures.{handle_worker_failure}
use advanced_os.MapReduce.Master.Responses.{ClientCall, handle_response}
use advanced_os.MapReduce.Master.Jobs.{ReduceJob, check_complete, next_shards, start_reduce}
use advanced_os.MapReduce.Master.Reduce.{
  claim_reduce, claim_reduce_from, send_reduce, send_reduce_to, next_partitions,
}
use advanced_os.MapReduce.Master.Steps.{Phase, Step, Reach}
use advanced_os.MapReduce.Master.Outstanding.{count, outstanding, held}
use advanced_os.MapReduce.Master.Clients.{sum}
use advanced_os.MapReduce.Master.Outstanding

-- the fields that neither a response nor a failure changes
pub record Frame (m m' : Master) : Type 0 where
  pub shards : m'.shards ≡ m.shards
  pub index : m'.index ≡ m.index
  pub map_complete : m'.map_complete ≡ m.map_complete

pub handle_response-Frame : (call : ClientCall) (m : Master) → Frame m (handle_response call m)
unfolding handle_response
handle_response-Frame call m = ground arith

pub handle_worker_failure-Frame :
    (u : Text) (m : Master) {m' : Master} → handle_worker_failure u m ≡ some m' → Frame m m'
unfolding handle_worker_failure
handle_worker_failure-Frame u m h = ground arith

abbrev pub in_map_phase : Phase → Bool
in_map_phase Phase.mapping = true
in_map_phase Phase.map_checked = true
in_map_phase _ = false

claim_reduce_from_complete :
    (queue : List Text) (todo : List ℤ) (m : Master)
    → (claim_reduce_from queue todo m).map_complete ≡ m.map_complete
unfolding claim_reduce_from
claim_reduce_from_complete [] todo m = refl
claim_reduce_from_complete (u ∷ queue) [] m = refl
claim_reduce_from_complete (u ∷ queue) (q ∷ todo) m = ground arith

pub claim_reduce_complete : (m : Master) → (claim_reduce m).map_complete ≡ m.map_complete
unfolding claim_reduce
claim_reduce_complete m = claim_reduce_from_complete m.ready_queue (drop m.index m.partitions) m

pub send_reduce_complete :
    (idx2files : List (ℤ × List Text)) (u : Text) (q : ℤ) (m : Master) {m' : Master}
    {job : Text × ReduceJob}
    → send_reduce idx2files u q m ≡ some (m', job)
    → m'.map_complete ≡ m.map_complete
unfolding send_reduce send_reduce_to
send_reduce_complete idx2files u q m h = ground arith

pub start_reduce_complete :
    (m : Master) {idx2files : List (ℤ × List Text)} {m' : Master}
    → start_reduce m ≡ some (idx2files, m')
    → m'.map_complete ≡ m.map_complete
unfolding start_reduce
start_reduce_complete m h = ground arith

pub next_shards_complete :
    (m : Master) {m' : Master} → next_shards m ≡ (true, m') → m'.map_complete ≡ true
unfolding next_shards
next_shards_complete m h = ground arith

pub next_partitions_complete :
    (m : Master) {m' : Master} {b : Bool}
    → next_partitions m ≡ (b, m')
    → m'.map_complete ≡ m.map_complete
unfolding next_partitions
next_partitions_complete m h = ground arith

pub check_complete-frame :
    (m : Master)
    → ((check_complete m).shards ≡ m.shards)
      × ((check_complete m).index ≡ m.index)
      × (m.map_complete ≡ true → (check_complete m).map_complete ≡ true)
unfolding check_complete
check_complete-frame m = ground arith

module _ (P : FileShard → Bool) (job : List FileShard) where
  pub record Keeps (p : Phase) (m : Master) : Type 0 where
    pub ended : p ≡ Phase.map_checked → length m.shards ≤ m.index
    pub past : in_map_phase p ≡ false → m.map_complete ≡ true
    pub kept : m.map_complete ≡ false → count P job ≤ outstanding P m

  pub Step-Keeps :
      {p p' : Phase} {m m' : Master} {e : ℕ} → Step p m p' m' e → Keeps p m → Keeps p' m'
  Step-Keeps {m} (Step.claim_map a b z c h) k =
      ground (arith, Outstanding.claim_map-outstanding P m)
  Step-Keeps {m} (Step.send_map u shard todo j a b z c d h) k =
      ground (arith, Outstanding.send_map-outstanding P u shard todo m d h)
  Step-Keeps {m} (Step.check_map a b z c l h) k =
      ground (arith, Outstanding.check_complete-outstanding P m, check_complete-frame m)
  Step-Keeps {m} (Step.next_map a b z h) k =
      ground (arith, Outstanding.next_shards-outstanding P m (k.ended a) h)
  Step-Keeps {m} (Step.end_map idx n a b z h g) k =
      ground (arith, next_shards_complete m h, start_reduce_complete n g)
  Step-Keeps {m} (Step.claim_reduce a b z c h) k = ground (arith, claim_reduce_complete m)
  Step-Keeps {m} (Step.send_reduce idx u q todo j a b z c d h) k =
      ground (arith, send_reduce_complete idx u q m h)
  Step-Keeps {m} (Step.check_reduce a b z c l h) k = ground (arith, check_complete-frame m)
  Step-Keeps {m} (Step.next_reduce a b z h) k = ground (arith, next_partitions_complete m h)
  Step-Keeps {m} (Step.end_reduce a b z h) k = ground (arith, next_partitions_complete m h)
  Step-Keeps {m} (Step.respond call b z h) k =
      ground (arith, Outstanding.handle_response-outstanding P call m, handle_response-Frame call m)
  Step-Keeps {m} (Step.fail u b z h) k = ground (
    arith,
    λ (going : m.map_complete ≡ false). Outstanding.handle_worker_failure-outstanding P u m going h,
    handle_worker_failure-Frame u m h,
  )

  start-Keeps : (spec : MapReduceSpec) → Keeps Phase.mapping (new_master spec job)
  unfolding new_master outstanding
  start-Keeps spec = ground arith

  pub Reach-Keeps :
      {spec : MapReduceSpec} {p : Phase} {m : Master} {n : ℕ} → Reach spec job p m n → Keeps p m
  Reach-Keeps {spec} Reach.start = start-Keeps spec
  Reach-Keeps (Reach.next r st) = Step-Keeps st (Reach-Keeps r)

  pub all_held :
      (m : Master)
      → length m.shards ≤ m.index
      → m.map_complete ≡ false
      → (check_complete m).map_complete ≡ true
      → outstanding P m ≡ sum (held P) m.ip_addr2worker
  unfolding check_complete outstanding count
  all_held m ended going done = ground (arith, drop-all m.index m.shards ended)

  -- Before the map jobs are complete, every shard of the job is still to be sent in this round, waits
  -- to be sent again, or has been sent to a worker that is left: for every test of shards, at least
  -- as many pass it there as in the job.
  pub no_shard_lost :
      (spec : MapReduceSpec) (p : Phase) (m : Master) (n : ℕ)
      → Reach spec job p m n
      → m.map_complete ≡ false
      → count P job ≤ outstanding P m
  no_shard_lost spec p m n r going = (Reach-Keeps r).kept going
