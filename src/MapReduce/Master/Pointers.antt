-- ===== src/MapReduce/Master/Pointers.antt =====
-- When a null pointer is followed in the loops of run of project4/src/master.cc, which look the client
-- up behind the lock.
use advanced_os.Prelude.{
  ℕ, ◌≡◌, ◌≢◌, ◌⊎◌, inl, inr, ap, ◌∙◌, drop, ◌↔◌, ◌≤◌, false, some, sym, subst, true, ◌||◌, none,
  List, [], ◌∷◌, arith,
}
use advanced_os.Prelude.Int.{ℤ}
use advanced_os.MapReduce.Text.{Text, text_eq_refl}
use advanced_os.MapReduce.Shards.{FileShard}
use advanced_os.MapReduce.Spec.{MapReduceSpec}
use advanced_os.MapReduce.Master.State.{
  WorkerClient, Master, find, put, is_in, new_master, new_client, new_clients,
}
use advanced_os.MapReduce.Master.Jobs.{
  claim_map, claim_map_from, send_map, next_shards, start_reduce,
}
use advanced_os.MapReduce.Master.Reduce.{claim_reduce, claim_reduce_from, send_reduce}
use advanced_os.MapReduce.Master.Steps.{Phase, Step, Reach}
use advanced_os.MapReduce.Master.Entries.{entries, entries-put_le, is_some-entries}
use advanced_os.MapReduce.Master.Clients.{is_some, is_some-put}
use advanced_os.MapReduce.Master.Backing
use advanced_os.MapReduce.Master.Backing.{is_backed, is_claimed, Backed, Grows, Backed-Grows}
use advanced_os.MapReduce.Master.Backing.Answers

end_map_claimed :
    (m o : Master) {m' : Master} {idx2files : List (ℤ × List Text)}
    → next_shards m ≡ (true, o)
    → start_reduce o ≡ some (idx2files, m')
    → m'.claimed ≡ m.claimed
unfolding next_shards start_reduce
end_map_claimed m o h g = ground arith

module _ (u : Text) where
  Step-Grows : {p p' : Phase} {m m' : Master} {e : ℕ} → Step p m p' m' e → (Grows u m m')
  Step-Grows {m} (Step.claim_map a b z c h) =
      subst (Grows u m) (sym h) (Backing.claim_map-Grows u m)
  Step-Grows {m} (Step.send_map v shard todo j a b z c d h) = Backing.send_map-Grows u v shard m h
  Step-Grows {m} {m'} {e} (Step.check_map a b z c l h) =
      subst (Grows u m) (sym h) (Backing.check_complete-Grows u m)
  Step-Grows {m} (Step.next_map a b z h) = Backing.next_shards-Grows u m h
  Step-Grows {m} (Step.end_map idx o a b z h g) = ground (
    arith,
    Backing.next_shards-Grows u m h,
    Backing.start_reduce-Grows u o g,
    end_map_claimed m o h g,
  )
  Step-Grows {m} (Step.claim_reduce a b z c h) =
      subst (Grows u m) (sym h) (Backing.claim_reduce-Grows u m)
  Step-Grows {m} (Step.send_reduce idx v q todo j a b z c d h) =
      Backing.send_reduce-Grows u idx v q m h
  Step-Grows {m} (Step.check_reduce a b z c l h) =
      subst (Grows u m) (sym h) (Backing.check_complete-Grows u m)
  Step-Grows {m} (Step.next_reduce a b z h) = Backing.next_partitions-Grows u m h
  Step-Grows {m} (Step.end_reduce a b z h) = Backing.next_partitions-Grows u m h
  Step-Grows {m} (Step.respond call b z h) =
      subst (Grows u m) (sym h) (Answers.handle_response-Grows u call m)
  Step-Grows {m} (Step.fail v b z h) = Answers.handle_worker_failure-Grows u v m h

  new_clients-keep :
      (us : List Text) (m : List (Text × WorkerClient))
      → (is_in u us || is_some (find u m)) ≡ true
      → is_some (find u (new_clients us m)) ≡ true
  unfolding new_clients is_in
  new_clients-keep [] m h = ground arith
  new_clients-keep (v ∷ us) m h =
      new_clients-keep us (put v new_client m) (ground (arith, is_some-put v u new_client m))

  new_clients-single :
      (us : List Text) (m : List (Text × WorkerClient))
      → entries u m ≤ 1
      → entries u (new_clients us m) ≤ 1
  unfolding new_clients
  new_clients-single [] m h = h
  new_clients-single (v ∷ us) m h =
      new_clients-single us (put v new_client m) (entries-put_le u v new_client m h)

  start-Backed : (spec : MapReduceSpec) (job : List FileShard) → Backed u (new_master spec job)
  unfolding new_master is_backed is_claimed is_in entries
  start-Backed spec job = ground (
    arith,
    new_clients-keep spec.worker_ipaddr_ports [],
    new_clients-single spec.worker_ipaddr_ports [],
  )

  Reach-Backed :
      {spec : MapReduceSpec} {job : List FileShard} {p : Phase} {m : Master} {n : ℕ}
      → Reach spec job p m n
      → Backed u m
  Reach-Backed {spec} {job} Reach.start = start-Backed spec job
  Reach-Backed (Reach.next r st) = Backed-Grows u (Step-Grows st) (Reach-Backed r)

claimed_client :
    (u : Text) (m : Master)
    → Backed u m
    → m.claimed ≡ some u
    → (is_some (find u m.ip_addr2worker) ≡ false) ↔ (is_in u m.dropped_worker_ips ≡ true)
unfolding is_backed is_claimed
claimed_client u m b c = (
  λ h. ground (arith, b.taken, text_eq_refl u),
  λ h. ground (arith, b.gone h, is_some-entries u m.ip_addr2worker),
)

module _ (u : Text) (m : Master) where
  send_map-none :
      (shard : FileShard)
      → (send_map u shard m ≡ none) ↔ (is_some (find u m.ip_addr2worker) ≡ false)
  unfolding send_map is_some
  send_map-none shard = ground arith

  send_reduce-none :
      (idx2files : List (ℤ × List Text)) (q : ℤ)
      → (send_reduce idx2files u q m ≡ none) ↔ (is_some (find u m.ip_addr2worker) ≡ false)
  unfolding send_reduce is_some
  send_reduce-none idx2files q = ground arith

-- In every state that is reached in which a worker has been taken from the queue of ready workers and its
-- job is not yet sent: the loop over the shards and that over the partitions follow a null pointer
-- exactly if the worker has been dropped.
pub null_client_iff :
    (spec : MapReduceSpec) (job : List FileShard) (p : Phase) (m : Master) (n : ℕ) (u : Text)
    (shard : FileShard) (idx2files : List (ℤ × List Text)) (partition : ℤ)
    → Reach spec job p m n
    → m.claimed ≡ some u
    → ((send_map u shard m ≡ none) ↔ (is_in u m.dropped_worker_ips ≡ true))
      × ((send_reduce idx2files u partition m ≡ none) ↔ (is_in u m.dropped_worker_ips ≡ true))
null_client_iff spec job p m n u shard idx2files q r c =
    let (to, from) = claimed_client u m (Reach-Backed u r) c in
    let (map_to, map_from) = send_map-none u m shard in
    let (reduce_to, reduce_from) = send_reduce-none u m idx2files q in
    (
      (λ h. to (map_to h), λ h. map_from (from h)),
      (λ h. to (reduce_to h), λ h. reduce_from (from h)),
    )

claim_map_from_live :
    (queue : List Text) (todo : List FileShard) (m : Master) (u : Text)
    → m.claimed ≡ none
    → (claim_map_from queue todo m).claimed ≡ some u
    → is_in u (claim_map_from queue todo m).dropped_worker_ips ≡ false
unfolding claim_map_from
claim_map_from_live [] todo m u o h = absurd (ground arith)
claim_map_from_live (v ∷ queue) [] m u o h = absurd (ground arith)
claim_map_from_live (v ∷ queue) (shard ∷ todo) m u o h = ground arith

claim_reduce_from_live :
    (queue : List Text) (todo : List ℤ) (m : Master) (u : Text)
    → m.claimed ≡ none
    → (claim_reduce_from queue todo m).claimed ≡ some u
    → is_in u (claim_reduce_from queue todo m).dropped_worker_ips ≡ false
unfolding claim_reduce_from
claim_reduce_from_live [] todo m u o h = absurd (ground arith)
claim_reduce_from_live (v ∷ queue) [] m u o h = absurd (ground arith)
claim_reduce_from_live (v ∷ queue) (q ∷ todo) m u o h = ground arith

-- A worker that is not dropped when it is taken has a client then.
claimed_sends :
    (u : Text) (m : Master) (shard : FileShard) (idx2files : List (ℤ × List Text)) (q : ℤ)
    → Backed u m
    → m.claimed ≡ some u
    → is_in u m.dropped_worker_ips ≡ false
    → (send_map u shard m ≢ none) × (send_reduce idx2files u q m ≢ none)
claimed_sends u m shard idx2files q b c live =
    let (to, from) = claimed_client u m b c in
    (
      λ h. absurd (ground (arith, to ((send_map-none u m shard).0 h))),
      λ h. absurd (ground (arith, to ((send_reduce-none u m idx2files q).0 h))),
    )

-- From every state that is reached in which no worker is taken: where either loop takes a worker from the
-- queue and goes on before anything else happens, it follows no null pointer.
sent_at_once :
    (spec : MapReduceSpec) (job : List FileShard) (p : Phase) (m m' : Master) (n : ℕ) (u : Text)
    (shard : FileShard) (idx2files : List (ℤ × List Text)) (partition : ℤ)
    → Reach spec job p m n
    → m.claimed ≡ none
    → (m' ≡ claim_map m) ⊎ (m' ≡ claim_reduce m)
    → m'.claimed ≡ some u
    → (send_map u shard m' ≢ none) × (send_reduce idx2files u partition m' ≢ none)
unfolding claim_map claim_reduce
sent_at_once spec job p m m' n u shard idx2files q r o (inl e) c =
    let c' = ap (λ (k : Master). k.claimed) (sym e) ∙ c in
    subst (λ k. (send_map u shard k ≢ none) × (send_reduce idx2files u q k ≢ none)) (sym e)
      (claimed_sends u (claim_map m) shard idx2files q
        (Backed-Grows u (Backing.claim_map-Grows u m) (Reach-Backed u r)) c'
        (claim_map_from_live m.ready_queue (drop m.index m.shards) m u o c'))
sent_at_once spec job p m m' n u shard idx2files q r o (inr e) c =
    let c' = ap (λ (k : Master). k.claimed) (sym e) ∙ c in
    subst (λ k. (send_map u shard k ≢ none) × (send_reduce idx2files u q k ≢ none)) (sym e)
      (claimed_sends u (claim_reduce m) shard idx2files q
        (Backed-Grows u (Backing.claim_reduce-Grows u m) (Reach-Backed u r)) c'
        (claim_reduce_from_live m.ready_queue (drop m.index m.partitions) m u o c'))
