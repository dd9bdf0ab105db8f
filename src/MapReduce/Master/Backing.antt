-- ===== src/MapReduce/Master/Backing.antt =====
-- Which operations of project4/src/master.cc keep the clients of the workers that jobs are sent to.
pub mod Answers
use advanced_os.Prelude.{
  ℕ, zero, suc, ◌+◌, ◌≡◌, ◌≢◌, ◌≤◌, refl, sym, ap, ◌∙◌, Bool, true, false, ◌||◌, Option, none, some,
  List, [], ◌∷◌, ◌++◌, if◌then◌else◌, drop, arith, Bool-cases, inl, inr,
}
use advanced_os.Prelude.Int.{ℤ, pos}
use advanced_os.MapReduce.Text.{Text, text_eq, text_eq_iff}
use advanced_os.MapReduce.Mapper.{MapQuery}
use advanced_os.MapReduce.Shards.{FileShard}
use advanced_os.MapReduce.Spec.{MapReduceSpec}
use advanced_os.MapReduce.Master.State.{
  WorkerClient, Master, find, put, erase, is_in, erase_first, new_master, new_client, new_clients,
}
use advanced_os.MapReduce.Master.Failures.{
  handle_worker_failure, fail_map_worker, fail_reduce_worker,
}
use advanced_os.MapReduce.Master.Responses.{
  ClientCall, handle_response, take_reply, count_error, Reply, map_result, reduce_result,
}
use advanced_os.MapReduce.Master.Jobs.{
  ReduceJob, claim_map, claim_map_from, send_map, send_map_to, check_complete, next_shards,
  start_reduce,
}
use advanced_os.MapReduce.Master.Reduce.{
  claim_reduce, claim_reduce_from, send_reduce, send_reduce_to, next_partitions,
}
use advanced_os.MapReduce.Master.Steps.{Phase, Step, Reach}
use advanced_os.MapReduce.Master.Entries.{entries, entries-put}
use advanced_os.MapReduce.Master.Clients.{is_some, is_some-put, is_some-erase, is_in-append}

module _ (u : Text) where
  -- an address with a client, or one that has been dropped
  unfoldable pub is_backed : Master → Bool
  unfolding is_some is_in find
  is_backed m = is_some (find u m.ip_addr2worker) || is_in u m.dropped_worker_ips

  unfoldable pub is_claimed : Option Text → Bool
  is_claimed none = false
  is_claimed (some v) = text_eq v u

  -- An address that is dropped has no client; any other that is listed, ready or claimed has one.
  pub record Backed (m : Master) : Type 0 where
    pub listed : is_in u m.worker_ips ≡ true → is_backed m ≡ true
    pub ready : is_in u m.ready_queue ≡ true → is_backed m ≡ true
    pub taken : is_claimed m.claimed ≡ true → is_backed m ≡ true
    pub single : entries u m.ip_addr2worker ≤ 1
    pub gone : is_in u m.dropped_worker_ips ≡ true → entries u m.ip_addr2worker ≡ 0

  -- A change of the state that forgets no client but one that it drops, and adds no address.
  pub record Grows (m m' : Master) : Type 0 where
    pub backed : is_backed m ≡ true → is_backed m' ≡ true
    pub listed : is_in u m'.worker_ips ≡ true → is_in u m.worker_ips ≡ true
    pub ready : is_in u m'.ready_queue ≡ true → is_in u m.ready_queue || is_in u m.worker_ips ≡ true
    pub taken : is_claimed m'.claimed ≡ true → is_claimed m.claimed || is_in u m.ready_queue ≡ true
    pub fewer : entries u m'.ip_addr2worker ≤ entries u m.ip_addr2worker
    pub parted :
        is_in u m'.dropped_worker_ips ≡ true
        → is_in u m.dropped_worker_ips ≡ false
        → entries u m'.ip_addr2worker + 1 ≤ entries u m.ip_addr2worker

  pub Backed-Grows : {m m' : Master} → Grows m m' → Backed m → Backed m'
  Backed-Grows g b = ground arith

  send_map_to-Grows :
      (v : Text) (o : Option WorkerClient) (shard : FileShard) (m : Master) {m' : Master}
      {job : Text × MapQuery}
      → o ≡ find v m.ip_addr2worker
      → send_map_to v o shard m ≡ some (m', job)
      → Grows m m'
  unfolding send_map_to is_backed is_claimed
  send_map_to-Grows v none shard m e h = absurd (ground arith)
  send_map_to-Grows v (some c) shard m e h =
      let c' : WorkerClient = record c { map_shards = c.map_shards ++ shard ∷ [] } in
      ground
        (arith, is_some-put v u c' m.ip_addr2worker, entries-put u v c' c m.ip_addr2worker (sym e))

  pub send_map-Grows :
      (v : Text) (shard : FileShard) (m : Master) {m' : Master} {job : Text × MapQuery}
      → send_map v shard m ≡ some (m', job)
      → Grows m m'
  unfolding send_map
  send_map-Grows v shard m h = send_map_to-Grows v (find v m.ip_addr2worker) shard m refl h

  claim_map_from-Grows :
      (queue : List Text) (todo : List FileShard) (m : Master)
      → m.ready_queue ≡ queue
      → Grows m (claim_map_from queue todo m)
  unfolding claim_map_from is_backed is_in is_claimed
  claim_map_from-Grows [] todo m e = ground arith
  claim_map_from-Grows (v ∷ queue) [] m e = ground arith
  claim_map_from-Grows (v ∷ queue) (shard ∷ todo) m e = ground arith

  pub claim_map-Grows : (m : Master) → Grows m (claim_map m)
  unfolding claim_map
  claim_map-Grows m = claim_map_from-Grows m.ready_queue (drop m.index m.shards) m refl

  send_reduce_to-Grows :
      (idx : List (ℤ × List Text)) (v : Text) (o : Option WorkerClient) (q : ℤ) (m : Master)
      {m' : Master} {job : Text × ReduceJob}
      → o ≡ find v m.ip_addr2worker
      → send_reduce_to idx v o q m ≡ some (m', job)
      → Grows m m'
  unfolding send_reduce_to is_backed is_claimed
  send_reduce_to-Grows idx v none q m e h = absurd (ground arith)
  send_reduce_to-Grows idx v (some c) q m e h =
      ground
        (arith, is_some-put v u c m.ip_addr2worker, entries-put u v c c m.ip_addr2worker (sym e))

  pub send_reduce-Grows :
      (idx : List (ℤ × List Text)) (v : Text) (q : ℤ) (m : Master) {m' : Master}
      {job : Text × ReduceJob}
      → send_reduce idx v q m ≡ some (m', job)
      → Grows m m'
  unfolding send_reduce
  send_reduce-Grows idx v q m h = send_reduce_to-Grows idx v (find v m.ip_addr2worker) q m refl h

  claim_reduce_from-Grows :
      (queue : List Text) (todo : List ℤ) (m : Master)
      → m.ready_queue ≡ queue
      → Grows m (claim_reduce_from queue todo m)
  unfolding claim_reduce_from is_backed is_in is_claimed
  claim_reduce_from-Grows [] todo m e = ground arith
  claim_reduce_from-Grows (v ∷ queue) [] m e = ground arith
  claim_reduce_from-Grows (v ∷ queue) (q ∷ todo) m e = ground arith

  pub claim_reduce-Grows : (m : Master) → Grows m (claim_reduce m)
  unfolding claim_reduce
  claim_reduce-Grows m = claim_reduce_from-Grows m.ready_queue (drop m.index m.partitions) m refl

  pub check_complete-Grows : (m : Master) → Grows m (check_complete m)
  unfolding check_complete is_backed
  check_complete-Grows m = ground arith

  pub next_shards-Grows :
      (m : Master) {m' : Master} {b : Bool} → next_shards m ≡ (b, m') → Grows m m'
  unfolding next_shards is_backed
  next_shards-Grows m h = ground arith

  pub start_reduce-Grows :
      (m : Master) {idx2files : List (ℤ × List Text)} {m' : Master}
      → start_reduce m ≡ some (idx2files, m')
      → Grows m m'
  unfolding start_reduce is_backed
  start_reduce-Grows m h = ground arith

  pub next_partitions-Grows :
      (m : Master) {m' : Master} {b : Bool} → next_partitions m ≡ (b, m') → Grows m m'
  unfolding next_partitions is_backed
  next_partitions-Grows m h = ground arith
