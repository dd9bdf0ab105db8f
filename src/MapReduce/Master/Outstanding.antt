-- ===== src/MapReduce/Master/Outstanding.antt =====
-- What the operations of project4/src/master.cc do to the shards that are outstanding.
use advanced_os.Prelude.{
  ℕ, suc, ◌+◌, ◌≡◌, ◌≤◌, refl, sym, Bool, false, Option, none, some, List, [], ◌∷◌, ◌++◌,
  if◌then◌else◌, length, drop, drop-all, arith, Bool-cases, inl, inr,
}
use advanced_os.MapReduce.Text.{Text}
use advanced_os.MapReduce.Mapper.{MapQuery}
use advanced_os.MapReduce.Shards.{FileShard}
use advanced_os.MapReduce.Master.State.{WorkerClient, Master, find, erase, is_in}
use advanced_os.MapReduce.Master.Failures.{handle_worker_failure, fail_map_worker}
use advanced_os.MapReduce.Master.Responses.{
  ClientCall, handle_response, take_reply, count_error, Reply, map_result, reduce_result,
}
use advanced_os.MapReduce.Master.Jobs.{
  claim_map, claim_map_from, send_map, send_map_to, check_complete, next_shards,
}
use advanced_os.MapReduce.Master.Clients.{sum, sum-put, sum-erase, drop-next}

module _ (P : FileShard → Bool) where
  unfoldable pub count : List FileShard → ℕ
  count [] = 0
  count (s ∷ ss) = let rest = count ss in if P s then suc rest else rest

  pub count-append : (xs ys : List FileShard) → count (xs ++ ys) ≡ count xs + count ys
  unfolding count
  count-append [] ys = omega arith
  count-append (x ∷ xs) ys = ground (arith, count-append xs ys)

  abbrev pub held : WorkerClient → ℕ
  held c = count c.map_shards

  -- the shards that are still to be sent in this round, those to be sent again, and those that have
  -- been sent to the workers that are left
  unfoldable pub outstanding : Master → ℕ
  unfolding sum
  outstanding m =
      count (drop m.index m.shards) + count m.unfinished_shards + sum held m.ip_addr2worker

  send_map_to-outstanding :
      (u : Text) (o : Option WorkerClient) (shard : FileShard) (todo : List FileShard) (m : Master)
      {m' : Master} {job : Text × MapQuery}
      → o ≡ find u m.ip_addr2worker
      → drop m.index m.shards ≡ shard ∷ todo
      → send_map_to u o shard m ≡ some (m', job)
      → (outstanding m' ≡ outstanding m) × (m'.map_complete ≡ m.map_complete)
  unfolding outstanding send_map_to count
  send_map_to-outstanding u none shard todo m e d h = absurd (ground arith)
  send_map_to-outstanding u (some c) shard todo m e d h = ground (
    arith,
    drop-next m.index m.shards todo shard d,
    count-append c.map_shards (shard ∷ []),
    sum-put held u c (record c { map_shards = c.map_shards ++ shard ∷ [] }) m.ip_addr2worker
        (sym e),
  )

  claim_map_from-outstanding :
      (queue : List Text) (todo : List FileShard) (m : Master)
      → (outstanding (claim_map_from queue todo m) ≡ outstanding m)
        × ((claim_map_from queue todo m).map_complete ≡ m.map_complete)
  unfolding outstanding claim_map_from
  claim_map_from-outstanding [] todo m = ground arith
  claim_map_from-outstanding (u ∷ queue) [] m = ground arith
  claim_map_from-outstanding (u ∷ queue) (shard ∷ todo) m = ground arith

  pub claim_map-outstanding :
      (m : Master)
      → (outstanding (claim_map m) ≡ outstanding m) × ((claim_map m).map_complete ≡ m.map_complete)
  unfolding claim_map
  claim_map-outstanding m = claim_map_from-outstanding m.ready_queue (drop m.index m.shards) m

  pub send_map-outstanding :
      (u : Text) (shard : FileShard) (todo : List FileShard) (m : Master) {m' : Master}
      {job : Text × MapQuery}
      → drop m.index m.shards ≡ shard ∷ todo
      → send_map u shard m ≡ some (m', job)
      → (outstanding m' ≡ outstanding m) × (m'.map_complete ≡ m.map_complete)
  unfolding send_map
  send_map-outstanding u shard todo m d h =
      send_map_to-outstanding u (find u m.ip_addr2worker) shard todo m refl d h

  pub check_complete-outstanding :
      (m : Master)
      → (outstanding (check_complete m) ≡ outstanding m)
        × ((check_complete m).map_complete ≡ false → m.map_complete ≡ false)
  unfolding outstanding check_complete
  check_complete-outstanding m = ground arith

  pub next_shards-outstanding :
      (m : Master) {m' : Master}
      → length m.shards ≤ m.index
      → next_shards m ≡ (false, m')
      → (outstanding m ≤ outstanding m') × (m'.map_complete ≡ m.map_complete)
  unfolding outstanding next_shards count
  next_shards-outstanding m ended h = ground (arith, drop-all m.index m.shards ended)

  take_reply-outstanding :
      (u : Text) (o : Option WorkerClient) (r : Reply) (m : Master)
      → o ≡ find u m.ip_addr2worker
      → (outstanding (take_reply u o r m) ≡ outstanding m)
        × ((take_reply u o r m).map_complete ≡ m.map_complete)
  unfolding outstanding take_reply
  take_reply-outstanding u none r m e = ground arith
  take_reply-outstanding u (some c) (map_result files) m e = ground (
    arith,
    sum-put held u c (record c { completed_map_jobs = c.completed_map_jobs + 1 }) m.ip_addr2worker
        (sym e),
  )
  take_reply-outstanding u (some c) (reduce_result file) m e = ground (
    arith,
    sum-put held u c (record c { completed_reduce_jobs = c.completed_reduce_jobs + 1 })
        m.ip_addr2worker (sym e),
  )

  count_error-outstanding :
      (r : Reply) (m : Master)
      → (outstanding (count_error r m) ≡ outstanding m)
        × ((count_error r m).map_complete ≡ m.map_complete)
  unfolding outstanding count_error
  count_error-outstanding (map_result files) m = ground arith
  count_error-outstanding (reduce_result file) m = ground arith

  pub handle_response-outstanding :
      (call : ClientCall) (m : Master)
      → (outstanding (handle_response call m) ≡ outstanding m)
        × ((handle_response call m).map_complete ≡ m.map_complete)
  unfolding outstanding handle_response
  handle_response-outstanding call m =
      let u = call.worker_ip_addr in
      let n = record m {
        ready_queue = m.ready_queue ++ u ∷ [];
        worker2job = erase u m.worker2job;
      } in
      elim (Bool-cases call.ok) [
        | inr bad ↦ rw bad (count_error-outstanding call.reply m)
        | inl good ↦ elim (Bool-cases (is_in u m.worker_ips)) [
          | inr gone ↦ rw (good, gone) (refl, refl)
          | inl there ↦
              rw (good, there)
                (take_reply-outstanding u (find u m.ip_addr2worker) call.reply n refl)
        ]
      ]

  fail_map_worker-outstanding :
      (u : Text) (o : Option WorkerClient) (m : Master)
      → o ≡ find u m.ip_addr2worker
      → outstanding (fail_map_worker u o m) ≡ outstanding m
  unfolding outstanding fail_map_worker
  fail_map_worker-outstanding u none m e = refl
  fail_map_worker-outstanding u (some c) m e = ground (
    arith,
    count-append m.unfinished_shards c.map_shards,
    sum-erase held u c m.ip_addr2worker (sym e),
  )

  pub handle_worker_failure-outstanding :
      (u : Text) (m : Master) {m' : Master}
      → m.map_complete ≡ false
      → handle_worker_failure u m ≡ some m'
      → outstanding m' ≡ outstanding m
  unfolding handle_worker_failure
  handle_worker_failure-outstanding u m going h =
      ground (arith, fail_map_worker-outstanding u (find u m.ip_addr2worker) m refl)
