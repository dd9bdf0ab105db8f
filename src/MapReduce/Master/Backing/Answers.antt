-- ===== src/MapReduce/Master/Backing/Answers.antt =====
-- Responses and failures keep the clients of the workers that are neither dropped nor unknown.
use advanced_os.Prelude.{
  ◌+◌, ◌≡◌, refl, sym, true, ◌||◌, Option, none, some, List, [], ◌∷◌, ◌++◌, arith, Bool-cases, inl,
  inr,
}
use advanced_os.MapReduce.Text.{Text, text_eq, text_eq_iff}
use advanced_os.MapReduce.Master.State.{WorkerClient, Master, find, erase, is_in, erase_first}
use advanced_os.MapReduce.Master.Failures.{
  handle_worker_failure, fail_map_worker, fail_reduce_worker,
}
use advanced_os.MapReduce.Master.Responses.{
  ClientCall, handle_response, take_reply, count_error, Reply, map_result, reduce_result,
}
use advanced_os.MapReduce.Master.Entries.{entries-put, entries-erase}
use advanced_os.MapReduce.Master.Clients.{is_some, is_some-put, is_some-erase, is_in-append}
use advanced_os.MapReduce.Master.Backing.{is_backed, Grows}

is_in-erase_first :
    (u v : Text) (l : List Text) → is_in u (erase_first v l) ≡ true → is_in u l ≡ true
unfolding is_in erase_first
is_in-erase_first u v [] h = h
is_in-erase_first u v (w ∷ l) h = ground (arith, is_in-erase_first u v l)

module _ (u : Text) where
  take_reply-Grows :
      (v : Text) (o : Option WorkerClient) (r : Reply) (m : Master)
      → o ≡ find v m.ip_addr2worker
      → Grows u m (take_reply v o r m)
  unfolding take_reply is_backed
  take_reply-Grows v none r m e = ground arith
  take_reply-Grows v (some c) (map_result files) m e =
      let c' : WorkerClient = record c { completed_map_jobs = c.completed_map_jobs + 1 } in
      ground
        (arith, is_some-put v u c' m.ip_addr2worker, entries-put u v c' c m.ip_addr2worker (sym e))
  take_reply-Grows v (some c) (reduce_result file) m e =
      let c' : WorkerClient = record c { completed_reduce_jobs = c.completed_reduce_jobs + 1 } in
      ground
        (arith, is_some-put v u c' m.ip_addr2worker, entries-put u v c' c m.ip_addr2worker (sym e))

  count_error-Grows : (r : Reply) (m : Master) → Grows u m (count_error r m)
  unfolding count_error is_backed
  count_error-Grows (map_result files) m = ground arith
  count_error-Grows (reduce_result file) m = ground arith

  pub handle_response-Grows : (call : ClientCall) (m : Master) → Grows u m (handle_response call m)
  unfolding handle_response is_backed is_in
  handle_response-Grows call m =
      let v = call.worker_ip_addr in
      let n = record m {
        ready_queue = m.ready_queue ++ v ∷ [];
        worker2job = erase v m.worker2job;
      } in
      elim (Bool-cases call.ok) [
        | inr bad ↦ rw bad (count_error-Grows call.reply m)
        | inl good ↦ elim (Bool-cases (is_in v m.worker_ips)) [
          | inr gone ↦ ground arith
          | inl there ↦ ground (
            arith,
            take_reply-Grows v (find v m.ip_addr2worker) call.reply n refl,
            is_in-append u m.ready_queue (v ∷ []),
            text_eq_iff v u,
          )
        ]
      ]

  removed-backed :
      (v : Text) (m : List (Text × WorkerClient)) (d : List Text)
      → (is_some (find u m) || is_in u d) ≡ true
      → (is_some (find u (erase v m)) || is_in u (d ++ v ∷ [])) ≡ true
  unfolding is_in
  removed-backed v m d h = elim (Bool-cases (text_eq v u)) [
    | inl same ↦ ground (arith, is_in-append u d (v ∷ []))
    | inr other ↦ ground (arith, is_in-append u d (v ∷ []), is_some-erase v u m other)
  ]

  fail_map_worker-Grows :
      (v : Text) (o : Option WorkerClient) (m : Master)
      → o ≡ find v m.ip_addr2worker
      → Grows u m (fail_map_worker v o m)
  unfolding fail_map_worker is_backed is_in
  fail_map_worker-Grows v none m e = ground arith
  fail_map_worker-Grows v (some c) m e = ground (
    arith,
    removed-backed v m.ip_addr2worker m.dropped_worker_ips,
    is_in-erase_first u v m.worker_ips,
    entries-erase u v c m.ip_addr2worker (sym e),
    is_in-append u m.dropped_worker_ips (v ∷ []),
  )

  fail_reduce_worker-Grows :
      (v : Text) (o : Option WorkerClient) (m : Master) {m' : Master}
      → o ≡ find v m.ip_addr2worker
      → fail_reduce_worker v o m ≡ some m'
      → Grows u m m'
  unfolding fail_reduce_worker is_backed is_in
  fail_reduce_worker-Grows v none m e h = absurd (ground arith)
  fail_reduce_worker-Grows v (some c) m e h = ground (
    arith,
    removed-backed v m.ip_addr2worker m.dropped_worker_ips,
    is_in-erase_first u v m.worker_ips,
    entries-erase u v c m.ip_addr2worker (sym e),
    is_in-append u m.dropped_worker_ips (v ∷ []),
  )

  pub handle_worker_failure-Grows :
      (v : Text) (m : Master) {m' : Master} → handle_worker_failure v m ≡ some m' → Grows u m m'
  unfolding handle_worker_failure
  handle_worker_failure-Grows v m {m'} h = elim (Bool-cases m.map_complete) [
    | inl done ↦ ground (
      arith,
      λ (s : fail_reduce_worker v (find v m.ip_addr2worker) m ≡ some m').
          fail_reduce_worker-Grows v (find v m.ip_addr2worker) m refl s,
    )
    | inr going ↦ ground (arith, fail_map_worker-Grows v (find v m.ip_addr2worker) m refl)
  ]
