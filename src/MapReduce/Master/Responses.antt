-- ===== src/MapReduce/Master/Responses.antt =====
-- The loop body of poll_workers of project4/src/master.cc.
use advanced_os.Prelude.{
  ◌+◌, Bool, true, false, not, ◌&&◌, ◌||◌, Option, none, some, List, [], ◌∷◌, ◌++◌, ltb, ◌==◌,
  if◌then◌else◌,
}
use mathlib.Core.List.{foldl}
use advanced_os.MapReduce.Text.{Text, text_eq}
use advanced_os.MapReduce.Reducer.{text_lt}
use advanced_os.MapReduce.Master.State.{WorkerClient, Master, find, put, erase, is_in}

-- `result`, which is read where the status is ok
pub data Reply : Type 0 where
  map_result : List Text → Reply
  reduce_result : Text → Reply

-- a call that the completion queue returns
pub record ClientCall : Type 0 where
  pub worker_ip_addr : Text
  pub ok : Bool
  pub reply : Reply

abbrev pub is_map_job : Reply → Bool
is_map_job (map_result files) = true
is_map_job (reduce_result file) = false

-- `insert` of a `std::set`
unfoldable pub insert : List Text → Text → List Text
unfolding text_lt
insert [] f = f ∷ []
insert (g ∷ files) f =
    let rest = insert files f in
    if text_eq f g then g ∷ files else if text_lt f g then f ∷ g ∷ files else g ∷ rest

-- The counters and the files of an answered job.
unfoldable pub count_reply : Text → WorkerClient → Reply → Master → Master
unfolding put insert
count_reply u client (map_result files) m = record m {
  num_map_msgs = m.num_map_msgs + 1;
  ip_addr2worker =
      put u (record client { completed_map_jobs = client.completed_map_jobs + 1 }) m.ip_addr2worker;
  intermediate_files = foldl insert m.intermediate_files files;
}
count_reply u client (reduce_result file) m = record m {
  num_reduce_msgs = m.num_reduce_msgs + 1;
  ip_addr2worker =
      put u (record client { completed_reduce_jobs = client.completed_reduce_jobs + 1 })
        m.ip_addr2worker;
  output_files = m.output_files ++ file ∷ [];
}

unfoldable pub take_reply : Text → Option WorkerClient → Reply → Master → Master
unfolding count_reply
take_reply u none r m = m
take_reply u (some client) r m = count_reply u client r m

unfoldable pub count_error : Reply → Master → Master
count_error (map_result files) m = record m { num_dropped_map_jobs = m.num_dropped_map_jobs + 1 }
count_error (reduce_result file) m = record m {
  num_dropped_reduce_jobs = m.num_dropped_reduce_jobs + 1;
}

-- What the loop does with a call up to its `cleanup`.
unfoldable pub handle_response : ClientCall → Master → Master
unfolding take_reply count_error erase is_in find
handle_response call m =
    let u = call.worker_ip_addr in
    if not call.ok
    then count_error call.reply m
    else if not (is_in u m.worker_ips)
    then m
    else take_reply u (find u m.ip_addr2worker) call.reply
        (record m { ready_queue = m.ready_queue ++ u ∷ []; worker2job = erase u m.worker2job })

-- whether the thread that runs `run` is woken; the ints are compared without taking their difference
unfoldable pub notify_master : Master → Bool
notify_master m =
    ((m.num_dropped_workers == 0)
      && (m.num_map_msgs == m.num_shards + m.num_dropped_map_jobs)
      && not m.map_complete)
    || ((m.num_dropped_workers == 0)
        && (m.num_reduce_msgs == m.num_partitions + m.num_dropped_reduce_jobs)
        && not m.reduce_complete)
    || ltb 0 m.num_dropped_workers
