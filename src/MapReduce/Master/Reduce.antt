-- ===== src/MapReduce/Master/Reduce.antt =====
-- The loop over the partitions of run of project4/src/master.cc.
use advanced_os.Prelude.{
  ◌+◌, Bool, true, false, Option, none, some, List, [], ◌∷◌, ◌++◌, if◌then◌else◌, drop,
}
use advanced_os.Prelude.Int.{ℤ}
use advanced_os.MapReduce.Text.{Text}
use advanced_os.MapReduce.Spec.{is_empty}
use advanced_os.MapReduce.Master.State.{WorkerClient, Master, find, put, is_in}
use advanced_os.MapReduce.Master.Jobs.{ReduceJob, send_reducer_job, int_eq}

-- `idx2files[i]`
unfoldable pub files_of : ℤ → List (ℤ × List Text) → List Text
unfolding int_eq
files_of i [] = []
files_of i ((j, fs) ∷ m) = let rest = files_of i m in if int_eq j i then fs else rest

-- The part under the lock of the loop over the partitions, where a worker is ready.
unfoldable pub claim_reduce_from : List Text → List ℤ → Master → Master
unfolding is_in put
claim_reduce_from [] todo m = m
claim_reduce_from (u ∷ queue) [] m = m
claim_reduce_from (u ∷ queue) (p ∷ todo) m =
    if is_in u m.dropped_worker_ips
    then record m { ready_queue = queue }
    else record m { ready_queue = queue; worker2job = put u p m.worker2job; claimed = some u }

unfoldable pub claim_reduce : Master → Master
unfolding claim_reduce_from
claim_reduce m = claim_reduce_from m.ready_queue (drop m.index m.partitions) m

module _ (idx2files : List (ℤ × List Text)) where
  -- The part behind the lock, with the client that is found: `none` where a null pointer is followed.
  unfoldable pub send_reduce_to :
      Text → Option WorkerClient → ℤ → Master → Option (Master × (Text × ReduceJob))
  unfolding put send_reducer_job files_of
  send_reduce_to u none p m = none
  send_reduce_to u (some client) p m =
      let (job, client') = send_reducer_job p m.output_dir (files_of p idx2files) client in
      some (
        record m {
          ip_addr2worker = put u client' m.ip_addr2worker;
          index = m.index + 1;
          claimed = none;
        },
        (u, job),
      )

  unfoldable pub send_reduce : Text → ℤ → Master → Option (Master × (Text × ReduceJob))
  unfolding send_reduce_to find
  send_reduce u p m = send_reduce_to u (find u m.ip_addr2worker) p m

-- The end of a round over the partitions.
unfoldable pub next_partitions : Master → Bool × Master
next_partitions m =
    if is_empty m.unfinished_partitions
    then (if m.reduce_complete
        then (true, record m { partitions = []; index = 0 })
        else (false, record m { index = 0 }))
    else (
      false,
      record m { partitions = m.unfinished_partitions; unfinished_partitions = []; index = 0 },
    )

-- The end of `run`: the intermediate files are removed, and the result is false where the directory
-- can neither be removed nor holds other files.
unfoldable pub finish_run : Bool → Master → Bool × Master
finish_run directory_left m = (
  if directory_left then false else true,
  record m { removed = m.removed ++ m.intermediate_files },
)
