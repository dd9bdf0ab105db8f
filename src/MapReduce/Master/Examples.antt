-- ===== src/MapReduce/Master/Examples.antt =====
-- The theorems on the master at a run of it.
mod Runs
use advanced_os.Prelude.{
  ℕ, ◌+◌, ◌==◌, ◌≡◌, ◌↔◌, ◌≢◌, ◌≤◌, refl, subst, Bool, true, false, Option, none, some, List, [],
  ◌∷◌, length, arith,
}
use advanced_os.Prelude.Int.{ℤ, pos}
use advanced_os.MapReduce.Text.{Text, text_eq}
use advanced_os.MapReduce.Mapper.{MapQuery}
use advanced_os.MapReduce.Shards.{FileShard}
use advanced_os.MapReduce.Spec.{MapReduceSpec, codes}
use advanced_os.MapReduce.Master.State.{WorkerClient, Master, new_master, is_in}
use advanced_os.MapReduce.Master.Failures.{Pong, handle_worker_failure, receive_pongs}
use advanced_os.MapReduce.Master.Responses.{
  ClientCall, Reply, map_result, reduce_result, handle_response,
}
use advanced_os.MapReduce.Master.Jobs.{
  ReduceJob, send_map, check_complete, next_shards, start_reduce,
}
use advanced_os.MapReduce.Master.Reduce.{send_reduce, next_partitions}
use advanced_os.MapReduce.Master.Steps.{Phase, Step, Reach}
use advanced_os.MapReduce.Master.Outstanding.{count, outstanding, held}
use advanced_os.MapReduce.Master.Clients.{sum}
use advanced_os.MapReduce.Master.Kept.{no_shard_lost}
use advanced_os.MapReduce.Master.Accounts.{completed_jobs}
use advanced_os.MapReduce.Master.Completion.{map_completed}
use advanced_os.MapReduce.Master.Pointers.{null_client_iff}
use advanced_os.MapReduce.Master.Pongs.{receive_pongs-unread}
use advanced_os.MapReduce.Master.Partitions.{no_partition_requeued}
use advanced_os.MapReduce.Master.Examples.Runs.{
  ann, bob, two_workers, shard_at, two_shards, state_of, map_done, file_0, starts_at_9, m0, m1, m2,
  m3, m4, m5, m6, m7, lit7, lit8, groups, lit10, r7', r9, r11, lost, lost-Reach, lost_claimed,
}

no_shard_lost_example : count starts_at_9 two_shards ≤ outstanding starts_at_9 lit7
no_shard_lost_example =
    no_shard_lost starts_at_9 two_shards two_workers Phase.mapping lit7 0 r7' refl

check_lit7 : (check_complete lit7).map_complete ≡ true
unfolding check_complete
check_lit7 = refl

map_completed_example :
    (count starts_at_9 two_shards ≤ sum (held starts_at_9) lit7.ip_addr2worker)
    × (completed_jobs lit7 ≡ length two_shards + 0)
map_completed_example =
    map_completed two_shards two_workers Phase.mapping lit7 0 starts_at_9 r7' (omega arith) refl
      check_lit7

null_client_iff_example :
    ((send_map bob (shard_at 9) lost ≡ none) ↔ (is_in bob lost.dropped_worker_ips ≡ true))
    × ((send_reduce groups bob (pos 0) lost ≡ none) ↔ (is_in bob lost.dropped_worker_ips ≡ true))
null_client_iff_example =
    null_client_iff two_workers two_shards Phase.mapping lost 0 bob (shard_at 9) groups (pos 0)
      lost-Reach lost_claimed

next_lit10 : next_partitions lit10 ≡ (false, record lit10 { index = 0 })
unfolding next_partitions
next_lit10 = refl

no_partition_requeued_example :
    (lit10.unfinished_partitions ≡ [])
    × ((record lit10 { index = 0 }).partitions ≡ lit10.partitions)
no_partition_requeued_example =
    no_partition_requeued two_workers two_shards Phase.reduce_checked lit10
      (record lit10 { index = 0 }) 0 r11 next_lit10

abbrev silent : Text → Pong
silent u = record { worker_ip = u; error_msg = true }

-- Of two workers that both fail, only one is handled in the round.
abbrev both_fail : List Pong
both_fail = silent ann ∷ silent bob ∷ []

abbrev half_way : Master
half_way = elim (handle_worker_failure ann m0) [ none ↦ m0 | some n ↦ n ]

receive_both : receive_pongs 0 both_fail m0 ≡ some (half_way, silent bob ∷ [])
unfolding receive_pongs new_master handle_worker_failure text_eq
receive_both = refl

receive_pongs-unread_example :
    (half_way.num_workers + 1 ≤ m0.num_workers) × (m0.num_workers ≤ half_way.num_workers + 1 + 1)
unfolding new_master
receive_pongs-unread_example =
    receive_pongs-unread both_fail m0 half_way (silent bob ∷ []) refl receive_both
