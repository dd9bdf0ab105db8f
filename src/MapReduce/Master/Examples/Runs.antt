-- ===== src/MapReduce/Master/Examples/Runs.antt =====
-- A run of the master with two workers, of which one fails.
use advanced_os.Prelude.{
  ℕ, ◌+◌, ◌==◌, ◌≡◌, refl, subst, Bool, true, false, Option, none, some, List, [], ◌∷◌, arith,
}
use advanced_os.Prelude.Int.{ℤ, pos}
use advanced_os.MapReduce.Text.{Text, text_eq}
use advanced_os.MapReduce.Mapper.{MapQuery}
use advanced_os.MapReduce.Shards.{FileShard}
use advanced_os.MapReduce.Spec.{MapReduceSpec, codes}
use advanced_os.MapReduce.Master.State.{Master, new_master, new_client}
use advanced_os.MapReduce.Master.Failures.{handle_worker_failure}
use advanced_os.MapReduce.Master.Responses.{ClientCall, map_result, handle_response}
use advanced_os.MapReduce.Master.Jobs.{
  send_mapper_job, claim_map, send_map, check_complete, next_shards, start_reduce,
}
use advanced_os.MapReduce.Master.Reduce.{claim_reduce, send_reduce}
use advanced_os.MapReduce.Master.Steps.{Phase, Step, Reach}

abbrev pub ann : Text
ann = codes "a:1"

abbrev pub bob : Text
bob = codes "b:2"

abbrev pub two_workers : MapReduceSpec
two_workers = record {
  n_workers = pos 2;
  worker_ipaddr_ports = ann ∷ bob ∷ [];
  input_files = codes "in" ∷ [];
  output_dir = codes "out";
  n_output_files = pos 1;
  map_kilobytes = pos 1;
  user_id = codes "u";
}

abbrev pub shard_at : ℕ → FileShard
shard_at n = record { files = codes "in" ∷ []; offsets = (n, n + 9) ∷ [] }

abbrev pub two_shards : List FileShard
two_shards = shard_at 0 ∷ shard_at 9 ∷ []

abbrev pub state_of : {A : Type 0} → Option (Master × A) → Master → Master
state_of none m = m
state_of (some (n, a)) m = n

abbrev pub query_at : ℕ → MapQuery
query_at n = (send_mapper_job 1 (shard_at n) new_client).0

abbrev pub map_done : Text → Text → ClientCall
map_done u f = record { worker_ip_addr = u; ok = true; reply = map_result (f ∷ []) }

abbrev pub file_0 : Text
file_0 = codes "intermediate/0_1.txt"

abbrev pub starts_at_9 : FileShard → Bool
starts_at_9 s = elim s.offsets [ (o, e) ∷ _ ↦ o == 9 | [] ↦ false ]

abbrev pub m0 : Master
m0 = new_master two_workers two_shards

-- Both shards are sent, ann answers, and bob fails.
abbrev pub c0 : Master
c0 = claim_map m0

abbrev pub m1 : Master
m1 = state_of (send_map ann (shard_at 0) c0) m0

abbrev pub c1 : Master
c1 = claim_map m1

abbrev pub m2 : Master
m2 = state_of (send_map bob (shard_at 9) c1) m1

abbrev pub m3 : Master
m3 = handle_response (map_done ann (codes "intermediate/0_1.txt")) m2

abbrev pub m4 : Master
m4 = elim (handle_worker_failure bob m3) [ none ↦ m3 | some n ↦ n ]

-- The round ends, and ann is sent the shard that bob had.
abbrev pub m5 : Master
m5 = (next_shards (check_complete m4)).1

abbrev pub c5 : Master
c5 = claim_map m5

abbrev pub m6 : Master
m6 = state_of (send_map ann (shard_at 9) c5) m5

abbrev pub m7 : Master
m7 = handle_response (map_done ann (codes "intermediate/0_1.txt")) m6

-- the state behind these steps, written out
abbrev pub lit7 : Master
lit7 = record {
  user_id = codes "u";
  output_dir = codes "out";
  num_workers = 1;
  num_dropped_workers = 0;
  num_dropped_map_jobs = 0;
  num_dropped_reduce_jobs = 0;
  num_map_msgs = 2;
  num_reduce_msgs = 0;
  num_shards = 2;
  num_partitions = 1;
  map_complete = false;
  reduce_complete = false;
  worker_ips = ann ∷ [];
  dropped_worker_ips = bob ∷ [];
  ip_addr2worker =
      (
        ann,
        record {
          map_shards = two_shards;
          reduce_partitions = [];
          completed_map_jobs = 2;
          completed_reduce_jobs = 0;
        },
      )
      ∷ [];
  ready_queue = ann ∷ [];
  shards = shard_at 9 ∷ [];
  unfinished_shards = [];
  partitions = [];
  unfinished_partitions = [];
  worker2job = [];
  intermediate_files = file_0 ∷ [];
  output_files = [];
  index = 1;
  claimed = none;
  removed = [];
}

m7-eq : m7 ≡ lit7
unfolding new_master claim_map send_map send_mapper_job new_client handle_response
    handle_worker_failure check_complete next_shards text_eq
m7-eq = refl

r4 : Reach two_workers two_shards Phase.mapping m4 0
unfolding new_master claim_map send_map send_mapper_job new_client handle_response
    handle_worker_failure text_eq
r4 =
    Reach.next
      (Reach.next
        (Reach.next
          (Reach.next
            (Reach.next (Reach.next Reach.start (Step.claim_map refl refl refl refl refl)) (
              Step.send_map ann (shard_at 0) (shard_at 9 ∷ []) (ann, query_at 0) refl refl refl refl
                refl refl))
            (Step.claim_map refl refl refl refl refl))
          (Step.send_map bob (shard_at 9) [] (bob, query_at 9) refl refl refl refl refl refl))
        (Step.respond (map_done ann (codes "intermediate/0_1.txt")) refl refl refl))
      (Step.fail bob refl refl refl)

r7 : Reach two_workers two_shards Phase.mapping m7 0
unfolding new_master claim_map send_map send_mapper_job new_client handle_response
    handle_worker_failure check_complete next_shards text_eq
r7 =
    Reach.next
      (Reach.next
        (Reach.next
          (Reach.next (Reach.next r4 (Step.check_map refl refl refl refl (omega arith) refl))
            (Step.next_map refl refl refl refl))
          (Step.claim_map refl refl refl refl refl))
        (Step.send_map ann (shard_at 9) [] (ann, query_at 9) refl refl refl refl refl refl))
      (Step.respond (map_done ann (codes "intermediate/0_1.txt")) refl refl refl)

pub r7' : Reach two_workers two_shards Phase.mapping lit7 0
r7' = subst (λ m. Reach two_workers two_shards Phase.mapping m 0) m7-eq r7

-- The map jobs are complete, and the only partition is sent to ann.
abbrev pub lit8 : Master
lit8 = record lit7 { map_complete = true; shards = []; index = 0 }

abbrev pub groups : List (ℤ × List Text)
groups = (pos 0, file_0 ∷ []) ∷ []

abbrev pub lit10 : Master
lit10 = record lit8 {
  partitions = pos 0 ∷ [];
  ready_queue = [];
  worker2job = (ann, pos 0) ∷ [];
  index = 1;
}

pub r9 : Reach two_workers two_shards Phase.reducing (record lit8 { partitions = pos 0 ∷ [] }) 0
unfolding check_complete next_shards start_reduce
r9 =
    Reach.next (Reach.next r7' (Step.check_map refl refl refl refl (omega arith) refl))
      (Step.end_map groups lit8 refl refl refl refl refl)

pub r11 : Reach two_workers two_shards Phase.reduce_checked lit10 0
unfolding claim_reduce send_reduce check_complete text_eq
r11 =
    Reach.next
      (Reach.next (Reach.next r9 (Step.claim_reduce refl refl refl refl refl)) (
        Step.send_reduce groups ann (pos 0) []
          (ann, record { partition_id = pos 0; dir = codes "out"; files = file_0 ∷ [] }) refl refl
          refl refl refl refl))
      (Step.check_reduce refl refl refl refl (omega arith) refl)

-- Bob is taken from the queue, and fails before a job is sent to him.
abbrev pub lost : Master
lost = elim (handle_worker_failure bob c1) [ none ↦ c1 | some n ↦ n ]

pub lost-Reach : Reach two_workers two_shards Phase.mapping lost 0
unfolding new_master claim_map send_map handle_worker_failure send_mapper_job new_client text_eq
lost-Reach =
    Reach.next
      (Reach.next
        (Reach.next (Reach.next Reach.start (Step.claim_map refl refl refl refl refl)) (
          Step.send_map ann (shard_at 0) (shard_at 9 ∷ []) (ann, query_at 0) refl refl refl refl
            refl refl))
        (Step.claim_map refl refl refl refl refl))
      (Step.fail bob refl refl refl)

pub lost_claimed : lost.claimed ≡ some bob
unfolding new_master claim_map send_map handle_worker_failure text_eq
lost_claimed = refl

lost_sends : send_map bob (shard_at 9) lost ≡ none
unfolding new_master claim_map send_map handle_worker_failure text_eq
lost_sends = refl
