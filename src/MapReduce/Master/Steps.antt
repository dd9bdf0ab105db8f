-- ===== src/MapReduce/Master/Steps.antt =====
-- The threads of project4/src/master.cc as steps of one state. A step is the part of a loop's body under
-- the lock or the part behind it, or one call of a handler; data races between the threads within these
-- are left out. Responses and failures come at any time.
use advanced_os.Prelude.{
  ℕ, ◌+◌, ◌≡◌, ◌≤◌, true, false, none, some, List, ◌∷◌, drop, if◌then◌else◌, length,
}
use advanced_os.Prelude.Int.{ℤ}
use advanced_os.MapReduce.Text.{Text}
use advanced_os.MapReduce.Mapper.{MapQuery}
use advanced_os.MapReduce.Shards.{FileShard}
use advanced_os.MapReduce.Spec.{MapReduceSpec}
use advanced_os.MapReduce.Master.State.{Master, new_master}
use advanced_os.MapReduce.Master.Failures.{handle_worker_failure}
use advanced_os.MapReduce.Master.Responses.{ClientCall, is_map_job, handle_response}
use advanced_os.MapReduce.Master.Jobs
use advanced_os.MapReduce.Master.Reduce
use advanced_os.MapReduce.Master.Jobs.{ReduceJob, check_complete, next_shards, start_reduce}
use advanced_os.MapReduce.Master.Reduce.{next_partitions}

-- where `run` stands: in a round over shards or partitions, or behind its call of `schedule_monitor`
pub data Phase : Type 0 where
  mapping map_checked reducing reduce_checked completed : Phase

-- whether a call is a map job that failed
abbrev pub map_errors : ClientCall → ℕ
map_errors c = if c.ok then 0 else if is_map_job c.reply then 1 else 0

-- A step, and the number of failed map jobs that it counts.
pub data Step (p : Phase) (m : Master) (p' : Phase) (m' : Master) (errors : ℕ) : Type 0 where
  claim_map :
      p ≡ mapping
      → p' ≡ mapping
      → errors ≡ 0
      → m.claimed ≡ none
      → m' ≡ Jobs.claim_map m
      → Step p m p' m' errors
  send_map :
      (u : Text) (shard : FileShard) (todo : List FileShard) (job : Text × MapQuery)
      → p ≡ mapping
      → p' ≡ mapping
      → errors ≡ 0
      → m.claimed ≡ some u
      → drop m.index m.shards ≡ shard ∷ todo
      → Jobs.send_map u shard m ≡ some (m', job)
      → Step p m p' m' errors
  check_map :
      p ≡ mapping
      → p' ≡ map_checked
      → errors ≡ 0
      → m.claimed ≡ none
      → length m.shards ≤ m.index
      → m' ≡ check_complete m
      → Step p m p' m' errors
  next_map :
      p ≡ map_checked
      → p' ≡ mapping
      → errors ≡ 0
      → next_shards m ≡ (false, m')
      → Step p m p' m' errors
  end_map :
      (idx2files : List (ℤ × List Text)) (n : Master)
      → p ≡ map_checked
      → p' ≡ reducing
      → errors ≡ 0
      → next_shards m ≡ (true, n)
      → start_reduce n ≡ some (idx2files, m')
      → Step p m p' m' errors
  claim_reduce :
      p ≡ reducing
      → p' ≡ reducing
      → errors ≡ 0
      → m.claimed ≡ none
      → m' ≡ Reduce.claim_reduce m
      → Step p m p' m' errors
  send_reduce :
      (idx2files : List (ℤ × List Text)) (u : Text) (partition : ℤ) (todo : List ℤ)
      (job : Text × ReduceJob)
      → p ≡ reducing
      → p' ≡ reducing
      → errors ≡ 0
      → m.claimed ≡ some u
      → drop m.index m.partitions ≡ partition ∷ todo
      → Reduce.send_reduce idx2files u partition m ≡ some (m', job)
      → Step p m p' m' errors
  check_reduce :
      p ≡ reducing
      → p' ≡ reduce_checked
      → errors ≡ 0
      → m.claimed ≡ none
      → length m.partitions ≤ m.index
      → m' ≡ check_complete m
      → Step p m p' m' errors
  next_reduce :
      p ≡ reduce_checked
      → p' ≡ reducing
      → errors ≡ 0
      → next_partitions m ≡ (false, m')
      → Step p m p' m' errors
  end_reduce :
      p ≡ reduce_checked
      → p' ≡ completed
      → errors ≡ 0
      → next_partitions m ≡ (true, m')
      → Step p m p' m' errors
  respond :
      (call : ClientCall)
      → p' ≡ p
      → errors ≡ map_errors call
      → m' ≡ handle_response call m
      → Step p m p' m' errors
  fail :
      (worker_ip : Text)
      → p' ≡ p
      → errors ≡ 0
      → handle_worker_failure worker_ip m ≡ some m'
      → Step p m p' m' errors

-- The states that a master reaches, with the number of failed map jobs so far.
pub data Reach (spec : MapReduceSpec) (shards : List FileShard) : Phase → Master → ℕ → Type 0 where
  start : Reach spec shards mapping (new_master spec shards) 0
  next :
      {p p' : Phase} {m m' : Master} {n k : ℕ}
      → Reach spec shards p m n
      → Step p m p' m' k
      → Reach spec shards p' m' (n + k)
