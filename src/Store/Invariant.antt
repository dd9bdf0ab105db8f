-- ===== src/Store/Invariant.antt =====
-- What holds of the store of project3/src/store.cc between two steps.
use advanced_os.Prelude.{
  ℕ, suc, ◌+◌, ◌≡◌, ◌≤◌, Bool, true, false, List, [], ◌∷◌, ◌==◌, if◌then◌else◌, length,
}
use advanced_os.Prelude.Family.{total}
use advanced_os.Store.{
  CallStatus, create, process, finish, Operation, idle, requested, answering, completed, CallData,
  Worker, waiting, job, bidding, Server, new_call_data,
}

-- an instance that waits for a client, or whose request has not been seen by `HandleRpcs`
unfoldable pub listens : CallStatus → Operation → ℕ
listens process requested = 1
listens process completed = 1
listens _ _ = 0

unfoldable pub listening : CallData → ℕ
unfolding listens
listening c = listens c.status c.operation

-- an instance that a job is about
unfoldable pub has_job : CallStatus → Operation → ℕ
has_job process idle = 1
has_job _ _ = 0

-- the instance of a job that has not spawned the next instance
unfoldable pub holds : Worker → ℕ
holds (job i) = 1
holds _ = 0

unfoldable pub works_on : ℕ → Worker → ℕ
works_on i waiting = 0
works_on i (job j) = if j == i then 1 else 0
works_on i (bidding j) = if j == i then 1 else 0

unfoldable pub occurs : ℕ → List ℕ → ℕ
occurs i [] = 0
occurs i (j ∷ l) = if j == i then suc (occurs i l) else occurs i l

-- The states that an instance goes through.
unfoldable pub Fits : CallStatus → Operation → Bool → ℕ → Type 0
Fits create idle deleted answers = (deleted ≡ false) × (answers ≡ 0)
Fits process idle deleted answers = (deleted ≡ false) × (answers ≡ 0)
Fits process requested deleted answers = (deleted ≡ false) × (answers ≡ 0)
Fits process completed deleted answers = (deleted ≡ false) × (answers ≡ 0)
Fits finish answering deleted answers = (deleted ≡ false) × (answers ≡ 1)
Fits finish completed deleted answers = (deleted ≡ false) × (answers ≡ 1)
Fits finish idle deleted answers = (deleted ≡ true) × (answers ≡ 1)
Fits _ _ deleted answers = ⊥

pub record Inv (n : ℕ) (s : Server) : Type 0 where
  pub one : total listening s.allocated s.calls + length s.event_queue + total holds n s.threads ≡ 1
  pub fits :
      (i : ℕ)
      → Fits (s.calls i).status (s.calls i).operation (s.calls i).deleted (s.calls i).answers
  pub fresh : (i : ℕ) → s.allocated ≤ i → s.calls i ≡ new_call_data
  pub jobs :
      (i : ℕ)
      → occurs i s.event_queue + total (works_on i) n s.threads
        ≡ has_job (s.calls i).status (s.calls i).operation
