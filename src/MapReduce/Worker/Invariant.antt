-- ===== src/MapReduce/Worker/Invariant.antt =====
-- What holds of a worker of project4/src/worker.cc between two steps.
use advanced_os.Prelude.{
  ℕ, ◌≡◌, ◌≤◌, Bool, true, false, Option, some, ◌>>=◌, List, [], ◌∷◌, ◌==◌, if◌then◌else◌, length,
}
use advanced_os.Prelude.Family.{total}
use advanced_os.MapReduce.Text.{FileSystem}
use advanced_os.MapReduce.Worker.{
  RequestStatus, create, process, finish, Operation, idle, requested, answering, completed, Kind,
  mapping, reducing, pinging, Query, Reply, Request, Server, kind_of, new_request,
}

unfoldable pub same_kind : Kind → Kind → Bool
same_kind mapping mapping = true
same_kind reducing reducing = true
same_kind pinging pinging = true
same_kind _ _ = false

-- a request that waits for a query, or whose query no loop has seen
unfoldable pub listens : RequestStatus → Operation → Bool
listens process requested = true
listens process completed = true
listens _ _ = false

unfoldable pub listening : Kind → Request → ℕ
unfolding listens
listening k r =
    if listens r.status r.operation then (if same_kind (kind_of r.query) k then 1 else 0) else 0

-- The states that a request goes through.
unfoldable pub Fits : RequestStatus → Operation → Bool → List Reply → Type 0
Fits create idle deleted replies = (deleted ≡ false) × (replies ≡ [])
Fits process requested deleted replies = (deleted ≡ false) × (replies ≡ [])
Fits process completed deleted replies = (deleted ≡ false) × (replies ≡ [])
Fits finish answering deleted replies = (deleted ≡ false) × (length replies ≡ 1)
Fits finish completed deleted replies = (deleted ≡ false) × (length replies ≡ 1)
Fits finish idle deleted replies = (deleted ≡ true) × (length replies ≡ 1)
Fits _ _ deleted replies = ⊥

module _ (job : Query → FileSystem → Option (Reply × FileSystem)) (fs : FileSystem) where
  -- one job after another, the last one first: the replies, and the files behind them
  unfoldable pub run_jobs : List (ℕ × Query) → Option (List (ℕ × Reply) × FileSystem)
  run_jobs [] = some ([], fs)
  run_jobs ((i, q) ∷ l) = do
    (rs, files) ← run_jobs l
    (reply, files') ← job q files
    some ((i, reply) ∷ rs, files')

  unfoldable pub replies_to : ℕ → List (ℕ × Reply) → List Reply
  replies_to i [] = []
  replies_to i ((j, r) ∷ rs) = if j == i then r ∷ replies_to i rs else replies_to i rs

  pub record Inv (l : List (ℕ × Query)) (s : Server) : Type 0 where
    pub one : (k : Kind) → total (listening k) s.allocated s.requests ≡ 1
    pub fits :
        (i : ℕ)
        → Fits
            (s.requests i).status
            (s.requests i).operation
            (s.requests i).deleted
            (s.requests i).replies
    pub fresh : (i : ℕ) → s.allocated ≤ i → s.requests i ≡ new_request pinging
    pub results : List (ℕ × Reply)
    pub ran : run_jobs l ≡ some (results, s.files)
    pub given : (i : ℕ) → (s.requests i).replies ≡ replies_to i results
