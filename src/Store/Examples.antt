-- ===== src/Store/Examples.antt =====
-- Runs of the store, as tests and instances of its theorems.
use advanced_os.Prelude.{ℕ, ◌+◌, ◌≡◌, ◌≤◌, ◌≢◌, ◌⊎◌, refl, none, some, List, [], ◌∷◌, length, arith}
use advanced_os.Prelude.Family.{at, total}
use advanced_os.Store.{
  finish, completed, Server, start, Step, Reach, handle_rpc, thread_loop, pool_size,
}
use advanced_os.Store.Invariant.{listening, holds}
use advanced_os.Store.Safety.{answered_once, one_listener}
use advanced_os.Store.Bids.{BidReply, Event, ended, round}

-- A client's request arrives, is seen and queued; the thread takes the job, allocates the next
-- instance, and answers.
abbrev s1 : Server
s1 = record start { calls = at start.calls 0 (record (start.calls 0) { operation = completed }) }

abbrev s2 : Server
s2 = elim (handle_rpc 0 s1) [ none ↦ s1 | some s ↦ s ]

abbrev s3 : Server
s3 = thread_loop 0 s2

abbrev s4 : Server
s4 = thread_loop 0 s3

abbrev s5 : Server
s5 = thread_loop 0 s4

r5 : Reach 1 s5
unfolding start handle_rpc thread_loop
r5 =
    Reach.next
      (Reach.next
        (Reach.next
          (Reach.next (Reach.next Reach.begin (Step.arrive 0 (omega arith) refl refl))
            (Step.rpc 0 (omega arith) refl refl))
          (Step.thread 0 (omega arith) refl))
        (Step.thread 0 (omega arith) refl))
      (Step.thread 0 (omega arith) refl)

answered_lem : ((s5.calls 0).status ≡ finish) × ((s5.calls 0).answers ≡ 1)
unfolding start handle_rpc thread_loop
answered_lem = (refl, refl)

one_listener_example :
    total listening s5.allocated s5.calls + length s5.event_queue + total holds 1 s5.threads ≡ 1
one_listener_example = one_listener 1 s5 r5

answered_once_example :
    (((s5.calls 0).operation ≢ completed) ⊎ (handle_rpc 0 s5 ≢ none)) × ((s5.calls 0).answers ≤ 1)
answered_once_example = answered_once 1 s5 0 r5

-- The pool is at least as large as the machine, whatever was asked for.
pool_size_lem : pool_size 8 4 ≡ 8
unfolding pool_size
pool_size_lem = refl

abbrev bid : ℕ → BidReply ℕ
bid n = record { price = n; vendor_id = b'v' ∷ [] }

-- Two calls end, with a reply and an error, before the first is read.
abbrev ends : List (Event ℕ)
ends = ended (some (bid 3)) ∷ ended none ∷ round ∷ ended (some (bid 5)) ∷ round ∷ round ∷ []
