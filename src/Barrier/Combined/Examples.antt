-- ===== src/Barrier/Combined/Examples.antt =====
-- Two processes of one thread each: both arrive and send, and process 1 goes through.
use advanced_os.Prelude.{ℕ, ◌<◌, ◌≤◌, ◌≡◌, refl, Option, none, some, List, [], ◌∷◌, arith}
use advanced_os.Barrier.Dissemination as Dissemination
use advanced_os.Barrier.Sense as Sense
use advanced_os.Barrier.Combined.{System, combined_init, combined_barrier, Reach, begin, next}
use advanced_os.Barrier.Combined.Safety.{no_thread_early}
use advanced_os.Barrier.Combined.Progress.{Advances, some_thread-Advances}

-- the state behind a step, which leaves all as it is where it waits
abbrev after : System → Option System → System
after s none = s
after s (some s') = s'

after_reach :
    (n w p i : ℕ) (s : System) (o : Option System)
    → p < n
    → i < w
    → Reach n w s
    → combined_barrier n w p i s ≡ o
    → Reach n w (after s o)
after_reach n w p i s none ltp lti r e = r
after_reach n w p i s (some s') ltp lti r e = next p i s' ltp lti r e

-- The thread 0 of process 0 or 1 goes on.
data Turn : Type 0 where
  first : Turn
  second : Turn

abbrev rank : Turn → ℕ
rank first = 0
rank second = 1

rank-lt : (t : Turn) → rank t < 2
rank-lt first = omega arith
rank-lt second = omega arith

abbrev run : List Turn → System → System
run [] s = s
run (t ∷ ts) s = run ts (after s (combined_barrier 2 1 (rank t) 0 s))

run_reach : (ts : List Turn) (s : System) → Reach 2 1 s → Reach 2 1 (run ts s)
run_reach [] s r = r
run_reach (t ∷ ts) s r =
    run_reach ts (after s (combined_barrier 2 1 (rank t) 0 s))
      (after_reach 2 1 (rank t) 0 s _ (rank-lt t) (omega arith) r refl)

abbrev turns : List Turn
turns = first ∷ first ∷ first ∷ second ∷ second ∷ second ∷ second ∷ second ∷ second ∷ []

abbrev through : System
through = run turns (combined_init 1)

through_lem : ((through.nodes 1).team.threads 0).passed ≡ 1
unfolding combined_barrier Dissemination.gtmpi_barrier Dissemination.num_rounds Sense.move
through_lem = refl

no_thread_early_example :
    ((through.nodes 1).team.threads 0).passed ≤ ((through.nodes 0).team.threads 0).entered
no_thread_early_example =
    no_thread_early 2 1 through 1 0 0 0 (omega arith) (run_reach turns (combined_init 1) begin)
      (omega arith) (omega arith) (omega arith) (omega arith)

some_thread-Advances_example : (p : ℕ) × (p < 2) × (i : ℕ) × (i < 1) × Advances 2 1 p i through
some_thread-Advances_example =
    some_thread-Advances 2 1 through (omega arith) (omega arith)
      (run_reach turns (combined_init 1) begin)
