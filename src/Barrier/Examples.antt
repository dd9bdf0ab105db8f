-- ===== src/Barrier/Examples.antt =====
-- The barriers at work: runs of a few steps, and the theorems at the states reached.
use advanced_os.Prelude.{ℕ, suc, ◌<◌, ◌≤◌, ◌≡◌, ◌≢◌, refl, false, Option, none, some, arith}
use advanced_os.Prelude.Family.{at}
use advanced_os.Barrier.Sense as Sense
use advanced_os.Barrier.Sense.Safety.{nobody_early}
use advanced_os.Barrier.Dissemination as Dissemination
use advanced_os.Barrier.Dissemination.Safety.{passed, no_process_early}
use advanced_os.Barrier.Dissemination.Progress.{some_process_goes_on}

-- Two threads: 1 arrives, 0 arrives last and opens the barrier, 1 leaves and comes again.
abbrev schedule : Sense.System → Sense.System
schedule s = Sense.move 2 1 (
    Sense.move 2 1 (
      Sense.move 2 0
        (Sense.move 2 0 (Sense.move 2 0 (Sense.move 2 0 (Sense.move 2 1 (Sense.move 2 1 s)))))))

schedule_lem :
    (schedule (Sense.gtmp_init 2)).threads 1
    ≡ record { pc = Sense.sensed false; entered = 2; passed = 1 }
unfolding Sense.move
schedule_lem = refl

schedule_reach : Sense.Reach 2 (schedule (Sense.gtmp_init 2))
schedule_reach = Sense.next 1 (omega arith) (
    Sense.next 1 (omega arith) (
      Sense.next 0 (omega arith) (
        Sense.next 0 (omega arith) (
          Sense.next 0 (omega arith) (
            Sense.next 0 (omega arith)
              (Sense.next 1 (omega arith) (Sense.next 1 (omega arith) Sense.begin)))))))

nobody_early_example :
    (((schedule (Sense.gtmp_init 2)).threads 1).passed
      ≤ ((schedule (Sense.gtmp_init 2)).threads 0).entered)
    × (((schedule (Sense.gtmp_init 2)).threads 1).entered
        ≤ suc ((schedule (Sense.gtmp_init 2)).threads 0).entered)
nobody_early_example =
    nobody_early 2 (schedule (Sense.gtmp_init 2)) 1 0 (omega arith) schedule_reach (omega arith)
      (omega arith)

num_rounds_lem : Dissemination.num_rounds 5 ≡ 3
unfolding Dissemination.num_rounds
num_rounds_lem = refl

-- the state behind a step of the process `p`, which leaves all as it is where it waits
abbrev after :
    Dissemination.System
    → ℕ
    → Option (Dissemination.Pending × Dissemination.Process)
    → Dissemination.System
after s p none = s
after s p (some r) = record { pending = r.0; processes = at s.processes p r.1 }

abbrev step : ℕ → ℕ → Dissemination.System → Dissemination.System
step n p s =
    after s p
      (Dissemination.gtmpi_barrier n p s.pending (s.processes p).entered (s.processes p).place)

after_reach :
    (n p : ℕ) (s : Dissemination.System)
    (o : Option (Dissemination.Pending × Dissemination.Process))
    → p < n
    → Dissemination.Reach n s
    → Dissemination.gtmpi_barrier n p s.pending (s.processes p).entered (s.processes p).place ≡ o
    → Dissemination.Reach n (after s p o)
after_reach n p s none lt r e = r
after_reach n p s (some x) lt r e = Dissemination.next p x.0 x.1 lt r e

step_reach :
    (n p : ℕ) (s : Dissemination.System)
    → p < n
    → Dissemination.Reach n s
    → Dissemination.Reach n (step n p s)
step_reach n p s lt r = after_reach n p s _ lt r refl

-- Two processes: both send, and 1 receives what 0 has sent and is through.
abbrev half_way : Dissemination.System
half_way = step 2 1 (step 2 1 (step 2 0 Dissemination.idle))

half_way_lem : passed (half_way.processes 1) ≡ 1
unfolding Dissemination.gtmpi_barrier Dissemination.num_rounds
half_way_lem = refl

half_way_reach : Dissemination.Reach 2 half_way
half_way_reach = step_reach 2 1 (step 2 1 (step 2 0 Dissemination.idle)) (omega arith) (
    step_reach 2 1 (step 2 0 Dissemination.idle) (omega arith)
      (step_reach 2 0 Dissemination.idle (omega arith) Dissemination.begin))

no_process_early_example : passed (half_way.processes 1) ≤ (half_way.processes 0).entered
no_process_early_example =
    no_process_early 2 half_way 1 0 half_way_reach (omega arith) (omega arith)

some_process_goes_on_example :
    (p : ℕ) × (p < 2)
    × (Dissemination.gtmpi_barrier 2 p half_way.pending
          (half_way.processes p).entered
          (half_way.processes p).place
        ≢ none)
some_process_goes_on_example = some_process_goes_on 2 half_way (omega arith) half_way_reach
