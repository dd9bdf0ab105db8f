-- ===== src/Barrier/Relay/Examples.antt =====
-- Runs of the tree barrier of project2/mpi/gtmpi2.c with two processes.
use advanced_os.Prelude.{ℕ, ◌+◌, ◌≡◌, ◌≢◌, ◌≤◌, ◌<◌, true, refl, none, arith}
use advanced_os.Prelude.Family.{at}
use advanced_os.Barrier.Relay.{
  Place, gathering, reporting, awaiting, Process, System, idle, first_child, num_children, send,
  asserted, gtmpi_barrier, Reach, begin, next,
}
use advanced_os.Barrier.Relay.Safety.{passed, no_process_leaves_early, only_children_gathered}
use advanced_os.Barrier.Relay.Progress.{some_process_moves}

abbrev at_place : Place → Process
at_place place = record { place = place; entered = 1 }

-- process 1 has reported, and process 0 gathers
abbrev reported : System
reported = record {
  pending = send idle.pending 1 0;
  processes =
      at
        (at (at (at idle.processes 0 (at_place (gathering 0))) 1 (at_place (gathering 0))) 1
          (at_place reporting))
        1 (at_place awaiting);
}

reported-Reach : Reach 2 reported
unfolding gtmpi_barrier
reported-Reach =
    next 1 0 (send idle.pending 1 0) (at_place awaiting) (omega arith)
      (next 1 0 idle.pending (at_place reporting) (omega arith)
        (next 1 0 idle.pending (at_place (gathering 0)) (omega arith)
          (next 0 0 idle.pending (at_place (gathering 0)) (omega arith) begin refl) refl)
        refl)
      refl

no_process_leaves_early_example : passed (reported.processes 1) ≤ (reported.processes 0).entered
no_process_leaves_early_example =
    no_process_leaves_early 2 reported 1 0 reported-Reach (omega arith) (omega arith)

reported_pending : 0 < reported.pending 1 0
unfolding send
reported_pending = omega arith

only_children_gathered_example :
    (first_child 0 ≤ 1) × (1 < first_child 0 + num_children 2 0) × (asserted 2 0 1 ≡ true)
only_children_gathered_example =
    only_children_gathered 2 reported 0 1 0 reported-Reach (omega arith) refl reported_pending

some_process_moves_example :
    (p : ℕ) × (p < 2)
    × ((q : ℕ) × (gtmpi_barrier 2 p q reported.pending
            (reported.processes p).entered
            (reported.processes p).place
          ≢ none))
some_process_moves_example = some_process_moves 2 reported (omega arith) reported-Reach
