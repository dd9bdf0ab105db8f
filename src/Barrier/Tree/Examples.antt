-- ===== src/Barrier/Tree/Examples.antt =====
-- Runs of the tree barrier of project2/omp/gtmp2.c with two threads.
use advanced_os.Prelude.{ℕ, ◌≡◌, ◌≢◌, ◌≤◌, ◌<◌, arith, refl}
use advanced_os.Barrier.Tree.{gathering, reporting, Node, gtmp_init, gtmp_barrier, Reach}
use advanced_os.Barrier.Tree.Safety.{nobody_leaves_early}
use advanced_os.Barrier.Tree.Progress.{some_thread_moves}

abbrev zeroth_moves : {f : ℕ → Node} → Reach 2 f → Reach 2 (gtmp_barrier 2 0 f)
zeroth_moves r = Reach.next 0 (omega arith) r

abbrev first_moves : {f : ℕ → Node} → Reach 2 f → Reach 2 (gtmp_barrier 2 1 f)
first_moves r = Reach.next 1 (omega arith) r

abbrev moved : (ℕ → Node) → ℕ → Node
moved f = gtmp_barrier 2 1 (gtmp_barrier 2 1 (gtmp_barrier 2 1 (gtmp_barrier 2 0 f)))

-- thread 0 waits, and thread 1 is about to report
abbrev waiting : ℕ → Node
waiting = moved (gtmp_init 2)

waiting-Reach : Reach 2 waiting
waiting-Reach = first_moves (first_moves (first_moves (zeroth_moves Reach.begin)))

nobody_leaves_early_example : (waiting 0).passed ≤ (waiting 1).entered
nobody_leaves_early_example =
    nobody_leaves_early 2 waiting 0 1 waiting-Reach (omega arith) (omega arith)

some_thread_moves_example : (i : ℕ) × (i < 2) × ((gtmp_barrier 2 i waiting i).pc ≢ (waiting i).pc)
some_thread_moves_example = some_thread_moves 2 waiting (omega arith) waiting-Reach

waiting_zeroth : (waiting 0).pc ≡ gathering
unfolding gtmp_barrier gtmp_init
waiting_zeroth = refl

waiting_first : (waiting 1).pc ≡ reporting
unfolding gtmp_barrier gtmp_init
waiting_first = refl
