-- ===== src/Barrier/Tree/Safety.antt =====
-- No thread leaves the tree barrier of project2/omp/gtmp2.c before all have come.
use advanced_os.Prelude.{ℕ, ◌+◌, ◌*◌, ◌≡◌, ◌≤◌, ◌<◌, arith, inl, inr, refl, subst, Bool-cases}
use advanced_os.Prelude.Family.{at}
use advanced_os.Barrier.Sense.{same}
use advanced_os.Barrier.Sense.Invariant.{parity}
use advanced_os.Barrier.Tree.{
  Pc, gathering, resetting, reporting, awaiting, waking_first, waking_second, turning, outside,
  Node, some_child, step_at, wake, gtmp_init, gtmp_barrier, Reach,
}
use advanced_os.Barrier.Tree.Invariant.{stage, Good}
use advanced_os.Barrier.Tree.Chains.{times-le, times-entered, releases-le-resets}
use advanced_os.Barrier.Tree.Arrivals.{enter-Good, gathered-Good, reset-Good, report-Good}
use advanced_os.Barrier.Tree.Wakeups.{released-Good, turn-Good}
use advanced_os.Barrier.Tree.Stores.{waked-Good}

module _ (n i : ℕ) (f : ℕ → Node) (g : Good n f) (lt : i < n) where
  gather-Good : (f i).pc ≡ gathering → Good n (step_at n i f gathering)
  unfolding step_at
  gather-Good p = elim (Bool-cases (some_child (f i).cn)) [
    | inl some ↦ rw some g
    | inr none ↦ rw none (gathered-Good n i f g lt p none)
  ]

  await-Good : (f i).pc ≡ awaiting → Good n (step_at n i f awaiting)
  unfolding step_at
  await-Good p = elim (Bool-cases (same (f i).parent_sense (f i).sense)) [
    | inl seen ↦ rw seen (released-Good n i f g lt p seen)
    | inr unseen ↦ rw unseen g
  ]

  first-Good : (f i).pc ≡ waking_first → Good n (step_at n i f waking_first)
  unfolding step_at stage
  first-Good p =
      subst (λ c. Good n (wake n c (f i).sense (at f i (record (f i) { pc = waking_second }))))
        {x = i * 2 + 1 + 0} {y = i * 2 + 1} (omega arith)
        (waked-Good n i f g lt 0 waking_first waking_second (omega arith) refl refl p)

  second-Good : (f i).pc ≡ waking_second → Good n (step_at n i f waking_second)
  unfolding step_at stage
  second-Good p =
      subst (λ c. Good n (wake n c (f i).sense (at f i (record (f i) { pc = turning }))))
        {x = i * 2 + 1 + 1} {y = i * 2 + 2} (omega arith)
        (waked-Good n i f g lt 1 waking_second turning (omega arith) refl refl p)

  step-Good : (pc : Pc) → (f i).pc ≡ pc → Good n (step_at n i f pc)
  step-Good gathering p = gather-Good p
  step-Good resetting p = reset-Good n i f g lt p
  step-Good reporting p = report-Good n i f g lt p
  step-Good awaiting p = await-Good p
  step-Good waking_first p = first-Good p
  step-Good waking_second p = second-Good p
  step-Good turning p = turn-Good n i f g lt p
  step-Good outside p = enter-Good n i f g lt p

init-Good : (n : ℕ) → Good n (gtmp_init n)
unfolding gtmp_init stage parity
init-Good n = record {
  begun = λ j h. ground arith;
  ended = λ j. ground arith;
  senses = λ j. ground arith;
  root = ground arith;
  arrivals = λ c pos ltc. ground arith;
  quiet = λ j k h ltk. ground arith;
  told = λ j pos ltj. ground arith;
  released = λ j pos ltj. ground arith;
  real = λ j k h. ground arith;
}

pub Reach-Good : {n : ℕ} {f : ℕ → Node} → Reach n f → Good n f
unfolding gtmp_barrier
Reach-Good {n} Reach.begin = init-Good n
Reach-Good {n} (Reach.next {f = f} i lt r) = step-Good n i f (Reach-Good r) lt (f i).pc refl

-- In every interleaving of any number of threads that use the tree barrier any number of times, no
-- thread has ended more calls than any other has begun.
pub nobody_leaves_early :
    (n : ℕ) (f : ℕ → Node) (i j : ℕ) → Reach n f → i < n → j < n → (f i).passed ≤ (f j).entered
nobody_leaves_early n f i j r lti ltj =
    let g = Reach-Good r in
    omega (
      arith,
      g.ended i,
      times-le 3 6 (f i) (omega arith),
      releases-le-resets n f g i j lti ltj,
      times-entered 1 (f j),
    )
