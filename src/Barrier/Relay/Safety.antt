-- ===== src/Barrier/Relay/Safety.antt =====
-- What the tree barrier of project2/mpi/gtmpi2.c promises, in every interleaving of its processes.
use advanced_os.Prelude.{
  ℕ, ◌+◌, ◌-◌, ◌/◌, ◌≡◌, ◌≤◌, ◌<◌, true, inl, inr, subst, refl, ltb, arith, Bool-cases, ltb→lt,
  Option, none, some,
}
use advanced_os.Prelude.Family.{at}
use advanced_os.Barrier.Relay.{
  Place, outside, gathering, aborted, reporting, awaiting, waking_first, waking_second, Process,
  Pending, System, first_child, num_children, asserted, gtmpi_barrier, Reach, begin, next,
}
use advanced_os.Barrier.Relay.Invariant.{stage, finished, times, Good}
use advanced_os.Barrier.Relay.Counts.{times-le, times-entered, releases-le, source_child}
use advanced_os.Barrier.Relay.Arrivals.{enter-Good, gathered-Good}
use advanced_os.Barrier.Relay.Reports.{received-Good, report-Good}
use advanced_os.Barrier.Relay.Wakeups.{woken-Good, first-Good, second-Good}

-- the invariant behind a step, if there is one
abbrev pub Holds : ℕ → (ℕ → Process) → ℕ → Option (Pending × Process) → Type 0
Holds n f p none = Unit
Holds n f p (some r) = Good n r.0 (at f p r.1)

module _ (n p q : ℕ) (m : Pending) (f : ℕ → Process) (g : Good n m f) (lt : p < n) where
  gathers-Good :
      (c : ℕ)
      → (f p).place ≡ gathering c
      → Holds n f p (gtmpi_barrier n p q m (f p).entered (gathering c))
  unfolding gtmpi_barrier
  gathers-Good c e = elim (Bool-cases (ltb c (num_children n p))) [
    | inr over ↦ rw over (gathered-Good n p m f g lt c e (ground arith))
    | inl more ↦ elim (Bool-cases (ltb 0 (m q p))) [
      | inr blocked ↦ rw (more, blocked) tt
      | inl got ↦
          rw (more, got)
            (received-Good n p m f g lt c q e (ltb→lt c (num_children n p) more)
              (ltb→lt 0 (m q p) got))
    ]
  ]

  awaits-Good : (f p).place ≡ awaiting → Holds n f p (gtmpi_barrier n p q m (f p).entered awaiting)
  unfolding gtmpi_barrier
  awaits-Good e = elim (Bool-cases (ltb 0 (m ((p - 1) / 2) p))) [
    | inr blocked ↦ rw blocked tt
    | inl got ↦ rw got (woken-Good n p m f g lt e (ltb→lt 0 (m ((p - 1) / 2) p) got))
  ]

  step-Good :
      (place : Place)
      → (f p).place ≡ place
      → Holds n f p (gtmpi_barrier n p q m (f p).entered place)
  unfolding gtmpi_barrier
  step-Good outside e = enter-Good n p m f g lt e
  step-Good (gathering c) e = gathers-Good c e
  step-Good aborted e = tt
  step-Good reporting e = report-Good n p m f g lt e
  step-Good awaiting e = awaits-Good e
  step-Good waking_first e = first-Good n p m f g lt e
  step-Good waking_second e = second-Good n p m f g lt e

idle-Good : (n : ℕ) → Good n (λ q p. 0) (λ p. record { place = outside; entered = 0 })
unfolding stage finished
idle-Good n = record {
  begun = λ i h. ground arith;
  root = ground arith;
  going = λ i. ground arith;
  arrivals = λ c pos ltc. ground arith;
  counted = λ i. ground arith;
  wakeups = λ j pos ltj. ground arith;
  quiet = λ q p h. absurd (omega arith);
}

pub Reach-Good : {n : ℕ} {s : System} → Reach n s → Good n s.pending s.processes
Reach-Good {n} begin = idle-Good n
Reach-Good {n} (next {s = s} p q m t lt r e) =
    subst (Holds n s.processes p) e
      (step-Good n p q s.pending s.processes (Reach-Good r) lt (s.processes p).place refl)

-- the calls of the barrier that a process has ended
abbrev pub passed : Process → ℕ
passed t = times 4 t

-- In every interleaving of any number of processes that use the tree barrier any number of times, with
-- any choice of the sources of messages, no process has ended more calls than any other has begun.
pub no_process_leaves_early :
    (n : ℕ) (s : System) (i j : ℕ)
    → Reach n s
    → i < n
    → j < n
    → passed (s.processes i) ≤ (s.processes j).entered
no_process_leaves_early n s i j r lti ltj = omega (
  arith,
  times-le 2 4 (s.processes i) (omega arith),
  releases-le n s.pending s.processes (Reach-Good r) i j lti ltj,
  times-entered 0 (s.processes j),
)

-- In every state that is reached, a message that a process can receive in its loop comes from one of
-- its children, and passes the assertion.
pub only_children_gathered :
    (n : ℕ) (s : System) (p q c : ℕ)
    → Reach n s
    → p < n
    → (s.processes p).place ≡ gathering c
    → 0 < s.pending q p
    → (first_child p ≤ q) × (q < first_child p + num_children n p) × (asserted n p q ≡ true)
only_children_gathered n s p q c r lt e pos =
    let (some_parent, real, parent) =
      source_child n s.pending s.processes (Reach-Good r) q p c lt e pos in
    (omega arith, ground arith, ground arith)
