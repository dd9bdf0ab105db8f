-- ===== src/Barrier/Dissemination/Safety.antt =====
-- What the dissemination barrier promises, in every interleaving of its processes.
use advanced_os.Prelude.{
  ℕ, ◌+◌, ◌-◌, ◌<◌, ◌≤◌, ◌≡◌, inl, inr, refl, subst, Option, none, some, ltb, ltb→lt, arith,
  Bool-cases,
}
use advanced_os.Prelude.Family.{at}
use advanced_os.Barrier.Dissemination.{
  num_rounds, recv_from, Place, outside, receiving, Process, Pending, System, begin_round,
  gtmpi_barrier, Reach, begin, next,
}
use advanced_os.Barrier.Dissemination.Invariant.{IsSane, Inv, Inv-idle}
use advanced_os.Barrier.Dissemination.Counts.{entering, going_on, leaving}
use advanced_os.Barrier.Dissemination.Steps.{enter, receive, full}

-- the invariant behind a step, if there is one
abbrev pub Holds : ℕ → (ℕ → Process) → ℕ → Option (Pending × Process) → Type 0
Holds n f p none = Unit
Holds n f p (some r) = Inv n r.0 (at f p r.1)

module _ (n : ℕ) (m : Pending) (f : ℕ → Process) (p : ℕ) (lt : p < n) (inv : Inv n m f) where
  enters : (f p).place ≡ outside → Holds n f p (gtmpi_barrier n p m (f p).entered outside)
  unfolding gtmpi_barrier begin_round
  enters out = elim (Bool-cases (ltb 0 (num_rounds n))) [
    | inl more ↦ rw more (
        enter n m f p lt inv _ (receiving 0) out (omega arith)
          (ltb→lt 0 (num_rounds n) more, omega arith)
          (entering n m f p lt inv.messages out (ltb→lt 0 (num_rounds n) more)))
    | inr empty ↦ rw empty (
        enter n m f p lt inv m outside out (ground arith) tt (λ q k ltq ltk. absurd (ground arith)))
  ]

  receives :
      (r : ℕ)
      → (f p).place ≡ receiving r
      → Holds n f p (gtmpi_barrier n p m (f p).entered (receiving r))
  unfolding gtmpi_barrier begin_round
  receives r at_r =
      let sane = subst (λ place. IsSane n place (f p).entered) at_r (inv.sane p lt) in
      elim (Bool-cases (ltb 0 (m (recv_from n p r) p))) [
        | inr blocked ↦ rw blocked tt
        | inl got ↦
            let some_left = ltb→lt 0 (m (recv_from n p r) p) got in
            elim (Bool-cases (ltb (r + 1) (num_rounds n))) [
              | inl more ↦
                  let ltr = ltb→lt (r + 1) (num_rounds n) more in
                  rw (got, more)
                    (receive n m f p lt inv _ r (receiving (r + 1)) at_r some_left (omega arith)
                      (ltr, sane.1)
                      (going_on n m f p lt inv.messages r at_r sane.0 sane.1 some_left ltr))
              | inr over ↦
                  let last : r + 1 ≡ num_rounds n = ground (arith, sane.0) in
                  rw (got, over)
                    (receive n m f p lt inv _ r outside at_r some_left (omega arith) tt
                      (leaving n m f p lt inv.messages r at_r sane.0 sane.1 some_left last))
            ]
      ]

  pub moves :
      (place : Place) → (f p).place ≡ place → Holds n f p (gtmpi_barrier n p m (f p).entered place)
  moves outside e = enters e
  moves (receiving r) e = receives r e

pub Reach-Inv : {n : ℕ} {s : System} → Reach n s → Inv n s.pending s.processes
Reach-Inv {n} begin = Inv-idle n
Reach-Inv {n} (next {s} p m t lt r e) =
    subst (Holds n s.processes p) e
      (moves n s.pending s.processes p lt (Reach-Inv r) (s.processes p).place refl)

-- the calls of the barrier that a process has ended
abbrev pub passed_at : Place → ℕ → ℕ
passed_at outside entered = entered
passed_at (receiving r) entered = entered - 1

abbrev pub passed : Process → ℕ
passed t = passed_at t.place t.entered

pub passed-le :
    (n : ℕ) (m : Pending) (f : ℕ → Process) (i j : ℕ) (place : Place)
    → Inv n m f
    → i < n
    → j < n
    → (f i).place ≡ place
    → passed_at place (f i).entered ≤ (f j).entered
passed-le n m f i j outside inv lti ltj e = full n m f i lti inv j e ltj
passed-le n m f i j (receiving r) inv lti ltj e = omega (arith, inv.level i j lti ltj)

-- No process ends a call of the barrier before every process has begun its own.
pub no_process_early :
    (n : ℕ) (s : System) (i j : ℕ)
    → Reach n s
    → i < n
    → j < n
    → passed (s.processes i) ≤ (s.processes j).entered
no_process_early n s i j r lti ltj =
    passed-le n s.pending s.processes i j (s.processes i).place (Reach-Inv r) lti ltj refl
