-- ===== src/Barrier/Sense/Safety.antt =====
-- What the sense-reversing barrier promises, in every interleaving of its threads.
use advanced_os.Prelude.{
  ℕ, zero, suc, ◌<◌, ◌≤◌, ◌≡◌, ◌≢◌, inl, inr, refl, ap, sym, subst, ◌∙◌, Bool, ◌==◌, arith,
  ℕ_discrete, Bool-cases,
}
use advanced_os.Prelude.Family.{total, total-eq-zero}
use advanced_os.Barrier.Sense.{
  Pc, outside, sensed, last, reset, waiting, Thread, Shared, same, step_at, gtmp_barrier, System,
  gtmp_init, move, Reach, begin, next,
}
use advanced_os.Barrier.Sense.Invariant.{
  parity, Good, arrived_at, arrived, Closing, Gathering, Phase,
}
use advanced_os.Barrier.Sense.Steps.{gathering_move, closer_moves, other_spins}

pub init-Gathering : (n : ℕ) → 0 < n → Gathering n 0 (gtmp_init n)
unfolding parity Good arrived_at
init-Gathering n pos = record {
  sense = refl;
  missing = pos;
  counted =
      omega (arith, total-eq-zero (arrived (parity 0)) n (gtmp_init n).threads (λ i lt. refl));
  good = λ i lt. (refl, refl);
}

abbrev pub Episode : ℕ → System → Type 0
Episode n s = (e : ℕ) × Phase n e s

move-Episode : (n i : ℕ) (s : System) → i < n → Episode n s → Episode n (move n i s)
move-Episode n i s lt (e, inl g) = elim (gathering_move n e i s lt g) [
  | inl stays ↦ (e, inl stays)
  | inr (k, c, _) ↦ (e, inr (k, c))
]
move-Episode n i s lt (e, inr (k, c)) = elim (ℕ_discrete i k) [
  | no other ↦ subst (Episode n) (sym (other_spins n e k s c i lt other)) (e, inr (k, c))
  | yes eq ↦
      subst (λ j. Episode n (move n j s)) (sym eq)
        (elim (closer_moves n e k s c) [ inl stays ↦ (e, stays) | inr opened ↦ (suc e, opened) ])
]

Reach-Episode : {n : ℕ} {s : System} → 0 < n → Reach n s → Episode n s
Reach-Episode {n} pos begin = (0, inl (init-Gathering n pos))
Reach-Episode {n} pos (next {s} i lt r) = move-Episode n i s lt (Reach-Episode pos r)

-- In the episode `e` a thread has ended at most `e` calls, and begun `e` or one more.
abbrev pub Counts : ℕ → ℕ → ℕ → Type 0
Counts e entered passed = (passed ≤ e) × (e ≤ entered) × (entered ≤ suc e)

Good-Counts :
    (e : ℕ) (pc : Pc) (entered passed : ℕ) → Good e pc entered passed → Counts e entered passed
unfolding Good
Good-Counts e outside a p g = (omega arith, omega arith, omega arith)
Good-Counts e (sensed m) a p g = (omega (arith, g.2), omega (arith, g.1), omega (arith, g.1))
Good-Counts e (last m) a p g = absurd g
Good-Counts e (reset m) a p g = absurd g
Good-Counts e (waiting m) a p (inl g) = (omega (arith, g.2), omega (arith, g.1), omega (arith, g.1))
Good-Counts e (waiting m) a p (inr g) = (omega (arith, g.2), omega (arith, g.1), omega (arith, g.1))

pub Phase-Counts :
    (n e : ℕ) (s : System)
    → Phase n e s
    → (i : ℕ) → i < n
    → Counts e (s.threads i).entered (s.threads i).passed
Phase-Counts n e s (inl g) i lt =
    Good-Counts e (s.threads i).pc (s.threads i).entered (s.threads i).passed (g.good i lt)
Phase-Counts n e s (inr (k, c)) i lt = elim (ℕ_discrete i k) [
  | yes eq ↦
      subst (λ j. Counts e (s.threads j).entered (s.threads j).passed) (sym eq)
        (omega (arith, c.passed), omega (arith, c.entered), omega (arith, c.entered))
  | no other ↦
      let h = c.others i lt other in (omega (arith, h.2), omega (arith, h.1), omega (arith, h.1))
]

-- With at least one thread: no thread ends a call of the barrier before every thread has begun its
-- own, and no thread gets more than one call ahead.
pub nobody_early :
    (n : ℕ) (s : System) (i j : ℕ)
    → 0 < n
    → Reach n s
    → i < n
    → j < n
    → ((s.threads i).passed ≤ (s.threads j).entered)
      × ((s.threads i).entered ≤ suc (s.threads j).entered)
nobody_early n s i j pos r lti ltj =
    let (e, phase) = Reach-Episode pos r in
    let a = Phase-Counts n e s phase i lti in
    let b = Phase-Counts n e s phase j ltj in (omega (arith, a.0, b.1), omega (arith, a.2, b.1))

not_arrived :
    (s : Bool) (n : ℕ) (f : ℕ → Thread)
    → total (arrived s) n f < n
    → (i : ℕ) × (i < n) × (arrived s (f i) ≡ 0)
unfolding total
not_arrived s zero f h = absurd (omega arith)
not_arrived s (suc n) f h = elim (ℕ_discrete (arrived s (f n)) 0) [
  | yes zero_here ↦ (n, omega arith, zero_here)
  | no here ↦ let (i, lt, at_i) = not_arrived s n f (omega arith) in (i, omega arith, at_i)
]

-- The step of the thread leads to another place.
abbrev pub GoesOn : ℕ → Shared → Thread → Type 0
GoesOn n b t = (gtmp_barrier n b t).1.pc ≢ t.pc

step_at-GoesOn :
    (n e : ℕ) (b : Shared) (t : Thread) (pc : Pc) (entered passed : ℕ)
    → b.sense ≡ parity e
    → Good e pc entered passed
    → arrived_at (parity e) pc ≡ 0
    → (step_at n b t pc).1.pc ≢ pc
unfolding step_at Good arrived_at
step_at-GoesOn n e b t outside a p sense g h = λ eq. cc
step_at-GoesOn n e b t (sensed m) a p sense g h = elim (Bool-cases (b.count == 1)) [
  | inl one ↦ rw one (λ eq. cc)
  | inr more ↦ rw more (λ eq. cc)
]
step_at-GoesOn n e b t (last m) a p sense g h = absurd g
step_at-GoesOn n e b t (reset m) a p sense g h = absurd g
step_at-GoesOn n e b t (waiting m) a p sense g h = elim (Bool-cases (same (parity e) m)) [
  | inl open_ ↦ rw (ap (λ x. same x m) sense ∙ open_) (λ eq. cc)
  | inr closed ↦ absurd (ground arith)
]

pub closer-GoesOn : (n e k : ℕ) (s : System) → Closing n e k s → GoesOn n s.shared (s.threads k)
unfolding gtmp_barrier step_at
closer-GoesOn n e k s c = elim c.place [
  | inl (at_last, _) ↦ rw at_last (λ eq. cc)
  | inr (at_reset, _) ↦ rw at_reset (λ eq. cc)
]

pub Episode-GoesOn :
    (n : ℕ) (s : System) → Episode n s → (i : ℕ) × (i < n) × GoesOn n s.shared (s.threads i)
unfolding gtmp_barrier
Episode-GoesOn n s (e, inl g) =
    let (i, lt, at_i) = not_arrived (parity e) n s.threads (omega (arith, g.counted, g.missing)) in
    (
      i,
      lt,
      step_at-GoesOn n e s.shared (s.threads i) (s.threads i).pc (s.threads i).entered
          (s.threads i).passed g.sense (g.good i lt) at_i,
    )
Episode-GoesOn n s (e, inr (k, c)) = (k, c.closer, closer-GoesOn n e k s c)

-- With at least one thread: in every reachable state some thread's step leads on, so that the
-- threads never all spin.
pub some_thread-GoesOn :
    (n : ℕ) (s : System) → 0 < n → Reach n s → (i : ℕ) × (i < n) × GoesOn n s.shared (s.threads i)
some_thread-GoesOn n s pos r = Episode-GoesOn n s (Reach-Episode pos r)
