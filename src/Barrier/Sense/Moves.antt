-- ===== src/Barrier/Sense/Moves.antt =====
-- A step of the sense-reversing barrier by the place of its thread, and who has arrived.
use advanced_os.Prelude.{
  ℕ, zero, suc, ◌<◌, ◌≤◌, ◌≡◌, ◌≢◌, inl, inr, refl, ap, ◌∙◌, Bool, true, false, not, ◌==◌,
  if◌then◌else◌, arith, Bool-cases, ==_iff,
}
use advanced_os.Prelude.Family.{at, total, total-at}
use advanced_os.Barrier.Sense.{
  Pc, outside, sensed, last, reset, waiting, Thread, same, step_at, gtmp_barrier, System, move,
}
use advanced_os.Barrier.Sense.Invariant.{parity, Good, arrived_at, arrived}

pub same_self : (b : Bool) → same b b ≡ true
same_self true = refl
same_self false = refl

pub same-not : (b : Bool) → same b (not b) ≡ false
same-not true = refl
same-not false = refl

pub arrived_at-le : (s : Bool) (pc : Pc) → arrived_at s pc ≤ 1
unfolding arrived_at
arrived_at-le s (waiting m) = ground arith
arrived_at-le s outside = omega arith
arrived_at-le s (sensed m) = omega arith
arrived_at-le s (last m) = omega arith
arrived_at-le s (reset m) = omega arith

-- Who counts as arrived, waits for the episode to end.
pub arrived_at-Arrived :
    (e : ℕ) (pc : Pc) (entered passed : ℕ)
    → Good e pc entered passed
    → arrived_at (parity e) pc ≢ 0
    → (pc ≡ waiting (not (parity e))) × (entered ≡ suc e) × (passed ≡ e)
unfolding Good arrived_at
arrived_at-Arrived e (waiting m) a p (inl g) h = (ap waiting g.0, g.1, g.2)
arrived_at-Arrived e (waiting m) a p (inr g) h =
    absurd (h (ap (λ b. if same (parity e) b then 0 else 1) g.0 ∙ rw (same_self (parity e)) refl))
arrived_at-Arrived e outside a p g h = absurd (h refl)
arrived_at-Arrived e (sensed m) a p g h = absurd (h refl)
arrived_at-Arrived e (last m) a p g h = absurd g
arrived_at-Arrived e (reset m) a p g h = absurd g

module _ (s : Bool) where
  pub total-le : (n : ℕ) (f : ℕ → Thread) → total (arrived s) n f ≤ n
  unfolding total
  total-le zero f = omega arith
  total-le (suc n) f = omega (arith, total-le n f, arrived_at-le s (f n).pc)

  -- If all but one have arrived, each other one has.
  pub others_arrived :
      (n : ℕ) (f : ℕ → Thread) (i j : ℕ)
      → suc (total (arrived s) n f) ≡ n
      → i < n
      → j < n
      → j ≢ i
      → arrived s (f i) ≡ 0
      → arrived s (f j) ≢ 0
  unfolding arrived_at
  others_arrived n f i j all lti ltj ne wi wj =
      let a : Thread = record { pc = waiting (not s); entered = 0; passed = 0 } in
      let wa : arrived s a ≡ 1 = rw (same-not s) refl in
      let other : arrived s (at f i a j) ≡ arrived s (f j) = ground arith in
      absurd (
        omega (
          arith,
          total-at (arrived s) n f i a lti,
          total-at (arrived s) n (at f i a) j a ltj,
          total-le n (at (at f i a) j a),
        ))

-- The system behind a step of thread `i` from the place `pc`.
abbrev pub move_at : ℕ → ℕ → System → Pc → System
move_at n i s pc = record {
  shared = (step_at n s.shared (s.threads i) pc).0;
  threads = at s.threads i (step_at n s.shared (s.threads i) pc).1;
}

pub move-at :
    (n i : ℕ) (s : System) (pc : Pc) → (s.threads i).pc ≡ pc → move n i s ≡ move_at n i s pc
unfolding move gtmp_barrier
move-at n i s pc e = ap (move_at n i s) e

pub at_same {ℓ} : {A : Type ℓ} (f : ℕ → A) (i j : ℕ) → at f i (f i) j ≡ f j
at_same f i j = elim (Bool-cases (i == j)) [
  | inl here ↦ rw here (ap f ((==_iff i j).0 here))
  | inr there ↦ rw there refl
]

-- A thread whose sense is not the current one waits on.
pub spins :
    (n i : ℕ) (s : System) (m : Bool)
    → same s.shared.sense m ≡ false
    → move_at n i s (waiting m) ≡ s
unfolding step_at
spins n i s m h =
    ap (λ t. record { shared = s.shared; threads = at s.threads i t }) {y = s.threads i} (rw h refl)
    ∙ (λ k. record { shared = s.shared; threads = λ j. at_same s.threads i j k })
