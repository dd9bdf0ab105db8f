-- ===== src/Barrier/Sense/Steps.antt =====
-- Each step of the sense-reversing barrier keeps the invariant, or begins the next episode.
use advanced_os.Prelude.{
  ℕ, suc, ◌+◌, ◌-◌, ◌<◌, ◌≡◌, ◌≢◌, ◌⊎◌, inl, inr, refl, ap, sym, subst, ◌∙◌, Bool, true, false, not,
  ◌==◌, arith, ℕ_discrete, Bool-cases, ==_iff,
}
use advanced_os.Prelude.Family.{at, total-eq-zero}
use advanced_os.Barrier.Sense.{
  Pc, outside, sensed, last, reset, waiting, Thread, same, step_at, System, move,
}
use advanced_os.Barrier.Sense.Invariant.{
  parity, Good, GoodThread, arrived_at, arrived, Closing, Gathering, Gathering-at, Phase,
  Closing-at, at_here, at_there,
}
use advanced_os.Barrier.Sense.Moves.{
  same_self, same-not, arrived_at-Arrived, others_arrived, move_at, move-at, spins,
}

-- What a step of a gathering leads to: a gathering, or the last thread has arrived.
abbrev pub Gathered : ℕ → ℕ → System → Type 0
Gathered n e s =
    Gathering n e s ⊎ ((k : ℕ) × Closing n e k s × ((s.threads k).pc ≡ last (not (parity e))))

module _ (n e i : ℕ) (s : System) (lt : i < n) (g : Gathering n e s) where
  abbrev t : Thread
  t = s.threads i

  was : (pc : Pc) → t.pc ≡ pc → arrived (parity e) t ≡ arrived_at (parity e) pc
  was pc at_pc = ap (arrived_at (parity e)) at_pc

  enters : t.pc ≡ outside → Good e outside t.entered t.passed → Gathered n e (move_at n i s outside)
  unfolding step_at Good arrived_at
  enters at_pc good = inl (
      Gathering-at n e i s s.shared
        (record t { pc = sensed (not s.shared.sense); entered = t.entered + 1 }) lt g g.sense
        g.missing (omega (arith, was outside at_pc)) (ap not g.sense, omega arith, good.1))

  arrives :
      (m : Bool)
      → t.pc ≡ sensed m
      → Good e (sensed m) t.entered t.passed
      → (s.shared.count == 1) ≡ false
      → Gathered n e (move_at n i s (sensed m))
  unfolding step_at Good arrived_at
  arrives m at_pc good more =
      let away : same (parity e) m ≡ false = ap (same (parity e)) good.0 ∙ same-not (parity e) in
      rw more (
        inl (
          Gathering-at n e i s (record s.shared { count = s.shared.count - 1 })
            (record t { pc = waiting m }) lt g g.sense (ground (arith, g.missing))
            (rw away (ground (arith, g.missing, was (sensed m) at_pc))) (inl good)))

  arrives_last :
      (m : Bool)
      → t.pc ≡ sensed m
      → Good e (sensed m) t.entered t.passed
      → (s.shared.count == 1) ≡ true
      → Gathered n e (move_at n i s (sensed m))
  unfolding step_at Good arrived_at
  arrives_last m at_pc good one =
      let one' = (==_iff s.shared.count 1).0 one in
      rw one (
        inr (
          i,
          Closing-at n e i s.threads (record s.shared { count = s.shared.count - 1 })
              (record t { pc = last m }) lt g.sense (inl (ap last good.0, omega arith)) good.1
              good.2
              (λ j ltj ne.
                arrived_at-Arrived e (s.threads j).pc (s.threads j).entered (s.threads j).passed
                  (g.good j ltj)
                  (others_arrived (parity e) n s.threads i j (omega (arith, g.counted)) lt ltj ne
                    (was (sensed m) at_pc))),
          ap (λ (u : Thread). u.pc) (at_here s.threads i (record t { pc = last m }))
              ∙ ap last good.0,
        ))

  leaves_or_spins :
      (m : Bool)
      → t.pc ≡ waiting m
      → Good e (waiting m) t.entered t.passed
      → Gathered n e (move_at n i s (waiting m))
  unfolding step_at Good arrived_at
  leaves_or_spins m at_pc (inl good) =
      let away : same s.shared.sense m ≡ false =
        ap (λ b. same b m) g.sense ∙ ap (same (parity e)) good.0 ∙ same-not (parity e) in
      subst (Gathered n e) (sym (spins n i s m away)) (inl g)
  leaves_or_spins m at_pc (inr good) =
      let here : same (parity e) m ≡ true = ap (same (parity e)) good.0 ∙ same_self (parity e) in
      let weighs_none : arrived_at (parity e) (waiting m) ≡ 0 = rw here refl in
      let here' : same s.shared.sense m ≡ true = ap (λ b. same b m) g.sense ∙ here in
      rw here' (
        inl (
          Gathering-at n e i s s.shared (record t { pc = outside; passed = t.passed + 1 }) lt g
            g.sense g.missing (omega (arith, was (waiting m) at_pc, weighs_none))
            (good.1, omega arith)))

  gathering_at :
      (pc : Pc) → t.pc ≡ pc → Good e pc t.entered t.passed → Gathered n e (move_at n i s pc)
  unfolding Good
  gathering_at outside at_pc good = enters at_pc good
  gathering_at (sensed m) at_pc good = elim (Bool-cases (s.shared.count == 1)) [
    | inl one ↦ arrives_last m at_pc good one
    | inr more ↦ arrives m at_pc good more
  ]
  gathering_at (last m) at_pc good = absurd good
  gathering_at (reset m) at_pc good = absurd good
  gathering_at (waiting m) at_pc good = leaves_or_spins m at_pc good

  pub gathering_move : Gathered n e (move n i s)
  gathering_move =
      subst (Gathered n e) (sym (move-at n i s t.pc refl)) (gathering_at t.pc refl (g.good i lt))

module _ (n e i : ℕ) (s : System) (c : Closing n e i s) where
  -- The others wait meanwhile.
  pub other_spins : (j : ℕ) → j < n → j ≢ i → move n j s ≡ s
  other_spins j ltj ne =
      move-at n j s (waiting (not (parity e))) (c.others j ltj ne).0
      ∙ spins n j s (not (parity e))
          (ap (λ b. same b (not (parity e))) c.sense ∙ same-not (parity e))

  abbrev opener : Thread
  opener = record (s.threads i) { pc = outside; passed = (s.threads i).passed + 1 }

  woken_none : (j : ℕ) → j < n → arrived (not (parity e)) (at s.threads i opener j) ≡ 0
  unfolding arrived_at
  woken_none j ltj = elim (ℕ_discrete j i) [
    | yes eq ↦
        ap (λ k. arrived (not (parity e)) (at s.threads i opener k)) eq
        ∙ ap (arrived (not (parity e))) (at_here s.threads i opener)
    | no other ↦
        ap (arrived (not (parity e))) (at_there s.threads i j opener other)
        ∙ ap (arrived_at (not (parity e))) (c.others j ltj other).0
        ∙ rw (same_self (not (parity e))) refl
  ]

  woken : (j : ℕ) → j < n → GoodThread (suc e) (at s.threads i opener j)
  unfolding Good parity
  woken j ltj = elim (ℕ_discrete j i) [
    | yes eq ↦
        subst (λ k. GoodThread (suc e) (at s.threads i opener k)) (sym eq)
          (subst (GoodThread (suc e)) (sym (at_here s.threads i opener))
            (c.entered, omega (arith, c.passed)))
    | no other ↦
        let h = c.others j ltj other in
        subst (GoodThread (suc e)) (sym (at_there s.threads i j opener other)) (
          subst (λ pc. Good (suc e) pc (s.threads j).entered (s.threads j).passed) (sym h.0)
            (inr (refl, h.1, omega (arith, h.2))))
  ]

  -- The next episode begins: all others still wait, with its sense.
  opens : s.shared.count ≡ n → Gathering n (suc e) (move_at n i s (reset (not (parity e))))
  unfolding step_at parity
  opens full = record {
    sense = refl;
    missing = omega (arith, c.closer);
    counted =
        omega
          (arith, total-eq-zero (arrived (not (parity e))) n (at s.threads i opener) woken_none);
    good = woken;
  }

  -- The last thread stores the count.
  pub closer_resets :
      (s.threads i).pc ≡ last (not (parity e))
      → Closing n e i (move n i s) × (((move n i s).threads i).pc ≡ reset (not (parity e)))
  unfolding step_at
  closer_resets at_last =
      let u : Thread = record (s.threads i) { pc = reset (not (parity e)) } in
      subst (λ s'. Closing n e i s' × ((s'.threads i).pc ≡ reset (not (parity e))))
        (sym (move-at n i s (last (not (parity e))) at_last))
        (
          Closing-at n e i s.threads (record s.shared { count = n }) u c.closer c.sense
              (inr (refl, refl)) c.entered c.passed c.others,
          ap (λ (x : Thread). x.pc) (at_here s.threads i u),
        )

  -- The last thread turns the sense, and the next episode begins.
  pub closer_opens :
      (s.threads i).pc ≡ reset (not (parity e))
      → s.shared.count ≡ n
      → Gathering n (suc e) (move n i s)
  unfolding step_at
  closer_opens at_reset full =
      subst (Gathering n (suc e)) (sym (move-at n i s (reset (not (parity e))) at_reset))
        (opens full)

  pub closer_moves : Phase n e (move n i s) ⊎ Phase n (suc e) (move n i s)
  closer_moves = elim c.place [
    | inl (at_last, none_left) ↦ inl (inr (i, (closer_resets at_last).0))
    | inr (at_reset, full) ↦ inr (inl (closer_opens at_reset full))
  ]
