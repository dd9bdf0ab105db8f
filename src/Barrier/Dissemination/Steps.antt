-- ===== src/Barrier/Dissemination/Steps.antt =====
-- Each step of the dissemination barrier keeps the invariant.
use advanced_os.Prelude.{
  ℕ, suc, ◌+◌, ◌-◌, ◌%◌, ◌^◌, ◌<◌, ◌≤◌, ◌≡◌, inl, inr, refl, ap, sym, subst, ◌∙◌, arith, dec_lt,
  ℕ_discrete,
}
use native.Mathlib.Nat.{mod-eq_of_lt}
use advanced_os.Prelude.Family.{at}
use advanced_os.Barrier.Dissemination.{
  num_rounds, send_to, recv_from, Place, outside, receiving, Process, Pending,
}
use advanced_os.Barrier.Dissemination.Rounds.{
  num_rounds-reaches, num_rounds-least, recv_from-lt, send_to-recv_from, power-lt, doubled,
  distance,
}
use advanced_os.Barrier.Dissemination.Messages.{Balanced}
use advanced_os.Barrier.Dissemination.Invariant.{
  sent, received, sent_by, received_by, sent_counts, received_counts, rounds_over, IsSane, Inv,
  everywhere, at_here,
}

power-le : (j k : ℕ) → j ≤ k → 2 ^ j ≤ 2 ^ k
power-le j k h = elim (ℕ_discrete j k) [
  | yes eq ↦ subst (λ x. 2 ^ j ≤ 2 ^ x) eq (omega arith)
  | no ne ↦ omega (arith, power-lt j k (omega arith))
]

-- At the place `place` after `over` rounds.
abbrev IsOver : ℕ → ℕ → Place → Type 0
IsOver n over outside = num_rounds n ≡ over
IsOver n over (receiving r) = r ≡ over

over-rounds_over : (n over : ℕ) (place : Place) → IsOver n over place → rounds_over n place ≡ over
over-rounds_over n over outside h = h
over-rounds_over n over (receiving r) h = h

module _ (n : ℕ) (m : Pending) (f : ℕ → Process) (p : ℕ) (lt : p < n) (inv : Inv n m f) where
  IsSane-at :
      (t : Process)
      → IsSane n t.place t.entered
      → (q : ℕ) → q < n
      → IsSane n (at f p t q).place (at f p t q).entered
  IsSane-at t h q =
      everywhere (λ x u. x < n → IsSane n u.place u.entered) f p t (λ _. h)
        (λ x ne ltx. inv.sane x ltx) q

  -- All rounds over, everyone has begun as many calls.
  pub full : (q : ℕ) → (f p).place ≡ outside → q < n → (f p).entered ≤ (f q).entered
  full q out ltq =
      let (d, ltd, h) = distance n p q lt ltq in
      inv.near p q d lt ltq ltd h (
        subst (λ place. d < 2 ^ rounds_over n place) (sym out)
          (omega (arith, num_rounds-reaches n)))

  -- Who has sent its message of round `r` in the call `e`, has heard from all within `2 ^ r`.
  passed_on :
      (s r q d e : ℕ) (place : Place)
      → (f s).place ≡ place
      → s < n
      → q < n
      → d < n
      → (q + d) % n ≡ s
      → d < 2 ^ r
      → r < num_rounds n
      → 0 < e
      → e ≤ sent place (f s).entered r
      → e ≤ (f q).entered
  unfolding sent
  passed_on s r q d e outside at_s lts ltq ltd h near ltr pos got =
      let near' : d < 2 ^ rounds_over n (f s).place =
        subst (λ place. d < 2 ^ rounds_over n place) (sym at_s)
          (omega (arith, near, power-lt r (num_rounds n) ltr)) in
      omega (arith, got, inv.near s q d lts ltq ltd h near')
  passed_on s r q d e (receiving k) at_s lts ltq ltd h near ltr pos got = elim (dec_lt k r) [
    | yes before ↦ ground (arith, got, inv.level s q lts ltq)
    | no le ↦
        let near' : d < 2 ^ rounds_over n (f s).place =
          subst (λ place. d < 2 ^ rounds_over n place) (sym at_s)
            (omega (arith, near, power-le r k (omega arith))) in
        ground (arith, got, inv.near s q d lts ltq ltd h near')
  ]

  -- The process that `p` receives from has, with everyone near it, begun as many calls.
  heard :
      (r q d : ℕ)
      → (f p).place ≡ receiving r
      → 0 < m (recv_from n p r) p
      → q < n
      → d < n
      → (q + d) % n ≡ recv_from n p r
      → d < 2 ^ r
      → (f p).entered ≤ (f q).entered
  unfolding sent received
  heard r q d at_r some_left ltq ltd h near =
      let sane = subst (λ place. IsSane n place (f p).entered) at_r (inv.sane p lt) in
      let small = num_rounds-least n r sane.0 in
      let s = recv_from n p r in
      let lts : s < n = recv_from-lt n p r lt small in
      let to_p : send_to n s r ≡ p = send_to-recv_from n p r lt small in
      let got : received_by (f p) r ≡ (f p).entered - 1 =
        ap (λ place. received place (f p).entered r) at_r ∙ ground arith in
      let sum : m s p + received_by (f p) r ≡ sent_by (f s) r =
        subst (λ b. m s b + received_by (f b) r ≡ sent_by (f s) r) to_p
          (inv.messages s r lts sane.0) in
      passed_on s r q d (f p).entered (f s).place refl lts ltq ltd h near sane.0 sane.1
        (omega (arith, some_left, sum, got))

  -- A call begins.
  pub enter :
      (m' : Pending) (place : Place)
      → (f p).place ≡ outside
      → rounds_over n place < 1
      → let t : Process = record { place = place; entered = (f p).entered + 1 } in
        IsSane n place ((f p).entered + 1)
        → Balanced n m' (sent_counts (at f p t)) (received_counts (at f p t))
        → Inv n m' (at f p t)
  enter m' place out none_over sane balanced =
      let t : Process = record { place = place; entered = (f p).entered + 1 } in
      let more : (q : ℕ) → (f q).entered ≤ (at f p t q).entered =
        everywhere (λ x u. (f x).entered ≤ u.entered) f p t (omega arith) (λ x ne. omega arith) in
      let first : (q d : ℕ)
          → q < n
          → (q + d) % n ≡ p
          → d < 2 ^ rounds_over n place
          → t.entered ≤ (at f p t q).entered =
        λ q d ltq h near.
          let none : rounds_over n place ≡ 0 = omega arith in
          let zero_far : d ≡ 0 = omega (arith, subst (λ k. d < 2 ^ k) none near) in
          let itself : q ≡ p =
            sym (mod-eq_of_lt ltq) ∙ ap (λ x. x % n) {x = q} {y = q + d} (omega arith) ∙ h in
          subst (λ x. t.entered ≤ (at f p t x).entered) (sym itself)
            (omega (arith, ap (λ (u : Process). u.entered) (at_here f p t))) in
      record {
        messages = balanced;
        sane = IsSane-at t sane;
        near =
            everywhere
              (λ x u.
                (q d : ℕ)
                → x < n
                → q < n
                → d < n
                → (q + d) % n ≡ x
                → d < 2 ^ rounds_over n u.place
                → u.entered ≤ (at f p t q).entered)
              f p t (λ q d ltx ltq ltd h near. first q d ltq h near)
              (λ x ne q d ltx ltq ltd h near.
                omega (arith, more q, inv.near x q d ltx ltq ltd h near));
        level =
            everywhere (λ x u. (q : ℕ) → x < n → q < n → u.entered ≤ suc (at f p t q).entered) f p t
              (λ q ltx ltq. omega (arith, full q out ltq, more q))
              (λ x ne q ltx ltq. omega (arith, inv.level x q ltx ltq, more q));
      }

  -- A message is received.
  pub receive :
      (m' : Pending) (r : ℕ) (place : Place)
      → (f p).place ≡ receiving r
      → 0 < m (recv_from n p r) p
      → rounds_over n place ≡ suc r
      → let t : Process = record { place = place; entered = (f p).entered } in
        IsSane n place (f p).entered
        → Balanced n m' (sent_counts (at f p t)) (received_counts (at f p t))
        → Inv n m' (at f p t)
  receive m' r place at_r some_left over sane balanced =
      let t : Process = record { place = place; entered = (f p).entered } in
      let same : (q : ℕ) → (at f p t q).entered ≡ (f q).entered =
        everywhere (λ x u. u.entered ≡ (f x).entered) f p t refl (λ x ne. refl) in
      let before : IsSane n (receiving r) (f p).entered =
        subst (λ place. IsSane n place (f p).entered) at_r (inv.sane p lt) in
      let closer : (q d : ℕ)
          → q < n
          → d < n
          → (q + d) % n ≡ p
          → d < 2 ^ rounds_over n place
          → (f p).entered ≤ (f q).entered =
        λ q d ltq ltd h near.
          elim (doubled n p q d r lt ltq ltd (subst (λ k. d < 2 ^ k) over near)
            (num_rounds-least n r before.0) h) [
              | inl by_p ↦
                  inv.near p q d lt ltq ltd h
                    (subst (λ place. d < 2 ^ rounds_over n place) (sym at_r) by_p)
              | inr (by_s, h') ↦ heard r q (d - 2 ^ r) at_r some_left ltq (omega arith) h' by_s
            ] in
      record {
        messages = balanced;
        sane = IsSane-at t sane;
        near =
            everywhere
              (λ x u.
                (q d : ℕ)
                → x < n
                → q < n
                → d < n
                → (q + d) % n ≡ x
                → d < 2 ^ rounds_over n u.place
                → u.entered ≤ (at f p t q).entered)
              f p t (λ q d ltx ltq ltd h near. omega (arith, same q, closer q d ltq ltd h near))
              (λ x ne q d ltx ltq ltd h near.
                omega (arith, same q, inv.near x q d ltx ltq ltd h near));
        level =
            everywhere (λ x u. (q : ℕ) → x < n → q < n → u.entered ≤ suc (at f p t q).entered) f p t
              (λ q ltx ltq. omega (arith, same q, inv.level p q ltx ltq))
              (λ x ne q ltx ltq. omega (arith, same q, inv.level x q ltx ltq));
      }
