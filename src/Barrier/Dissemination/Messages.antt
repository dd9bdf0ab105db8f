-- ===== src/Barrier/Dissemination/Messages.antt =====
-- The messages of the dissemination barrier: what is pending between two processes is what one has
-- sent in their one common round and the other has not yet received.
use advanced_os.Prelude.{
  ℕ, ◌+◌, ◌-◌, ◌<◌, ◌≡◌, ◌≢◌, ◌⊎◌, inl, inr, refl, ap, sym, subst, ◌∙◌, ◌&&◌, ◌==◌, ==_iff,
  if◌then◌else◌, arith, ℕ_discrete, Bool-cases,
}
use advanced_os.Prelude.Family.{at}
use advanced_os.Barrier.Dissemination.{num_rounds, send_to, recv_from, Pending}
use advanced_os.Barrier.Dissemination.Rounds.{
  num_rounds-least, send_to-lt, recv_from-lt, send_to-recv_from, send_to-injective,
  senders_injective,
}

-- 1 for the one pair
unfoldable pub hit : ℕ → ℕ → ℕ → ℕ → ℕ
hit q p k r = if (q == p) && (k == r) then 1 else 0

pub hit_self : (q k : ℕ) → hit q q k k ≡ 1
unfolding hit
hit_self q k = rw ((==_iff q q).1 refl, (==_iff k k).1 refl) refl

pub hit_other : (q p k r : ℕ) → (q ≢ p) ⊎ (k ≢ r) → hit q p k r ≡ 0
unfolding hit
hit_other q p k r (inl ne) = elim (Bool-cases (q == p)) [
  | inl same ↦ absurd (ne ((==_iff q p).0 same))
  | inr other ↦ rw other refl
]
hit_other q p k r (inr ne) = elim (Bool-cases (k == r)) [
  | inl same ↦ absurd (ne ((==_iff k r).0 same))
  | inr other ↦ elim (Bool-cases (q == p)) [
    | inl here ↦ rw (here, other) refl
    | inr there ↦ rw there refl
  ]
]

pub hit_own : (q k r : ℕ) → hit q q k r ≡ (if k == r then 1 else 0)
unfolding hit
hit_own q k r = rw ((==_iff q q).1 refl) refl

abbrev pub put : Pending → ℕ → ℕ → ℕ → Pending
put m q p v = at m q (at (m q) p v)

pub put_self : (m : Pending) (q p v : ℕ) → put m q p v q p ≡ v
put_self m q p v = rw ((==_iff q q).1 refl, (==_iff p p).1 refl) refl

pub put_other : (m : Pending) (q p v a b : ℕ) → (a ≢ q) ⊎ (b ≢ p) → put m q p v a b ≡ m a b
put_other m q p v a b (inl ne) = elim (Bool-cases (q == a)) [
  | inl same ↦ absurd (ne (sym ((==_iff q a).0 same)))
  | inr other ↦ rw other refl
]
put_other m q p v a b (inr ne) = elim (Bool-cases (p == b)) [
  | inl same ↦ absurd (ne (sym ((==_iff p b).0 same)))
  | inr other ↦ elim (Bool-cases (q == a)) [
    | inl here ↦ rw (here, other) (ap (λ x. m x b) ((==_iff q a).0 here))
    | inr there ↦ rw there refl
  ]
]

-- `S q k` messages have been sent by `q` in round `k`, and `R p k` received by `p`.
abbrev pub Balanced : ℕ → Pending → (ℕ → ℕ → ℕ) → (ℕ → ℕ → ℕ) → Type 0
Balanced n m S R =
    (q k : ℕ) → q < n → k < num_rounds n → m q (send_to n q k) + R (send_to n q k) k ≡ S q k

abbrev pub Counted : ℕ → (ℕ → ℕ → ℕ) → (ℕ → ℕ → ℕ) → ℕ → ℕ → Type 0
Counted n S S' p r = (q k : ℕ) → q < n → k < num_rounds n → S' q k ≡ S q k + hit q p k r

module _ (n : ℕ) (m : Pending) (S R : ℕ → ℕ → ℕ) (balanced : Balanced n m S R) where
  pub Balanced-send :
      (S' : ℕ → ℕ → ℕ) (p r : ℕ)
      → p < n
      → r < num_rounds n
      → Counted n S S' p r
      → Balanced n (put m p (send_to n p r) (m p (send_to n p r) + 1)) S' R
  Balanced-send S' p r ltp ltr more a k lta ltk = elim (ℕ_discrete a p) [
    | no ne ↦ omega (
      arith,
      balanced a k lta ltk,
      more a k lta ltk,
      hit_other a p k r (inl ne),
      put_other m p (send_to n p r) (m p (send_to n p r) + 1) a (send_to n a k) (inl ne),
    )
    | yes eq ↦ elim (ℕ_discrete k r) [
      | yes eq' ↦
          subst
            (λ x.
              put m p (send_to n p r) (m p (send_to n p r) + 1) x (send_to n x k)
                + R (send_to n x k) k
              ≡ S' x k)
            (sym eq)
            (subst
              (λ y.
                put m p (send_to n p r) (m p (send_to n p r) + 1) p (send_to n p y)
                  + R (send_to n p y) y
                ≡ S' p y)
              (sym eq')
              (omega (
                arith,
                balanced p r ltp ltr,
                more p r ltp ltr,
                hit_self p r,
                put_self m p (send_to n p r) (m p (send_to n p r) + 1),
              )))
      | no ne ↦
          let far : send_to n a k ≢ send_to n p r = λ same. ne (
            send_to-injective n a k r lta (num_rounds-least n k ltk) (num_rounds-least n r ltr)
              (same ∙ ap (λ x. send_to n x r) (sym eq))) in
          omega (
            arith,
            balanced a k lta ltk,
            more a k lta ltk,
            hit_other a p k r (inr ne),
            put_other m p (send_to n p r) (m p (send_to n p r) + 1) a (send_to n a k) (inr far),
          )
    ]
  ]

  pub Balanced-receive :
      (R' : ℕ → ℕ → ℕ) (p r : ℕ)
      → p < n
      → r < num_rounds n
      → 0 < m (recv_from n p r) p
      → Counted n R R' p r
      → Balanced n (put m (recv_from n p r) p (m (recv_from n p r) p - 1)) S R'
  Balanced-receive R' p r ltp ltr some_left more a k lta ltk =
      let q = recv_from n p r in
      let ltq : q < n = recv_from-lt n p r ltp (num_rounds-least n r ltr) in
      let to_p : send_to n q r ≡ p = send_to-recv_from n p r ltp (num_rounds-least n r ltr) in
      let ltb = send_to-lt n a k lta (num_rounds-least n k ltk) in
      elim (ℕ_discrete (send_to n a k) p) [
        | no ne ↦ omega (
          arith,
          balanced a k lta ltk,
          more (send_to n a k) k ltb ltk,
          hit_other (send_to n a k) p k r (inl ne),
          put_other m q p (m q p - 1) a (send_to n a k) (inr ne),
        )
        | yes eq ↦ elim (ℕ_discrete k r) [
          | yes eq' ↦
              let same : a ≡ q =
                senders_injective n a q r lta ltq (num_rounds-least n r ltr)
                  (ap (send_to n a) (sym eq') ∙ eq ∙ sym to_p) in
              subst (λ x. put m q p (m q p - 1) x (send_to n x k) + R' (send_to n x k) k ≡ S x k)
                (sym same)
                (subst (λ y. put m q p (m q p - 1) q (send_to n q y) + R' (send_to n q y) y ≡ S q y)
                  (sym eq')
                  (subst (λ b. put m q p (m q p - 1) q b + R' b r ≡ S q r) (sym to_p)
                    (omega (
                      arith,
                      some_left,
                      put_self m q p (m q p - 1),
                      more p r ltp ltr,
                      hit_self p r,
                      subst (λ b. m q b + R b r ≡ S q r) to_p (balanced q r ltq ltr),
                    ))))
          | no ne ↦
              let apart : a ≢ q = λ same. ne (
                send_to-injective n q k r ltq (num_rounds-least n k ltk) (num_rounds-least n r ltr)
                  (ap (λ x. send_to n x k) (sym same) ∙ eq ∙ sym to_p)) in
              omega (
                arith,
                balanced a k lta ltk,
                more (send_to n a k) k ltb ltk,
                hit_other (send_to n a k) p k r (inr ne),
                put_other m q p (m q p - 1) a (send_to n a k) (inl apart),
              )
        ]
      ]
