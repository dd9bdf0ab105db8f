-- ===== src/Barrier/Dissemination/Progress.antt =====
-- The processes of the dissemination barrier never all wait: one that is furthest behind goes on.
use advanced_os.Prelude.{
  ℕ, zero, suc, ◌+◌, ◌-◌, ◌<◌, ◌≤◌, ◌≡◌, ◌≢◌, ◌⊎◌, inl, inr, refl, ap, sym, subst, ◌∙◌, none,
  lt→ltb, arith, dec_lt, ℕ_discrete,
}
use advanced_os.Barrier.Dissemination.{
  send_to, recv_from, Place, outside, receiving, Process, Pending, System, gtmpi_barrier, Reach,
}
use advanced_os.Barrier.Dissemination.Rounds.{num_rounds-least, recv_from-lt, send_to-recv_from}
use advanced_os.Barrier.Dissemination.Invariant.{sent, received, sent_by, received_by, IsSane, Inv}
use advanced_os.Barrier.Dissemination.Safety.{Reach-Inv}

-- in the current call, one more than the round it is in, or 0
abbrev sends : Place → ℕ
sends outside = 0
sends (receiving r) = suc r

-- Calls begun count first, then the messages sent.
abbrev IsBehind : Process → Process → Type 0
IsBehind t u = (t.entered < u.entered) ⊎ ((t.entered ≡ u.entered) × (sends t.place ≤ sends u.place))

behind : (a b c d : ℕ) → ((a < c) ⊎ ((a ≡ c) × (b ≤ d))) ⊎ ((c < a) ⊎ ((c ≡ a) × (d ≤ b)))
behind a b c d = elim (dec_lt a c) [
  | yes lt ↦ inl (inl lt)
  | no not_lt ↦ elim (dec_lt c a) [
    | yes lt ↦ inr (inl lt)
    | no not_gt ↦ elim (dec_lt b d) [
      | yes lt ↦ inl (inr (omega arith, omega arith))
      | no ge ↦ inr (inr (omega arith, omega arith))
    ]
  ]
]

IsBehind-trans : (t u v : Process) → IsBehind t u → IsBehind u v → IsBehind t v
IsBehind-trans t u v (inl h) (inl k) = inl (omega arith)
IsBehind-trans t u v (inl h) (inr k) = inl (omega (arith, k.0))
IsBehind-trans t u v (inr h) (inl k) = inl (omega (arith, h.0))
IsBehind-trans t u v (inr h) (inr k) = inr (omega (arith, h.0, k.0), omega (arith, h.1, k.1))

furthest-IsBehind :
    (n : ℕ) (f : ℕ → Process) → 0 < n → (p : ℕ) × (p < n) × ((q : ℕ) → q < n → IsBehind (f p) (f q))
furthest-IsBehind zero f h = absurd (omega arith)
furthest-IsBehind (suc zero) f h = (
  0,
  omega arith,
  λ q lt. subst (λ x. IsBehind (f 0) (f x)) {x = 0} {y = q} (omega arith) (inr (refl, omega arith)),
)
furthest-IsBehind (suc (suc n)) f h =
    let (p, ltp, least) = furthest-IsBehind (suc n) f (omega arith) in
    let last = suc n in
    elim (behind (f p).entered (sends (f p).place) (f last).entered (sends (f last).place)) [
      | inl before ↦ (
        p,
        omega arith,
        λ q lt. elim (ℕ_discrete q last) [
          | yes eq ↦ subst (λ x. IsBehind (f p) (f x)) (sym eq) before
          | no ne ↦ least q (omega arith)
        ],
      )
      | inr after ↦ (
        last,
        omega arith,
        λ q lt. elim (ℕ_discrete q last) [
          | yes eq ↦ subst (λ x. IsBehind (f last) (f x)) (sym eq) (inr (refl, omega arith))
          | no ne ↦ IsBehind-trans (f last) (f p) (f q) after (least q (omega arith))
        ],
      )
    ]

module _ (n : ℕ) (m : Pending) (f : ℕ → Process) (p : ℕ) (lt : p < n) (inv : Inv n m f) where
  -- The process that it receives from has sent its message.
  has_sent :
      (s r : ℕ) (place : Place)
      → (f s).place ≡ place
      → ((f p).entered < (f s).entered) ⊎ (((f p).entered ≡ (f s).entered) × (suc r ≤ sends place))
      → (f p).entered ≤ sent place (f s).entered r
  unfolding sent
  has_sent s r outside e (inl h) = omega arith
  has_sent s r outside e (inr h) = absurd (omega (arith, h.1))
  has_sent s r (receiving k) e (inl h) = ground arith
  has_sent s r (receiving k) e (inr h) = ground (arith, h.0, h.1)

  goes_on :
      (place : Place)
      → (f p).place ≡ place
      → ((q : ℕ)
          → q < n
          → ((f p).entered < (f q).entered)
            ⊎ (((f p).entered ≡ (f q).entered) × (sends place ≤ sends (f q).place)))
      → gtmpi_barrier n p m (f p).entered place ≢ none
  unfolding gtmpi_barrier sent received
  goes_on outside e least = λ h. cc
  goes_on (receiving r) e least =
      let sane = subst (λ x. IsSane n x (f p).entered) e (inv.sane p lt) in
      let small = num_rounds-least n r sane.0 in
      let s = recv_from n p r in
      let lts : s < n = recv_from-lt n p r lt small in
      let to_p : send_to n s r ≡ p = send_to-recv_from n p r lt small in
      let got : received_by (f p) r ≡ (f p).entered - 1 =
        ap (λ place. received place (f p).entered r) e ∙ ground arith in
      let sum : m s p + received_by (f p) r ≡ sent_by (f s) r =
        subst (λ b. m s b + received_by (f b) r ≡ sent_by (f s) r) to_p
          (inv.messages s r lts sane.0) in
      let ready : 0 < m s p =
        omega (arith, got, sum, sane.1, has_sent s r (f s).place refl (least s lts)) in
      rw (lt→ltb 0 (m s p) ready) (λ h. cc)

pub furthest_process_goes_on :
    (n : ℕ) (m : Pending) (f : ℕ → Process)
    → 0 < n
    → Inv n m f
    → (p : ℕ) × (p < n) × (gtmpi_barrier n p m (f p).entered (f p).place ≢ none)
furthest_process_goes_on n m f pos inv =
    let (p, lt, least) = furthest-IsBehind n f pos in
    (p, lt, goes_on n m f p lt inv (f p).place refl least)

-- With at least one process: in every reachable state some process can go on, so that the barrier
-- never deadlocks.
pub some_process_goes_on :
    (n : ℕ) (s : System)
    → 0 < n
    → Reach n s
    → (p : ℕ) × (p < n)
      × (gtmpi_barrier n p s.pending (s.processes p).entered (s.processes p).place ≢ none)
some_process_goes_on n s pos r = furthest_process_goes_on n s.pending s.processes pos (Reach-Inv r)
