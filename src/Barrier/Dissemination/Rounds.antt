-- ===== src/Barrier/Dissemination/Rounds.antt =====
-- The rounds of the dissemination barrier: their number, and who sends to whom.
use advanced_os.Prelude.{
  ℕ, zero, suc, ◌+◌, ◌-◌, ◌%◌, ◌^◌, ◌<◌, ◌≤◌, ◌≡◌, ◌⊎◌, inl, inr, sym, subst, ◌∙◌, leb, arith,
  dec_lt, ℕ_discrete, Bool-cases,
}
use native.Mathlib.Nat.{mod-eq_of_lt, mod-eq-sub-mod}
use advanced_os.Barrier.Dissemination.{log2_from, num_rounds, send_to, recv_from}

lt-power : (n : ℕ) → n < 2 ^ n
lt-power zero = omega arith
lt-power (suc n) = omega (arith, lt-power n)

log2_from_reaches : (fuel k n : ℕ) → n ≤ 2 ^ (k + fuel) → n ≤ 2 ^ log2_from fuel k n
unfolding log2_from
log2_from_reaches zero k n h = subst (λ j. n ≤ 2 ^ j) {x = k + zero} {y = k} (omega arith) h
log2_from_reaches (suc fuel) k n h = elim (Bool-cases (leb n (2 ^ k))) [
  | inl reached ↦ rw reached (ground arith)
  | inr more ↦ rw more (
      log2_from_reaches fuel (k + 1) n
        (subst (λ j. n ≤ 2 ^ j) {x = k + suc fuel} {y = k + 1 + fuel} (omega arith) h))
]

log2_from_least :
    (fuel k n j : ℕ) → ((i : ℕ) → i < k → 2 ^ i < n) → j < log2_from fuel k n → 2 ^ j < n
unfolding log2_from
log2_from_least zero k n j below h = below j h
log2_from_least (suc fuel) k n j below h = elim (Bool-cases (leb n (2 ^ k))) [
  | inl reached ↦ below j (ground arith)
  | inr more ↦
      log2_from_least fuel (k + 1) n j
        (λ i lt. elim (ℕ_discrete i k) [
          | yes eq ↦ subst (λ x. 2 ^ x < n) (sym eq) (ground arith)
          | no ne ↦ below i (omega arith)
        ])
        (ground arith)
]

-- The rounds reach every process, and no round's distance does.
pub num_rounds-reaches : (n : ℕ) → n ≤ 2 ^ num_rounds n
unfolding num_rounds
num_rounds-reaches n =
    log2_from_reaches n 0 n
      (subst (λ j. n ≤ 2 ^ j) {x = n} {y = 0 + n} (omega arith) (omega (arith, lt-power n)))

pub num_rounds-least : (n j : ℕ) → j < num_rounds n → 2 ^ j < n
unfolding num_rounds
num_rounds-least n j h = log2_from_least n 0 n j (λ i lt. absurd (omega arith)) h

pub power-lt : (j k : ℕ) → j < k → 2 ^ j < 2 ^ k
power-lt j zero h = absurd (omega arith)
power-lt j (suc k) h = elim (ℕ_discrete j k) [
  | yes eq ↦ subst (λ x. 2 ^ x < 2 ^ suc k) (sym eq) (omega (arith, lt-power k))
  | no ne ↦ omega (arith, power-lt j k (omega arith))
]

pub power-injective : (j k : ℕ) → 2 ^ j ≡ 2 ^ k → j ≡ k
power-injective j k h = elim (dec_lt j k) [
  | yes lt ↦ absurd (omega (arith, power-lt j k lt))
  | no le ↦ elim (ℕ_discrete j k) [
    | yes eq ↦ eq
    | no ne ↦ absurd (omega (arith, power-lt k j (omega arith)))
  ]
]

-- a remainder of a number below twice the divisor
pub wraps : (n x : ℕ) → x < n + n → ((x < n) × (x % n ≡ x)) ⊎ ((n ≤ x) × (x % n ≡ x - n))
wraps n x h = elim (dec_lt x n) [
  | yes lt ↦ inl (lt, mod-eq_of_lt lt)
  | no le ↦
      inr (omega arith, mod-eq-sub-mod {n = x} {m = n} (omega arith) ∙ mod-eq_of_lt (omega arith))
]

module _ (n : ℕ) where
  pub send_to-lt : (q k : ℕ) → q < n → 2 ^ k < n → send_to n q k < n
  unfolding send_to
  send_to-lt q k lt small = ground (arith, wraps n (q + 2 ^ k) (omega arith))

  pub recv_from-lt : (p k : ℕ) → p < n → 2 ^ k < n → recv_from n p k < n
  unfolding recv_from
  recv_from-lt p k lt small = ground (arith, wraps n (p + n - 2 ^ k) (omega arith))

  -- The process that one receives from sends to it in the same round.
  pub send_to-recv_from : (p k : ℕ) → p < n → 2 ^ k < n → send_to n (recv_from n p k) k ≡ p
  unfolding send_to recv_from
  send_to-recv_from p k lt small =
      let a = wraps n (p + n - 2 ^ k) (omega arith) in
      ground (arith, wraps n ((p + n - 2 ^ k) % n + 2 ^ k) (ground (arith, a)))

  -- A process sends to each other one in at most one round.
  pub send_to-injective :
      (q j k : ℕ) → q < n → 2 ^ j < n → 2 ^ k < n → send_to n q j ≡ send_to n q k → j ≡ k
  unfolding send_to
  send_to-injective q j k lt small small' h =
      power-injective j k
        (ground (arith, wraps n (q + 2 ^ j) (omega arith), wraps n (q + 2 ^ k) (omega arith)))

  -- At most one process sends to a process in a round.
  pub senders_injective :
      (q q' k : ℕ) → q < n → q' < n → 2 ^ k < n → send_to n q k ≡ send_to n q' k → q ≡ q'
  unfolding send_to
  senders_injective q q' k lt lt' small h =
      ground (arith, wraps n (q + 2 ^ k) (omega arith), wraps n (q' + 2 ^ k) (omega arith))

  -- Within twice the distance behind a process is who is near it, or near the one it receives from.
  pub doubled :
      (p q d k : ℕ)
      → p < n
      → q < n
      → d < n
      → d < 2 ^ suc k
      → 2 ^ k < n
      → (q + d) % n ≡ p
      → (d < 2 ^ k) ⊎ ((d - 2 ^ k < 2 ^ k) × ((q + (d - 2 ^ k)) % n ≡ recv_from n p k))
  unfolding recv_from
  doubled p q d k ltp ltq ltd near small h = elim (dec_lt d (2 ^ k)) [
    | yes lt ↦ inl lt
    | no far ↦ inr (
      omega arith,
      ground (
        arith,
        wraps n (q + d) (omega arith),
        wraps n (q + (d - 2 ^ k)) (omega arith),
        wraps n (p + n - 2 ^ k) (omega arith),
      ),
    )
  ]

  -- Each process is at some distance below `n` behind each.
  pub distance : (p q : ℕ) → p < n → q < n → (d : ℕ) × (d < n) × ((q + d) % n ≡ p)
  distance p q ltp ltq = elim (dec_lt p q) [
    | no le ↦ (p - q, omega arith, ground (arith, wraps n (q + (p - q)) (omega arith)))
    | yes lt ↦ (p + n - q, omega arith, ground (arith, wraps n (q + (p + n - q)) (omega arith)))
  ]
