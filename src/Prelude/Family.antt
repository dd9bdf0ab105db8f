-- ===== src/Prelude/Family.antt =====
-- Families of values indexed by thread: a change at one index, and sums over the first `n`.
use Prim.Native.Nat.{ℕ, zero, suc, ◌+◌, ◌≤◌, ◌<◌}
use mathlib.Core.Path.{◌≡◌, refl, fun_ext}
use mathlib.Core.Logic.{inl, inr}
use native.Mathlib.Decide.{dec_lt}
use native.Mathlib.Omega.{arith}
use advanced_os.Prelude.Tests.{◌==◌, ==_iff, Bool-cases, if◌then◌else◌}

abbrev pub at {ℓ} : {A : Type ℓ} → (ℕ → A) → ℕ → A → ℕ → A
at f i a j = if i == j then a else f j

pub at_self {ℓ} : {A : Type ℓ} (f : ℕ → A) (i : ℕ) (a : A) → at f i a i ≡ a
at_self f i a = rw ((==_iff i i).1 refl) refl

pub at_twice {ℓ} : {A : Type ℓ} (f : ℕ → A) (i : ℕ) (a b : A) → at (at f i a) i b ≡ at f i b
at_twice f i a b =
    fun_ext λ j. elim (Bool-cases (i == j)) [ inl here ↦ rw here refl | inr there ↦ rw there refl ]

module _ {ℓ} {A : Type ℓ} (w : A → ℕ) where
  unfoldable pub total : ℕ → (ℕ → A) → ℕ
  total zero f = 0
  total (suc n) f = total n f + w (f n)

  pub total-at_of_le : (n : ℕ) (f : ℕ → A) (i : ℕ) (a : A) → n ≤ i → total n (at f i a) ≡ total n f
  unfolding total
  total-at_of_le zero f i a h = refl
  total-at_of_le (suc n) f i a h = ground (arith, total-at_of_le n f i a)

  pub total-at :
      (n : ℕ) (f : ℕ → A) (i : ℕ) (a : A) → i < n → total n (at f i a) + w (f i) ≡ total n f + w a
  unfolding total
  total-at zero f i a h = absurd (omega arith)
  total-at (suc n) f i a h = elim (dec_lt i n) [
    | yes below ↦ ground (arith, total-at n f i a below)
    | no last ↦ ground (arith, total-at_of_le n f i a)
  ]

  pub total-eq-zero : (n : ℕ) (f : ℕ → A) → ((i : ℕ) → i < n → w (f i) ≡ 0) → total n f ≡ 0
  unfolding total
  total-eq-zero zero f h = refl
  total-eq-zero (suc n) f h =
      omega (arith, total-eq-zero n f (λ i lt. h i (omega arith)), h n (omega arith))
