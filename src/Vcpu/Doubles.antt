-- ===== src/Vcpu/Doubles.antt =====
-- The operations of `double` that project1-1/cpu/src/vcpu_scheduler.c uses, as an interface, and
-- the laws of its order that the placement relies on.
use advanced_os.Prelude.{ℕ, ◌-◌, ◌^◌, ◌≡◌, Bool, true, false, ltb, if◌then◌else◌}

pub record Doubles : Type 1 where
  pub Double : Type 0
  pub of_nat : ℕ → Double
  pub neg : Double → Double
  pub add : Double → Double → Double
  pub sub : Double → Double → Double
  pub mul : Double → Double → Double
  pub div : Double → Double → Double
  pub sqrt : Double → Double
  pub max : Double  -- DBL_MAX
  pub lt : Double → Double → Bool

-- What `<` does on doubles other than NaN.
pub record IsOrdered (D : Doubles) : Type 0 where
  pub irrefl : (a : D.Double) → D.lt a a ≡ false
  pub trans : (a b c : D.Double) → D.lt a b ≡ true → D.lt b c ≡ true → D.lt a c ≡ true

-- an `int` that is converted to `double`; `n` is its 32-bit pattern
abbrev pub of_int : (D : Doubles) → ℕ → D.Double
of_int D n = if ltb n (2 ^ 31) then D.of_nat n else D.neg (D.of_nat (2 ^ 32 - n))
