-- ===== src/MapReduce/Spec/Numbers.antt =====
-- `std::stoi` reads back the numbers that `std::to_string` writes.
use advanced_os.Prelude.{
  ℕ, zero, suc, ◌+◌, ◌-◌, ◌*◌, ◌/◌, ◌%◌, ◌^◌, ◌<◌, ◌≡◌, refl, ap, subst, ◌∙◌, true, false, inl, inr,
  some, [], ◌∷◌, ◌++◌, All, All-append, ltb, lt→ltb, ◌==◌, Bool-cases, arith,
}
use advanced_os.Prelude.Int.{ℤ, pos, negsuc, neg}
use advanced_os.MapReduce.Text.Lines.{Lacks}
use advanced_os.MapReduce.Text.{Text, newline, digits, to_string}
use advanced_os.MapReduce.Spec.{is_digit, skip_spaces, read_digits, magnitude, to_int, signed, stoi}

abbrev AllDigits : Text → Type 0
AllDigits t = All (λ c. is_digit c ≡ true) t

digit-AllDigits : (n : ℕ) → n < 10 → AllDigits ((b'0' + n) ∷ [])
digit-AllDigits n h = ground arith

digits-AllDigits : (fuel n : ℕ) → AllDigits (digits fuel n)
unfolding digits
digits-AllDigits zero n = tt
digits-AllDigits (suc fuel) n = elim (Bool-cases (ltb n 10)) [
  | inl small ↦ rw small (digit-AllDigits n (ground arith))
  | inr big ↦ rw big (
      All-append (λ c. is_digit c ≡ true) (digits fuel (n / 10)) ((b'0' + n % 10) ∷ [])
        (digits-AllDigits fuel (n / 10)) (digit-AllDigits (n % 10) (omega arith)))
]

-- Digits read on from the number that those before them give.
read_digits-append :
    (xs : Text) (n c : ℕ)
    → AllDigits xs
    → is_digit c ≡ true
    → read_digits n (xs ++ c ∷ []) ≡ read_digits n xs * 10 + (c - b'0')
unfolding read_digits
read_digits-append [] n c h d = rw d refl
read_digits-append (x ∷ xs) n c h d = rw h.0 (read_digits-append xs (n * 10 + (x - b'0')) c h.1 d)

read_digits-digits : (fuel n : ℕ) → n < fuel → read_digits 0 (digits fuel n) ≡ n
unfolding digits
read_digits-digits zero n h = absurd (omega arith)
read_digits-digits (suc fuel) n h = elim (Bool-cases (ltb n 10)) [
  | inl small ↦ rw small (unfold read_digits in ground arith)
  | inr big ↦ rw big (
      read_digits-append (digits fuel (n / 10)) 0 (b'0' + n % 10) (digits-AllDigits fuel (n / 10))
        (digit-AllDigits (n % 10) (omega arith)).0
      ∙ ground (arith, read_digits-digits fuel (n / 10)))
]

abbrev IsNumeral : Text → Type 0
IsNumeral [] = ⊥
IsNumeral (c ∷ cs) = AllDigits (c ∷ cs)

snoc-IsNumeral : (t : Text) (c : ℕ) → AllDigits (t ++ c ∷ []) → IsNumeral (t ++ c ∷ [])
snoc-IsNumeral [] c h = h
snoc-IsNumeral (x ∷ xs) c h = h

digits-IsNumeral : (fuel n : ℕ) → IsNumeral (digits (suc fuel) n)
unfolding digits
digits-IsNumeral fuel n = elim (Bool-cases (ltb n 10)) [
  | inl small ↦ rw small (digit-AllDigits n (ground arith))
  | inr big ↦ rw big (
      snoc-IsNumeral (digits fuel (n / 10)) (b'0' + n % 10) (
        All-append (λ c. is_digit c ≡ true) (digits fuel (n / 10)) ((b'0' + n % 10) ∷ [])
          (digits-AllDigits fuel (n / 10)) (digit-AllDigits (n % 10) (omega arith))))
]

stoi-IsNumeral : (t : Text) → IsNumeral t → stoi t ≡ to_int false (read_digits 0 t)
unfolding stoi skip_spaces signed magnitude
stoi-IsNumeral [] h = absurd h
stoi-IsNumeral (c ∷ cs) h = ground arith

-- an integer in decimal
abbrev pub shown : ℤ → Text
shown (pos n) = to_string n
shown (negsuc n) = b'-' ∷ to_string (n + 1)

-- what an `int` of 32 bits holds
abbrev pub IsInt : ℤ → Type 0
IsInt (pos n) = n < 2 ^ 31
IsInt (negsuc n) = n < 2 ^ 31

to_string-IsNumeral : (n : ℕ) → IsNumeral (to_string n)
unfolding to_string
to_string-IsNumeral n =
    subst (λ k. IsNumeral (digits k n)) {x = suc n} {y = n + 1} (omega arith) (digits-IsNumeral n n)

signed-minus : (t : Text) → IsNumeral t → stoi (b'-' ∷ t) ≡ to_int true (read_digits 0 t)
unfolding stoi skip_spaces signed magnitude
signed-minus [] h = absurd h
signed-minus (c ∷ cs) h = ground arith

to_int-neg : (n : ℕ) → n < 2 ^ 31 → to_int true (n + 1) ≡ some (negsuc n)
unfolding neg
to_int-neg n h = ground arith

-- An integer that an `int` holds, written in decimal, is read back.
pub stoi-shown : (z : ℤ) → IsInt z → stoi (shown z) ≡ some z
unfolding to_string
stoi-shown (pos n) h =
    stoi-IsNumeral (to_string n) (to_string-IsNumeral n)
    ∙ ap (to_int false) (read_digits-digits (n + 1) n (omega arith))
    ∙ rw (lt→ltb n (2 ^ 31) h) refl
stoi-shown (negsuc n) h =
    signed-minus (to_string (n + 1)) (to_string-IsNumeral (n + 1))
    ∙ ap (to_int true) (read_digits-digits (n + 1 + 1) (n + 1) (omega arith))
    ∙ to_int-neg n h

digit-Lacks : (c : ℕ) → is_digit c ≡ true → (c == newline) ≡ false
digit-Lacks c h = ground arith

digits-Lacks : (t : Text) → AllDigits t → Lacks newline t
digits-Lacks [] h = tt
digits-Lacks (c ∷ cs) h = (digit-Lacks c h.0, digits-Lacks cs h.1)

pub shown-Lacks : (z : ℤ) → Lacks newline (shown z)
unfolding to_string
shown-Lacks (pos n) = digits-Lacks (to_string n) (digits-AllDigits (n + 1) n)
shown-Lacks (negsuc n) =
    (refl, digits-Lacks (to_string (n + 1)) (digits-AllDigits (n + 1 + 1) (n + 1)))
