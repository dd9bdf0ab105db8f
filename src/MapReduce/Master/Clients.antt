-- ===== src/MapReduce/Master/Clients.antt =====
-- The maps from addresses to clients of project4/src/master.h: lookups, and sums over the clients.
use advanced_os.Prelude.{
  ℕ, ◌+◌, ◌≡◌, ◌≤◌, refl, ap, sym, ◌∙◌, Bool, true, false, ◌||◌, Option, none, some, List, [], ◌∷◌,
  ◌++◌, drop, drop-drop, arith, Bool-cases, inl, inr,
}
use advanced_os.MapReduce.Text.{Text, text_eq, text_eq_iff}
use advanced_os.MapReduce.Master.State.{find, put, erase, is_in}

module _ {A : Type 0} where
  unfoldable pub sum : (A → ℕ) → List (Text × A) → ℕ
  sum f [] = 0
  sum f ((v, a) ∷ m) = f a + sum f m

  pub sum-put :
      (f : A → ℕ) (u : Text) (a b : A) (m : List (Text × A))
      → find u m ≡ some a
      → sum f (put u b m) + f a ≡ sum f m + f b
  unfolding sum put find
  sum-put f u a b [] h = absurd (ground arith)
  sum-put f u a b ((v, c) ∷ m) h = elim (Bool-cases (text_eq v u)) [
    | inl same ↦ ground arith
    | inr other ↦ ground (arith, sum-put f u a b m)
  ]

  pub sum-put-le :
      (f : A → ℕ) (u : Text) (a : A) (m : List (Text × A)) → sum f (put u a m) ≤ sum f m + f a
  unfolding sum put
  sum-put-le f u a [] = omega arith
  sum-put-le f u a ((v, c) ∷ m) = ground (arith, sum-put-le f u a m)

  pub sum-erase :
      (f : A → ℕ) (u : Text) (a : A) (m : List (Text × A))
      → find u m ≡ some a
      → sum f (erase u m) + f a ≡ sum f m
  unfolding sum erase find
  sum-erase f u a [] h = absurd (ground arith)
  sum-erase f u a ((v, c) ∷ m) h = elim (Bool-cases (text_eq v u)) [
    | inl same ↦ ground arith
    | inr other ↦ ground (arith, sum-erase f u a m)
  ]

  unfoldable pub is_some : Option A → Bool
  is_some none = false
  is_some (some a) = true

  pub is_some-put :
      (u v : Text) (a : A) (m : List (Text × A))
      → is_some (find v (put u a m)) ≡ (text_eq u v || is_some (find v m))
  unfolding is_some find put
  is_some-put u v a [] = ground arith
  is_some-put u v a ((w, c) ∷ m) =
      ground (arith, is_some-put u v a m, text_eq_iff w u, text_eq_iff w v, text_eq_iff u v)

  pub is_some-erase :
      (u v : Text) (m : List (Text × A))
      → text_eq u v ≡ false
      → is_some (find v (erase u m)) ≡ is_some (find v m)
  unfolding is_some find erase
  is_some-erase u v [] h = refl
  is_some-erase u v ((w, c) ∷ m) h =
      ground (arith, is_some-erase u v m h, text_eq_iff w u, text_eq_iff w v, text_eq_iff u v)

pub is_in-append : (u : Text) (xs ys : List Text) → is_in u (xs ++ ys) ≡ (is_in u xs || is_in u ys)
unfolding is_in
is_in-append u [] ys = refl
is_in-append u (x ∷ xs) ys = ground (arith, is_in-append u xs ys)

module _ {A : Type 0} where
  pub drop-next : (n : ℕ) (l xs : List A) (x : A) → drop n l ≡ x ∷ xs → drop (n + 1) l ≡ xs
  drop-next n l xs x h = sym (drop-drop n 1 l) ∙ ap (drop 1) h
