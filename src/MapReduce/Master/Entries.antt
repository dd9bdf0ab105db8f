-- ===== src/MapReduce/Master/Entries.antt =====
-- How often an address is a key in a map from addresses to clients of project4/src/master.h: at most
-- once, as in the `std::unordered_map` of the code.
use advanced_os.Prelude.{
  ℕ, ◌+◌, ◌≡◌, ◌≤◌, refl, false, some, List, [], ◌∷◌, ltb, if◌then◌else◌, arith, Bool-cases, inl,
  inr,
}
use advanced_os.MapReduce.Text.{Text, text_eq, text_eq_iff}
use advanced_os.MapReduce.Master.State.{find, put, erase}
use advanced_os.MapReduce.Master.Clients.{is_some}

module _ {A : Type 0} (u : Text) where
  unfoldable pub entries : List (Text × A) → ℕ
  entries [] = 0
  entries ((v, a) ∷ m) = (if text_eq v u then 1 else 0) + entries m

  pub is_some-entries : (m : List (Text × A)) → is_some (find u m) ≡ ltb 0 (entries m)
  unfolding is_some find entries
  is_some-entries [] = refl
  is_some-entries ((v, a) ∷ m) = ground (arith, is_some-entries m)

  -- A key that is there keeps its place.
  pub entries-put :
      (v : Text) (a c : A) (m : List (Text × A))
      → find v m ≡ some c
      → entries (put v a m) ≡ entries m
  unfolding find entries put
  entries-put v a c [] h = absurd (ground arith)
  entries-put v a c ((w, b) ∷ m) h = elim (Bool-cases (text_eq w v)) [
    | inl same ↦ ground arith
    | inr other ↦ ground (arith, entries-put v a c m)
  ]

  pub entries-erase :
      (v : Text) (c : A) (m : List (Text × A))
      → find v m ≡ some c
      → entries (erase v m) + (if text_eq v u then 1 else 0) ≡ entries m
  unfolding find entries erase
  entries-erase v c [] h = absurd (ground arith)
  entries-erase v c ((w, b) ∷ m) h = elim (Bool-cases (text_eq w v)) [
    | inl same ↦ ground (arith, text_eq_iff w v, text_eq_iff w u, text_eq_iff v u)
    | inr other ↦ ground (arith, entries-erase v c m)
  ]

  entries-put_other :
      (v : Text) (a : A) (m : List (Text × A))
      → text_eq v u ≡ false
      → entries (put v a m) ≡ entries m
  unfolding entries put
  entries-put_other v a [] h = ground arith
  entries-put_other v a ((w, b) ∷ m) h = ground (arith, entries-put_other v a m h)

  -- No key gets a second entry.
  pub entries-put_le :
      (v : Text) (a : A) (m : List (Text × A)) → entries m ≤ 1 → entries (put v a m) ≤ 1
  unfolding entries put
  entries-put_le v a [] h = ground arith
  entries-put_le v a ((w, b) ∷ m) h = ground (
    arith,
    entries-put_le v a m,
    entries-put_other v a m,
    text_eq_iff w v,
    text_eq_iff w u,
    text_eq_iff v u,
  )
