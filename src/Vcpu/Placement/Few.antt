-- ===== src/Vcpu/Placement/Few.antt =====
-- No more VMs than pCPUs: what the missing `break` does.
use advanced_os.Prelude.{
  ℕ, zero, suc, ◌+◌, ◌<◌, ◌≤◌, ◌≡◌, ◌≢◌, refl, ap, sym, subst, ◌∙◌, false, List, [], ◌∷◌, ◌++◌,
  ◌==◌, if◌then◌else◌, length, get_or, map, All, All-append, arith, Bool-cases, inl, inr, ==_iff,
  set, length-set,
}
use mathlib.Core.List.{append-nil}
use advanced_os.Vcpu.Placement.{Pin, fill, place_few}

-- the pCPUs without a VM; `j` is the index of the first entry
unfoldable pub free_from : ℕ → List ℕ → List ℕ
free_from j [] = []
free_from j (v ∷ vs) = let rest = free_from (j + 1) vs in if v == 0 then j ∷ rest else rest

abbrev pub each : ℕ → List ℕ → List Pin
each i js = map (λ (j : ℕ). (i, j)) js

abbrev pub IsFull : List ℕ → Type 0
IsFull vs = All (λ (v : ℕ). v ≢ 0) vs

fill-each : (i j : ℕ) (vs : List ℕ) → (fill i j vs).1 ≡ each i (free_from j vs)
unfolding fill free_from
fill-each i j [] = refl
fill-each i j (v ∷ vs) = elim (Bool-cases (v == 0)) [
  | inl free ↦ rw free (ap (◌∷◌ (i, j)) (fill-each i (j + 1) vs))
  | inr busy ↦ rw busy (fill-each i (j + 1) vs)
]

fill-IsFull : (i j : ℕ) (vs : List ℕ) → i ≢ 0 → IsFull (fill i j vs).0
unfolding fill
fill-IsFull i j [] h = tt
fill-IsFull i j (v ∷ vs) h = elim (Bool-cases (v == 0)) [
  | inl free ↦ rw free (h, fill-IsFull i (j + 1) vs h)
  | inr busy ↦ rw busy (λ e. ground arith, fill-IsFull i (j + 1) vs h)
]

pub length-fill : (i j : ℕ) (vs : List ℕ) → length (fill i j vs).0 ≡ length vs
unfolding fill
length-fill i j [] = refl
length-fill i j (v ∷ vs) = elim (Bool-cases (v == 0)) [
  | inl free ↦ rw free (ap suc (length-fill i (j + 1) vs))
  | inr busy ↦ rw busy (ap suc (length-fill i (j + 1) vs))
]

get_or_full : (vs : List ℕ) (p : ℕ) → IsFull vs → p < length vs → get_or vs p 0 ≢ 0
get_or_full [] p h lt = absurd (omega arith)
get_or_full (v ∷ vs) zero h lt = h.0
get_or_full (v ∷ vs) (suc p) h lt = get_or_full vs p h.1 (omega arith)

free_from_full : (j : ℕ) (vs : List ℕ) → IsFull vs → free_from j vs ≡ []
unfolding free_from
free_from_full j [] h = refl
free_from_full j (v ∷ vs) h = elim (Bool-cases (v == 0)) [
  | inl free ↦ absurd (h.0 (ground arith))
  | inr busy ↦ rw busy (free_from_full (j + 1) vs h.1)
]

==_ne : (v : ℕ) → v ≢ 0 → (v == 0) ≡ false
==_ne v h = elim (Bool-cases (v == 0)) [ inl e ↦ absurd (h ((==_iff v 0).0 e)) | inr e ↦ e ]

place_few_full :
    (i : ℕ) (mapping vs : List ℕ)
    → IsFull vs
    → i ≢ 0
    → All (λ (p : ℕ). p < length vs) mapping
    → place_few i mapping vs ≡ []
unfolding place_few
place_few_full i [] vs h pos inside = refl
place_few_full i (p ∷ mapping) vs h pos inside =
    rw
      (==_ne (get_or vs p 0) (get_or_full vs p h inside.0), fill-each i 0 vs, free_from_full 0 vs h)
      (place_few_full (i + 1) mapping (fill i 0 vs).0 (fill-IsFull i 0 vs pos) (λ e. omega arith)
        (subst (λ n. All (λ (q : ℕ). q < n) mapping) (sym (length-fill i 0 vs)) inside.1))

-- A VM other than VM 0 that finds its pCPU taken by a VM other than VM 0 is pinned to every free pCPU
-- in turn, and no later VM is pinned at all, if their mapping is to pCPUs that exist.
pub place_few-collision :
    (i home : ℕ) (mapping new_mapping : List ℕ)
    → i ≢ 0
    → get_or new_mapping home 0 ≢ 0
    → All (λ (p : ℕ). p < length new_mapping) mapping
    → place_few i (home ∷ mapping) new_mapping ≡ each i (free_from 0 new_mapping)
unfolding place_few
place_few-collision i home mapping vs pos busy inside =
    rw (==_ne (get_or vs home 0) busy, fill-each i 0 vs)
      (ap (◌++◌ (each i (free_from 0 vs))) (
          place_few_full (i + 1) mapping (fill i 0 vs).0 (fill-IsFull i 0 vs pos) (λ e. omega arith)
            (subst (λ n. All (λ (q : ℕ). q < n) mapping) (sym (length-fill i 0 vs)) inside))
        ∙ append-nil _)

fill-inside :
    (i j n : ℕ) (vs : List ℕ) → j + length vs ≤ n → All (λ (q : Pin). q.1 < n) (fill i j vs).1
unfolding fill
fill-inside i j n [] h = tt
fill-inside i j n (v ∷ vs) h = elim (Bool-cases (v == 0)) [
  | inl free ↦ rw free (omega arith, fill-inside i (j + 1) n vs (omega arith))
  | inr busy ↦ rw busy (fill-inside i (j + 1) n vs (omega arith))
]

-- Every pin goes to a pCPU that exists.
pub place_few-inside :
    (i : ℕ) (mapping vs : List ℕ) → All (λ (q : Pin). q.1 < length vs) (place_few i mapping vs)
unfolding place_few
place_few-inside i [] vs = tt
place_few-inside i (p ∷ mapping) vs = elim (Bool-cases (get_or vs p 0 == 0)) [
  | inl free ↦ rw free (
      subst (λ n. All (λ (q : Pin). q.1 < n) (place_few (i + 1) mapping (set vs p i)))
        (length-set vs p i) (place_few-inside (i + 1) mapping (set vs p i)))
  | inr busy ↦ rw busy (
      All-append (λ (q : Pin). q.1 < length vs) (fill i 0 vs).1 _
        (fill-inside i 0 (length vs) vs (omega arith))
        (subst (λ n. All (λ (q : Pin). q.1 < n) (place_few (i + 1) mapping (fill i 0 vs).0))
          (length-fill i 0 vs) (place_few-inside (i + 1) mapping (fill i 0 vs).0)))
]
