-- ===== src/Vcpu/Placement/Each.antt =====
-- The sort of the usages, and what it means for the pins: each VM is pinned exactly once.
use advanced_os.Prelude.{ℕ, ◌+◌, ◌≡◌, refl, ap, true, false, List, [], ◌∷◌, Bool-cases, inl, inr}
use mathlib.Core.List.{Perm}
use mathlib.Core.List.Perm
use advanced_os.Vcpu.Doubles.{Doubles, IsOrdered}
use advanced_os.Vcpu.Usages.{Usage, insert_usage, sort_usages, calculate_vm_cpu_usages}
use advanced_os.Vcpu.Placement.Many.{ids}

-- the numbers from `i` on, as many as there are times
unfoldable pub from : ℕ → List ℕ → List ℕ
from i [] = []
from i (t ∷ ts) = i ∷ from (i + 1) ts

module _ (D : Doubles) where
  ids-insert_usage :
      (u : Usage D.Double) (us : List (Usage D.Double))
      → Perm (ids D (insert_usage D u us)) (u.vm_id ∷ ids D us)
  unfolding insert_usage
  ids-insert_usage u [] = Perm.refl (u.vm_id ∷ [])
  ids-insert_usage u (v ∷ us) = elim (Bool-cases (D.lt u.cpu_usage v.cpu_usage)) [
    | inl less ↦ rw less (
        Perm.trans (Perm.cons v.vm_id (ids-insert_usage u us))
          (Perm.swap u.vm_id v.vm_id (ids D us)))
    | inr more ↦ rw more (Perm.refl (u.vm_id ∷ v.vm_id ∷ ids D us))
  ]

  pub ids-sort_usages : (us : List (Usage D.Double)) → Perm (ids D (sort_usages D us)) (ids D us)
  unfolding sort_usages
  ids-sort_usages [] = Perm.refl []
  ids-sort_usages (u ∷ us) =
      Perm.trans (ids-insert_usage u (sort_usages D us)) (Perm.cons u.vm_id (ids-sort_usages us))

  pub ids-calculate_vm_cpu_usages :
      (before : List ℕ) (interval i : ℕ) (times : List ℕ)
      → ids D (calculate_vm_cpu_usages D before interval i times) ≡ from i times
  unfolding calculate_vm_cpu_usages from
  ids-calculate_vm_cpu_usages before interval i [] = refl
  ids-calculate_vm_cpu_usages before interval i (t ∷ ts) =
      ap (◌∷◌ i) (ids-calculate_vm_cpu_usages before interval (i + 1) ts)

  -- no usage is below the next one
  unfoldable pub IsDescending : List (Usage D.Double) → Type 0
  IsDescending [] = Unit
  IsDescending (u ∷ []) = Unit
  IsDescending (u ∷ v ∷ us) = (D.lt u.cpu_usage v.cpu_usage ≡ false) × IsDescending (v ∷ us)

  module _ (ord : IsOrdered D) where
    lt-asym : (a b : D.Double) → D.lt a b ≡ true → D.lt b a ≡ false
    lt-asym a b h = elim (Bool-cases (D.lt b a)) [
      | inl back ↦ absurd (cc (ord.trans a b a h back, ord.irrefl a))
      | inr not_back ↦ not_back
    ]

    insert_usage-below :
        (v u : Usage D.Double) (us : List (Usage D.Double))
        → D.lt v.cpu_usage u.cpu_usage ≡ false
        → IsDescending (v ∷ us)
        → IsDescending (v ∷ insert_usage D u us)
    unfolding insert_usage IsDescending
    insert_usage-below v u [] k h = (k, tt)
    insert_usage-below v u (w ∷ us) k h = elim (Bool-cases (D.lt u.cpu_usage w.cpu_usage)) [
      | inl less ↦
          rw less (h.0, insert_usage-below w u us (lt-asym u.cpu_usage w.cpu_usage less) h.1)
      | inr more ↦ rw more (k, (more, h.1))
    ]

    insert_usage-IsDescending :
        (u : Usage D.Double) (us : List (Usage D.Double))
        → IsDescending us
        → IsDescending (insert_usage D u us)
    unfolding insert_usage IsDescending
    insert_usage-IsDescending u [] h = tt
    insert_usage-IsDescending u (v ∷ us) h = elim (Bool-cases (D.lt u.cpu_usage v.cpu_usage)) [
      | inl less ↦ rw less (insert_usage-below v u us (lt-asym u.cpu_usage v.cpu_usage less) h)
      | inr more ↦ rw more (more, h)
    ]

    -- On an ordered type of doubles, the sort leaves no usage before a greater one next to it.
    pub sort_usages-IsDescending : (us : List (Usage D.Double)) → IsDescending (sort_usages D us)
    unfolding sort_usages IsDescending
    sort_usages-IsDescending [] = tt
    sort_usages-IsDescending (u ∷ us) =
        insert_usage-IsDescending u (sort_usages D us) (sort_usages-IsDescending us)
