-- ===== src/Vcpu/Placement/Many.antt =====
-- More VMs than pCPUs: each VM is pinned once, to a pCPU that exists.
use advanced_os.Prelude.{
  ℕ, zero, suc, ◌+◌, ◌<◌, ◌≤◌, ◌≡◌, inl, inr, refl, ap, sym, subst, ◌∙◌, none, some, List, [], ◌∷◌,
  ◌++◌, ◌==◌, if◌then◌else◌, length, get_or, set, replicate, map, take, drop, All, All-append,
  arith, Bool-cases, Option-cases, length-set, length-replicate, length-append, take-append-drop,
}
use mathlib.Core.List.{foldl, append_assoc, append-nil}
use advanced_os.Vcpu.Doubles.{Doubles}
use advanced_os.Vcpu.Usages.{Usage}
use advanced_os.Vcpu.Placement.{
  Pin, first_free, Placing, put, place_one, min_from, find_min, place_min, no_placing, place_many,
}

-- the pCPUs that have a VM other than VM 0
unfoldable taken : List ℕ → ℕ
taken [] = 0
taken (v ∷ vs) = if v == 0 then taken vs else suc (taken vs)

taken-set : (vs : List ℕ) (p v : ℕ) → taken (set vs p v) ≤ suc (taken vs)
unfolding taken
taken-set [] p v = omega arith
taken-set (x ∷ xs) zero v = ground arith
taken-set (x ∷ xs) (suc p) v = ground (arith, taken-set xs p v)

taken-zeros : (n : ℕ) → taken (replicate n 0) ≡ 0
unfolding taken
taken-zeros zero = refl
taken-zeros (suc n) = taken-zeros n

first_free-none : (vs : List ℕ) → first_free vs ≡ none → taken vs ≡ length vs
unfolding taken first_free
first_free-none [] h = refl
first_free-none (v ∷ vs) h = ground (arith, first_free-none vs)

first_free-lt : (vs : List ℕ) (j : ℕ) → first_free vs ≡ some j → j < length vs
unfolding first_free
first_free-lt [] j h = absurd (ground arith)
first_free-lt (v ∷ vs) zero h = omega arith
first_free-lt (v ∷ vs) (suc j) h = ground (arith, first_free-lt vs j)

abbrev pub vms : List Pin → List ℕ
vms pins = map (λ (q : Pin). q.0) pins

length-take {ℓ} : {A : Type ℓ} (n : ℕ) (xs : List A) → length (take n xs) ≤ n
length-take zero xs = omega arith
length-take (suc n) [] = omega arith
length-take (suc n) (x ∷ xs) = omega (arith, length-take n xs)

map-snoc : (pins : List Pin) (q : Pin) → vms (pins ++ q ∷ []) ≡ vms pins ++ q.0 ∷ []
map-snoc [] q = refl
map-snoc (p ∷ pins) q = ap (◌∷◌ p.0) (map-snoc pins q)

module _ (D : Doubles) where
  abbrev pub ids : List (Usage D.Double) → List ℕ
  ids us = map (λ (u : Usage D.Double). u.vm_id) us

  ids-snoc :
      (us : List (Usage D.Double)) (u : Usage D.Double)
      → ids (us ++ u ∷ []) ≡ ids us ++ u.vm_id ∷ []
  ids-snoc [] u = refl
  ids-snoc (v ∷ us) u = ap (◌∷◌ v.vm_id) (ids-snoc us u)

  min_from-lt :
      (ws : List D.Double) (j k p : ℕ) (m : D.Double)
      → p < k
      → j + length ws ≤ k
      → min_from D j ws m p < k
  unfolding min_from
  min_from-lt [] j k p m h le = h
  min_from-lt (w ∷ ws) j k p m h le = elim (Bool-cases (D.lt w m)) [
    | inl less ↦ rw less (min_from-lt ws (j + 1) k j w (omega arith) (omega arith))
    | inr more ↦ rw more (min_from-lt ws (j + 1) k p m h (omega arith))
  ]

  find_min-lt : (ws : List D.Double) → 0 < length ws → find_min D ws < length ws
  unfolding find_min
  find_min-lt ws h = min_from-lt ws 0 (length ws) 0 D.max h (omega arith)

  -- The VMs `us` have been pinned, in their order, on pCPUs below `n`.
  pub record Placed (n : ℕ) (s : Placing D) (us : List (Usage D.Double)) : Type 0 where
    pub pinned_vms : vms s.pinned ≡ ids us
    pub inside : All (λ (q : Pin). q.1 < n) s.pinned
    pub slots : length s.new_mapping ≡ n
    pub loads : length s.workloads ≡ n

  abbrev pub IsHome : ℕ → List ℕ → Usage D.Double → Type 0
  IsHome n mapping u = get_or mapping u.vm_id 0 < n

  put-Placed :
      (n p : ℕ) (s : Placing D) (us : List (Usage D.Double)) (u : Usage D.Double)
      → p < n
      → Placed n s us
      → Placed n (put D u p s) (us ++ u ∷ [])
  unfolding put
  put-Placed n p s us u lt h = record {
    pinned_vms =
        map-snoc s.pinned (u.vm_id, p)
        ∙ ap (λ l. l ++ u.vm_id ∷ []) h.pinned_vms
        ∙ sym (ids-snoc us u);
    inside = All-append (λ (q : Pin). q.1 < n) s.pinned ((u.vm_id, p) ∷ []) h.inside (lt, tt);
    slots = length-set s.new_mapping p u.vm_id ∙ h.slots;
    loads = length-set s.workloads p u.cpu_usage ∙ h.loads;
  }

  abbrev Few : ℕ → Placing D → List (Usage D.Double) → Type 0
  Few n s us = Placed n s us × (taken s.new_mapping ≤ length us)

  put-Few :
      (n p : ℕ) (s : Placing D) (us : List (Usage D.Double)) (u : Usage D.Double)
      → p < n
      → Few n s us
      → Few n (put D u p s) (us ++ u ∷ [])
  unfolding put
  put-Few n p s us u lt h = (
    put-Placed n p s us u lt h.0,
    omega (arith, h.1, taken-set s.new_mapping p u.vm_id, length-append us (u ∷ [])),
  )

  place_one-Few :
      (n : ℕ) (mapping : List ℕ) (s : Placing D) (us : List (Usage D.Double)) (u : Usage D.Double)
      → length us < n
      → IsHome n mapping u
      → Few n s us
      → Few n (place_one D mapping s u) (us ++ u ∷ [])
  unfolding place_one
  place_one-Few n mapping s us u room home h =
      elim (Bool-cases (get_or s.new_mapping (get_or mapping u.vm_id 0) 0 == 0)) [
        | inl free ↦ rw free (put-Few n (get_or mapping u.vm_id 0) s us u home h)
        | inr busy ↦ elim (Option-cases (first_free s.new_mapping)) [
          | inl full ↦ absurd (omega (arith, h.1, h.0.slots, first_free-none s.new_mapping full))
          | inr (j, at_j) ↦
              rw (busy, at_j)
                (put-Few n j s us u (omega (arith, h.0.slots, first_free-lt s.new_mapping j at_j))
                  h)
        ]
      ]

  place_ones-Few :
      (n : ℕ) (mapping : List ℕ) (vs : List (Usage D.Double)) (s : Placing D)
      (us : List (Usage D.Double))
      → length us + length vs ≤ n
      → All (IsHome n mapping) vs
      → Few n s us
      → Few n (foldl (place_one D mapping) s vs) (us ++ vs)
  place_ones-Few n mapping [] s us room home h = subst (Few n s) (sym (append-nil us)) h
  place_ones-Few n mapping (v ∷ vs) s us room home h =
      subst (Few n (foldl (place_one D mapping) (place_one D mapping s v) vs))
        (append_assoc us (v ∷ []) vs)
        (place_ones-Few n mapping vs (place_one D mapping s v) (us ++ v ∷ [])
          (omega (arith, length-append us (v ∷ []))) home.1
          (place_one-Few n mapping s us v (omega arith) home.0 h))

  start-Few : (n : ℕ) → Few n (no_placing D n) []
  start-Few n = (
    record {
      pinned_vms = refl;
      inside = tt;
      slots = length-replicate n 0;
      loads = length-replicate n (D.of_nat 0);
    },
    omega (arith, taken-zeros n),
  )

  place_min-Placed :
      (n : ℕ) (s : Placing D) (us : List (Usage D.Double)) (u : Usage D.Double)
      → 0 < n
      → Placed n s us
      → Placed n (place_min D s u) (us ++ u ∷ [])
  unfolding place_min
  place_min-Placed n s us u pos h =
      let p = find_min D s.workloads in
      let lt : p < n = omega (arith, h.loads, find_min-lt s.workloads (omega (arith, h.loads))) in
      record {
        pinned_vms =
            map-snoc s.pinned (u.vm_id, p)
            ∙ ap (λ l. l ++ u.vm_id ∷ []) h.pinned_vms
            ∙ sym (ids-snoc us u);
        inside = All-append (λ (q : Pin). q.1 < n) s.pinned ((u.vm_id, p) ∷ []) h.inside (lt, tt);
        slots = h.slots;
        loads = length-set s.workloads p _ ∙ h.loads;
      }

  place_mins-Placed :
      (n : ℕ) (vs : List (Usage D.Double)) (s : Placing D) (us : List (Usage D.Double))
      → 0 < n
      → Placed n s us
      → Placed n (foldl (place_min D) s vs) (us ++ vs)
  place_mins-Placed n [] s us pos h = subst (Placed n s) (sym (append-nil us)) h
  place_mins-Placed n (v ∷ vs) s us pos h =
      subst (Placed n (foldl (place_min D) (place_min D s v) vs)) (append_assoc us (v ∷ []) vs) (
        place_mins-Placed n vs (place_min D s v) (us ++ v ∷ []) pos
          (place_min-Placed n s us v pos h))

  -- The pins are those of the usages, in their order, on pCPUs that exist.
  pub place_many-Placed :
      (n : ℕ) (mapping : List ℕ) (usages : List (Usage D.Double))
      → 0 < n
      → All (IsHome n mapping) (take n usages)
      → Placed n (place_many D n mapping usages) usages
  unfolding place_many
  place_many-Placed n mapping usages pos home =
      let first =
        place_ones-Few n mapping (take n usages) (no_placing D n) []
          (omega (arith, length-take n usages)) home (start-Few n) in
      subst (Placed n (place_many D n mapping usages)) (take-append-drop n usages)
        (place_mins-Placed n (drop n usages) _ (take n usages) pos first.0)
