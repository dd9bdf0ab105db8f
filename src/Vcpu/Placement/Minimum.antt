-- ===== src/Vcpu/Placement/Minimum.antt =====
-- The loop over the workloads finds one that is least.
use advanced_os.Prelude.{
  ℕ, zero, suc, ◌+◌, ◌<◌, ◌≡◌, ◌⊎◌, inl, inr, refl, ap, sym, subst, ◌∙◌, true, false, List, [], ◌∷◌,
  length, get_or, arith, Bool-cases,
}
use advanced_os.Vcpu.Doubles.{Doubles, IsOrdered}
use advanced_os.Vcpu.Placement.{min_from, find_min}

module _ (D : Doubles) (ord : IsOrdered D) where
  -- `least` is no greater than any of `ws`
  abbrev pub IsLeast : D.Double → List D.Double → Type 0
  IsLeast least ws = (i : ℕ) → i < length ws → (d : D.Double) → D.lt (get_or ws i d) least ≡ false

  IsLeast-cons :
      (least w : D.Double) (ws : List D.Double)
      → D.lt w least ≡ false
      → IsLeast least ws
      → IsLeast least (w ∷ ws)
  IsLeast-cons least w ws h f zero lt d = h
  IsLeast-cons least w ws h f (suc i) lt d = f i (omega arith) d

  -- What the loop finds from the candidate `m` at `p` on, among the workloads `ws` from `j` on.
  record Found (j : ℕ) (ws : List D.Double) (m : D.Double) (p r : ℕ) : Type 0 where
    least : D.Double
    place :
        ((r ≡ p) × (least ≡ m))
        ⊎ ((i : ℕ) × (i < length ws)
            × (r ≡ j + i)
            × ((d : D.Double) → get_or ws i d ≡ least)
            × (D.lt least m ≡ true))
    bound : IsLeast least ws
    below : (w : D.Double) → D.lt w m ≡ false → D.lt w least ≡ false

  Found-nil : (j p : ℕ) (m : D.Double) → Found j [] m p p
  Found-nil j p m = record {
    least = m;
    place = inl (refl, refl);
    bound = λ i h d. absurd (omega arith);
    below = λ w h. h;
  }

  Found-kept :
      (j p r : ℕ) (w : D.Double) (ws : List D.Double) (m : D.Double)
      → D.lt w m ≡ false
      → Found (j + 1) ws m p r
      → Found j (w ∷ ws) m p r
  Found-kept j p r w ws m h f = record {
    least = f.least;
    place = elim f.place [
      | inl e ↦ inl e
      | inr (i, lt, e, at_i, under) ↦ inr (suc i, omega arith, omega arith, at_i, under)
    ];
    bound = IsLeast-cons f.least w ws (f.below w h) f.bound;
    below = f.below;
  }

  Found-taken :
      (j p r : ℕ) (w : D.Double) (ws : List D.Double) (m : D.Double)
      → D.lt w m ≡ true
      → Found (j + 1) ws w j r
      → Found j (w ∷ ws) m p r
  Found-taken j p r w ws m h f = record {
    least = f.least;
    place = elim f.place [
      | inl (e, same) ↦
          inr (
            zero,
            omega arith,
            omega arith,
            λ d. sym same,
            subst (λ v. D.lt v m ≡ true) (sym same) h,
          )
      | inr (i, lt, e, at_i, under) ↦
          inr (suc i, omega arith, omega arith, at_i, ord.trans f.least w m under h)
    ];
    bound = IsLeast-cons f.least w ws (f.below w (ord.irrefl w)) f.bound;
    below = λ v k. f.below v (elim (Bool-cases (D.lt v w)) [
      | inl under ↦ absurd (cc (ord.trans v w m under h))
      | inr not_under ↦ not_under
    ]);
  }

  min_from-Found :
      (ws : List D.Double) (j p : ℕ) (m : D.Double) → Found j ws m p (min_from D j ws m p)
  unfolding min_from
  min_from-Found [] j p m = Found-nil j p m
  min_from-Found (w ∷ ws) j p m = elim (Bool-cases (D.lt w m)) [
    | inl less ↦ rw less (Found-taken j p _ w ws m less (min_from-Found ws (j + 1) j w))
    | inr not_less ↦ rw not_less (Found-kept j p _ w ws m not_less (min_from-Found ws (j + 1) p m))
  ]

  -- On an ordered type of doubles, where some workload is below DBL_MAX, the pCPU that the search finds
  -- exists, and no workload is below its own.
  pub find_min-IsLeast :
      (ws : List D.Double) (i : ℕ) (d : D.Double)
      → i < length ws
      → D.lt (get_or ws i d) D.max ≡ true
      → (find_min D ws < length ws) × IsLeast (get_or ws (find_min D ws) d) ws
  unfolding find_min
  find_min-IsLeast ws i d lt h =
      let f = min_from-Found ws 0 0 D.max in
      elim f.place [
        | inl (e, same) ↦ absurd (cc (f.bound i lt d, h, same))
        | inr (k, lt', e, at_k, under) ↦ (
          omega arith,
          subst (λ v. IsLeast v ws)
              (sym (
                ap (λ r. get_or ws r d) {x = min_from D 0 ws D.max 0} {y = k} (omega arith)
                ∙ at_k d))
              f.bound,
        )
      ]
