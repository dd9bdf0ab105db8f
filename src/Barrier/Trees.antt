-- ===== src/Barrier/Trees.antt =====
-- Counts along the two trees of the barriers of project2, omp/gtmp2.c and mpi/gtmpi2.c: four children
-- gather at a node, and a node wakes two.
use advanced_os.Prelude.{ℕ, zero, suc, ◌-◌, ◌/◌, ◌≤◌, ◌<◌, arith}

module _ (n : ℕ) (gathers releases : ℕ → ℕ)
    (up : (c : ℕ) → 0 < c → c < n → gathers ((c - 1) / 4) ≤ gathers c)
    (down : (j : ℕ) → 0 < j → j < n → releases j ≤ releases ((j - 1) / 2))
    (root : releases 0 ≤ gathers 0) where
  releases-le-root : (fuel i : ℕ) → i ≤ fuel → i < n → releases i ≤ gathers 0
  releases-le-root fuel zero h lt = root
  releases-le-root zero (suc i) h lt = absurd (omega arith)
  releases-le-root (suc fuel) (suc i) h lt = omega (
    arith,
    down (suc i) (omega arith) lt,
    releases-le-root fuel ((suc i - 1) / 2) (omega arith) (omega arith),
  )

  root-le-gathers : (fuel i : ℕ) → i ≤ fuel → i < n → gathers 0 ≤ gathers i
  root-le-gathers fuel zero h lt = omega arith
  root-le-gathers zero (suc i) h lt = absurd (omega arith)
  root-le-gathers (suc fuel) (suc i) h lt = omega (
    arith,
    up (suc i) (omega arith) lt,
    root-le-gathers fuel ((suc i - 1) / 4) (omega arith) (omega arith),
  )

  -- Nobody is released more often than any other has gathered its children.
  pub releases-le-gathers : (i j : ℕ) → i < n → j < n → releases i ≤ gathers j
  releases-le-gathers i j lti ltj =
      omega (arith, releases-le-root i i (omega arith) lti, root-le-gathers j j (omega arith) ltj)
