-- ===== src/Barrier/Tree/Chains.antt =====
-- The counts grow along the two trees of project2/omp/gtmp2.c.
use advanced_os.Prelude.{ℕ, ◌-◌, ◌/◌, ◌%◌, ◌≤◌, ◌<◌, Bool, true, false, arith}
use advanced_os.Barrier.Trees.{releases-le-gathers}
use advanced_os.Barrier.Tree.{Node}
use advanced_os.Barrier.Tree.Invariant.{times, resets, releases, wakes, bit, Good}

-- Steps that come later have been taken at most as often.
pub times-le : (k l : ℕ) (t : Node) → k ≤ l → times l t ≤ times k t
times-le k l t h = ground arith

pub times-entered : (k : ℕ) (t : Node) → times k t ≤ t.entered
times-entered k t = ground arith

pub wakes-le : (k : ℕ) (t : Node) → wakes k t ≤ releases t
wakes-le k t = ground (arith, times-le 3 4 t, times-le 3 5 t)

pub bit-le : (b : Bool) → bit b ≤ 1
bit-le true = omega arith
bit-le false = omega arith

module _ (n : ℕ) (f : ℕ → Node) (g : Good n f) where
  -- No thread is released more often than any other has gathered its children.
  pub releases-le-resets : (i j : ℕ) → i < n → j < n → releases (f i) ≤ resets (f j)
  releases-le-resets i j lti ltj =
      releases-le-gathers n (λ k. resets (f k)) (λ k. releases (f k))
        (λ c pos lt. omega (
          arith,
          g.arrivals c pos lt,
          bit-le ((f ((c - 1) / 4)).cn ((c - 1) % 4)),
          times-le 1 2 (f c) (omega arith),
        ))
        (λ k pos lt. omega (arith, g.released k pos lt, wakes-le ((k - 1) % 2) (f ((k - 1) / 2))))
        (times-le 1 3 (f 0) (omega arith)) i j lti ltj
