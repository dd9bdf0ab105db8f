-- ===== src/Barrier/Relay/Counts.antt =====
-- The counts of the tree barrier of project2/mpi/gtmpi2.c.
use advanced_os.Prelude.{
  ℕ, ◌+◌, ◌-◌, ◌/◌, ◌%◌, ◌≡◌, ◌≤◌, ◌<◌, inl, inr, subst, sym, refl, ltb, if◌then◌else◌, arith,
}
use advanced_os.Barrier.Trees.{releases-le-gathers}
use advanced_os.Barrier.Relay.{gathering, Process, Pending, first_child, num_children}
use advanced_os.Barrier.Relay.Invariant.{
  stage, finished, times, gathers, reports, releases, wakes, here, Good,
}

-- Steps that come later have been taken at most as often.
pub times-le : (k l : ℕ) (t : Process) → k ≤ l → times l t ≤ times k t
times-le k l t h = ground arith

pub times-entered : (k : ℕ) (t : Process) → times k t ≤ t.entered
times-entered k t = ground arith

pub entered-times : (k : ℕ) (t : Process) → t.entered ≤ times k t + 1
entered-times k t = ground arith

pub wakes-le : (k : ℕ) (t : Process) → wakes k t ≤ releases t
wakes-le k t = ground (arith, times-le 2 3 t, times-le 2 4 t)

module _ (n : ℕ) (m : Pending) (f : ℕ → Process) (g : Good n m f) where
  pub releases-le : (i j : ℕ) → i < n → j < n → releases (f i) ≤ gathers (f j)
  releases-le i j lti ltj =
      releases-le-gathers n (λ k. gathers (f k)) (λ k. releases (f k))
        (λ c pos lt. omega (arith, g.arrivals c pos lt, times-le 0 1 (f c) (omega arith)))
        (λ k pos lt. omega (arith, g.wakeups k pos lt, wakes-le ((k - 1) % 2) (f ((k - 1) / 2))))
        (times-le 0 2 (f 0) (omega arith)) i j lti ltj

  -- A child reports at most once before its parent has gathered.
  pub reports-le : (c i : ℕ) → c < n → i < n → reports (f c) ≤ gathers (f i) + 1
  reports-le c i ltc lti =
      omega (arith, releases-le c i ltc lti, entered-times 2 (f c), times-entered 1 (f c))

  pub here-le :
      (i k : ℕ) → i < n → k < 4 → here n m f i k ≤ (if ltb (first_child i + k) n then 1 else 0)
  here-le i k lti ltk = ground (arith, reports-le (first_child i + k) i)

  -- A message that a process gathers comes from one of its children.
  pub source_child :
      (q p c : ℕ)
      → p < n
      → (f p).place ≡ gathering c
      → 0 < m q p
      → (0 < q) × (q < n) × ((q - 1) / 4 ≡ p)
  unfolding stage
  source_child q p c ltp at_c pos = elim (g.quiet q p pos) [
    | inl child ↦ child
    | inr (pos_p, waker) ↦
        let w = (p - 1) / 2 in
        let some_left : 0 < m w p = subst (λ k. 0 < m k p) (sym waker) pos in
        let own : releases (f p) ≡ gathers (f p) = ground arith in
        absurd (
          omega (
            arith,
            g.wakeups p pos_p ltp,
            some_left,
            own,
            wakes-le ((p - 1) % 2) (f w),
            releases-le w p (omega arith) ltp,
          ))
  ]

  -- Where as many reports have been counted as there are children, each child has reported.
  pub all_here :
      (i k : ℕ)
      → i < n
      → k < 4
      → num_children n i ≤ finished (f i).place
      → here n m f i k ≡ (if ltb (first_child i + k) n then 1 else 0)
  all_here i k lti ltk enough = ground (
    arith,
    g.counted i,
    here-le i 0 lti (omega arith),
    here-le i 1 lti (omega arith),
    here-le i 2 lti (omega arith),
    here-le i 3 lti (omega arith),
  )

-- What is counted of a child depends on its reports, what its parent has gathered, and what is pending.
pub here_of :
    (n : ℕ) (m : Pending) (f : ℕ → Process) (i k a b c : ℕ)
    → reports (f (first_child i + k)) ≡ a
    → m (first_child i + k) i ≡ b
    → gathers (f i) ≡ c
    → here n m f i k ≡ (if ltb (first_child i + k) n then a - b - c else 0)
here_of n m f i k a b c ea eb ec = rw (ea, eb, ec) refl

-- Where no step is counted and no report is received, what is counted stays.
pub counted_still :
    (n : ℕ) (m m' : Pending) (f f' : ℕ → Process)
    → Good n m f
    → ((i k : ℕ) → k < 4 → here n m' f' i k ≡ here n m f i k)
    → ((i : ℕ) → finished (f' i).place ≡ finished (f i).place)
    → (i : ℕ)
    → here n m' f' i 0 + here n m' f' i 1 + here n m' f' i 2 + here n m' f' i 3
      ≡ finished (f' i).place
counted_still n m m' f f' g slots ends i = omega (
  arith,
  g.counted i,
  slots i 0 (omega arith),
  slots i 1 (omega arith),
  slots i 2 (omega arith),
  slots i 3 (omega arith),
  ends i,
)
