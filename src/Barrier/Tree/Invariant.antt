-- ===== src/Barrier/Tree/Invariant.antt =====
-- What holds of the tree barrier of project2/omp/gtmp2.c between two steps.
use advanced_os.Prelude.{
  ℕ, ◌+◌, ◌-◌, ◌*◌, ◌/◌, ◌%◌, ◌≡◌, ◌≢◌, ◌≤◌, ◌<◌, Bool, true, false, not, ltb, ◌==◌, if◌then◌else◌,
}
use advanced_os.Barrier.Sense.Invariant.{parity}
use advanced_os.Barrier.Tree.{
  Pc, gathering, resetting, reporting, awaiting, waking_first, waking_second, turning, outside,
  Node,
}

-- The steps of a call that are behind a thread.
unfoldable pub stage : Pc → ℕ
stage gathering = 0
stage resetting = 1
stage reporting = 2
stage awaiting = 3
stage waking_first = 4
stage waking_second = 5
stage turning = 6
stage outside = 7

-- How often a thread has been through the step with number `k`.
abbrev pub times : ℕ → Node → ℕ
times k t = if ltb k (stage t.pc) then t.entered else t.entered - 1

abbrev pub resets : Node → ℕ
resets = times 1

abbrev pub reports : Node → ℕ
reports = times 2

abbrev pub releases : Node → ℕ
releases = times 3

-- the wakeups of the first and of the second child
abbrev pub wakes : ℕ → Node → ℕ
wakes k t = if k == 0 then times 4 t else times 5 t

abbrev pub bit : Bool → ℕ
bit true = 1
bit false = 0

pub record Good (n : ℕ) (f : ℕ → Node) : Type 0 where
  pub begun : (i : ℕ) → (f i).pc ≢ outside → 0 < (f i).entered
  pub ended : (i : ℕ) → (f i).passed ≡ times 6 (f i)
  pub senses : (i : ℕ) → (f i).sense ≡ not (parity (f i).passed)
  pub root : ((f 0).pc ≢ reporting) × ((f 0).pc ≢ awaiting)
  pub arrivals :
      (c : ℕ)
      → 0 < c
      → c < n
      → bit ((f ((c - 1) / 4)).cn ((c - 1) % 4)) + reports (f c) ≡ resets (f ((c - 1) / 4)) + 1
  pub quiet : (i k : ℕ) → (f i).pc ≡ resetting → k < 4 → (f i).cn k ≡ false
  pub told :
      (i : ℕ) → 0 < i → i < n → (f i).parent_sense ≡ parity (wakes ((i - 1) % 2) (f ((i - 1) / 2)))
  pub released : (i : ℕ) → 0 < i → i < n → releases (f i) ≤ wakes ((i - 1) % 2) (f ((i - 1) / 2))
  pub real : (i k : ℕ) → (f i).cn k ≡ true → i * 4 + 1 + k < n
