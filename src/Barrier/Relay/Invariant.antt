-- ===== src/Barrier/Relay/Invariant.antt =====
-- What holds of the tree barrier of project2/mpi/gtmpi2.c between two steps.
use advanced_os.Prelude.{ℕ, ◌+◌, ◌-◌, ◌/◌, ◌%◌, ◌≡◌, ◌≢◌, ◌≤◌, ◌<◌, ◌⊎◌, ltb, ◌==◌, if◌then◌else◌}
use advanced_os.Barrier.Relay.{
  Place, outside, gathering, aborted, reporting, awaiting, waking_first, waking_second, Process,
  Pending, first_child,
}

-- The steps of a call that are behind a process.
unfoldable pub stage : Place → ℕ
stage (gathering c) = 0
stage aborted = 0
stage reporting = 1
stage awaiting = 2
stage waking_first = 3
stage waking_second = 4
stage outside = 5

unfoldable pub finished : Place → ℕ
finished (gathering c) = c
finished aborted = 0
finished reporting = 0
finished awaiting = 0
finished waking_first = 0
finished waking_second = 0
finished outside = 0

-- How often a process has been through the step with number `k`.
abbrev pub times : ℕ → Process → ℕ
times k t = if ltb k (stage t.place) then t.entered else t.entered - 1

abbrev pub gathers : Process → ℕ
gathers = times 0

abbrev pub reports : Process → ℕ
reports = times 1

abbrev pub releases : Process → ℕ
releases = times 2

-- the wakeups of the first and of the second child
abbrev pub wakes : ℕ → Process → ℕ
wakes k t = if k == 0 then times 3 t else times 4 t

-- whether the report of the child with number `k` has been received and not yet been used
abbrev pub here : ℕ → Pending → (ℕ → Process) → ℕ → ℕ → ℕ
here n m f i k =
    if ltb (first_child i + k) n
    then reports (f (first_child i + k)) - m (first_child i + k) i - gathers (f i)
    else 0

pub record Good (n : ℕ) (m : Pending) (f : ℕ → Process) : Type 0 where
  pub begun : (i : ℕ) → (f i).place ≢ outside → 0 < (f i).entered
  pub root : ((f 0).place ≢ reporting) × ((f 0).place ≢ awaiting)
  pub going : (i : ℕ) → (f i).place ≢ aborted
  pub arrivals :
      (c : ℕ) → 0 < c → c < n → gathers (f ((c - 1) / 4)) + m c ((c - 1) / 4) ≤ reports (f c)
  pub counted :
      (i : ℕ)
      → here n m f i 0 + here n m f i 1 + here n m f i 2 + here n m f i 3 ≡ finished (f i).place
  pub wakeups :
      (j : ℕ)
      → 0 < j
      → j < n
      → releases (f j) + m ((j - 1) / 2) j ≡ wakes ((j - 1) % 2) (f ((j - 1) / 2))
  pub quiet :
      (q p : ℕ)
      → 0 < m q p
      → ((0 < q) × (q < n) × ((q - 1) / 4 ≡ p)) ⊎ ((0 < p) × ((p - 1) / 2 ≡ q))
