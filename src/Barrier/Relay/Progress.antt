-- ===== src/Barrier/Relay/Progress.antt =====
-- The processes of the tree barrier of project2/mpi/gtmpi2.c never all wait.
use advanced_os.Prelude.{
  ℕ, zero, suc, ◌+◌, ◌-◌, ◌/◌, ◌%◌, ◌≡◌, ◌≢◌, ◌≤◌, ◌<◌, ◌⊎◌, inl, inr, subst, refl, ltb, arith,
  Bool-cases, dec_lt, none, ltb→lt,
}
use advanced_os.Barrier.Relay.{
  Place, outside, gathering, aborted, reporting, awaiting, waking_first, waking_second, Process,
  Pending, System, first_child, num_children, gtmpi_barrier, Reach,
}
use advanced_os.Barrier.Relay.Invariant.{
  stage, finished, gathers, reports, releases, wakes, here, Good,
}
use advanced_os.Barrier.Relay.Counts.{releases-le, here-le}
use advanced_os.Barrier.Relay.Safety.{Reach-Good}

-- a process that waits for messages of which none is pending
abbrev Waiting : ℕ → Pending → ℕ → Place → Type 0
Waiting n m p place =
    ((c : ℕ) × (place ≡ gathering c)
      × (c < num_children n p)
      × ((k : ℕ) → k < 4 → m (first_child p + k) p ≡ 0))
    ⊎ ((place ≡ awaiting) × (m ((p - 1) / 2) p ≡ 0))

abbrev CanStep : ℕ → Pending → ℕ → ℕ → Place → Type 0
CanStep n m p entered place = (q : ℕ) × (gtmpi_barrier n p q m entered place ≢ none)

-- whether a message from a child is pending
from_child :
    (m : Pending) (p : ℕ)
    → ((k : ℕ) × (0 < m (first_child p + k) p)) ⊎ ((k : ℕ) → k < 4 → m (first_child p + k) p ≡ 0)
from_child m p = by 4
  where
    by :
        (d : ℕ)
        → ((k : ℕ) × (0 < m (first_child p + k) p))
          ⊎ ((k : ℕ) → k < d → m (first_child p + k) p ≡ 0)
    by zero = inr (λ k lt. absurd (omega arith))
    by (suc d) = elim (by d) [
      | inl found ↦ inl found
      | inr before ↦ elim (dec_lt 0 (m (first_child p + d) p)) [
        | yes pos ↦ inl (d, pos)
        | no empty ↦ inr (λ k lt. elim (dec_lt k d) [
          | yes below ↦ before k below
          | no last ↦
              subst (λ l. m (first_child p + l) p ≡ 0) {x = d} {y = k} (omega arith) (omega arith)
        ])
      ]
    ]

blocked_or_moves :
    (n : ℕ) (m : Pending) (p entered : ℕ) (place : Place)
    → place ≢ aborted
    → Waiting n m p place ⊎ CanStep n m p entered place
unfolding gtmpi_barrier
blocked_or_moves n m p entered outside h = inr (0, λ e. ground arith)
blocked_or_moves n m p entered (gathering c) h = elim (Bool-cases (ltb c (num_children n p))) [
  | inr over ↦ inr (0, λ e. ground arith)
  | inl more ↦ elim (from_child m p) [
    | inl (k, pos) ↦ inr (first_child p + k, λ e. ground arith)
    | inr empty ↦ inl (inl (c, refl, ltb→lt c (num_children n p) more, empty))
  ]
]
blocked_or_moves n m p entered aborted h = absurd (h refl)
blocked_or_moves n m p entered reporting h = inr (0, λ e. ground arith)
blocked_or_moves n m p entered awaiting h = elim (Bool-cases (ltb 0 (m ((p - 1) / 2) p))) [
  | inl got ↦ inr (0, λ e. ground arith)
  | inr empty ↦ inl (inr (refl, ground arith))
]
blocked_or_moves n m p entered waking_first h = inr (0, λ e. ground arith)
blocked_or_moves n m p entered waking_second h = inr (0, λ e. ground arith)

module _ (n : ℕ) (m : Pending) (f : ℕ → Process) (g : Good n m f) where
  someone :
      (k : ℕ)
      → k ≤ n
      → ((i : ℕ) → i < k → Waiting n m i (f i).place)
        ⊎ ((i : ℕ) × (i < n) × CanStep n m i (f i).entered (f i).place)
  someone zero h = inl (λ i lt. absurd (omega arith))
  someone (suc k) h = elim (someone k (omega arith)) [
    | inr found ↦ inr found
    | inl blocked ↦ elim (blocked_or_moves n m k (f k).entered (f k).place (g.going k)) [
      | inr goes ↦ inr (k, omega arith, goes)
      | inl last ↦ inl (λ i lt. elim (dec_lt i k) [
        | yes below ↦ blocked i below
        | no other ↦ subst (λ j. Waiting n m j (f j).place) {x = k} {y = i} (omega arith) last
      ])
    ]
  ]

module _ (n : ℕ) (m : Pending) (f : ℕ → Process) (g : Good n m f)
    (blocked : (i : ℕ) → i < n → Waiting n m i (f i).place) where
  blocked_counts : (i : ℕ) → i < n → (releases (f i) ≡ (f i).entered - 1) × (0 < (f i).entered)
  unfolding stage
  blocked_counts i lt = ground (arith, blocked i lt, g.begun i)

  root_gathers : 0 < n → (c : ℕ) × ((f 0).place ≡ gathering c)
  root_gathers pos = elim (blocked 0 pos) [
    | inl (c, e, more, empty) ↦ (c, e)
    | inr (e, empty) ↦ absurd (g.root.1 e)
  ]

  gather_counts : (i c : ℕ) → (f i).place ≡ gathering c → gathers (f i) ≡ (f i).entered - 1
  unfolding stage
  gather_counts i c e = ground arith

  await_counts : (i : ℕ) → (f i).place ≡ awaiting → reports (f i) ≡ (f i).entered
  unfolding stage
  await_counts i e = ground arith

  near_root : (i : ℕ) → i < n → (f i).entered ≤ (f 0).entered
  near_root i lt =
      let (c, e) = root_gathers (omega arith) in
      omega (
        arith,
        blocked_counts i lt,
        blocked_counts 0 (omega arith),
        gather_counts 0 c e,
        releases-le n m f g i 0 lt (omega arith),
      )

  gatherer : (i c : ℕ) → i < n → (f i).place ≡ gathering c → (f 0).entered ≤ (f i).entered
  gatherer i c lt e = omega (
    arith,
    blocked_counts i lt,
    blocked_counts 0 (omega arith),
    gather_counts i c e,
    releases-le n m f g 0 i (omega arith) lt,
  )

  wakes_of : (k i : ℕ) → i < n → wakes k (f i) ≡ (f i).entered - 1
  unfolding stage
  wakes_of k i lt = ground (arith, blocked i lt)

  -- A process that awaits its wakeup is in the same call as the process that is to wake it.
  unwoken :
      (i : ℕ) → 0 < i → i < n → m ((i - 1) / 2) i ≡ 0 → (f ((i - 1) / 2)).entered ≡ (f i).entered
  unwoken i pos lt empty =
      let w = (i - 1) / 2 in
      omega (
        arith,
        wakes_of ((i - 1) % 2) w (omega arith),
        blocked_counts i lt,
        blocked_counts w (omega arith),
        g.wakeups i pos lt,
        empty,
      )

  awaiter : (fuel i : ℕ) → i ≤ fuel → i < n → m ((i - 1) / 2) i ≡ 0 → (f i).entered ≡ (f 0).entered
  awaiter fuel zero h lt empty = refl
  awaiter zero (suc i) h lt empty = absurd (omega arith)
  awaiter (suc fuel) (suc i) h lt empty =
      let w = (suc i - 1) / 2 in
      let same_call = unwoken (suc i) (omega arith) lt empty in
      elim (blocked w (omega arith)) [
        | inl (c, e, more, none_there) ↦
            omega (arith, same_call, near_root w (omega arith), gatherer w c (omega arith) e)
        | inr (e, none_there) ↦
            omega (arith, same_call, awaiter fuel w (omega arith) (omega arith) none_there)
      ]

  -- Where a process is short of reports, one of its children has not reported.
  missing :
      (i c : ℕ)
      → i < n
      → (f i).place ≡ gathering c
      → c < num_children n i
      → (k : ℕ) × (k < 4) × (first_child i + k < n) × (here n m f i k ≡ 0)
  unfolding finished
  missing i c lt e short =
      let total : here n m f i 0 + here n m f i 1 + here n m f i 2 + here n m f i 3 ≡ c =
        ground (arith, g.counted i) in
      elim (dec_lt 0 (here n m f i 0)) [
        | no a ↦ (0, omega arith, ground arith, omega arith)
        | yes a ↦ elim (dec_lt 0 (here n m f i 1)) [
          | no b ↦ (1, omega arith, ground (arith, total, here-le n m f g i 0 lt), omega arith)
          | yes b ↦ elim (dec_lt 0 (here n m f i 2)) [
            | no d ↦ (2, omega arith, ground (arith, total), omega arith)
            | yes d ↦ (3, omega arith, ground (arith, total), ground (arith, total))
          ]
        ]
      ]

  -- A child that has not reported gathers.
  child_gathers :
      (i c : ℕ)
      → i < n
      → (f i).place ≡ gathering c
      → c < num_children n i
      → ((k : ℕ) → k < 4 → m (first_child i + k) i ≡ 0)
      → (b d : ℕ) × (i < b) × (b < n) × ((f b).place ≡ gathering d)
  child_gathers i c lt e short empty =
      let (k, small, ltb', slack) = missing i c lt e short in
      let b = first_child i + k in
      elim (blocked b ltb') [
        | inl (d, at_d, more, none_there) ↦ (b, d, omega arith, ltb', at_d)
        | inr (awaits, none_there) ↦
            let unreported : reports (f b) ≤ gathers (f i) = ground (arith, slack, empty k small) in
            absurd (
              omega (
                arith,
                unreported,
                await_counts b awaits,
                gather_counts i c e,
                awaiter b b (omega arith) ltb' none_there,
                near_root i lt,
                blocked_counts i lt,
              ))
      ]

  no_gatherer : (fuel i c : ℕ) → n ≤ fuel + i → i < n → (f i).place ≢ gathering c
  no_gatherer zero i c h lt e = absurd (omega arith)
  no_gatherer (suc fuel) i c h lt e = elim (blocked i lt) [
    | inl (d, at_d, short, empty) ↦
        let (b, d', more, lb, at_b) = child_gathers i d lt at_d short empty in
        no_gatherer fuel b d' (omega arith) lb at_b
    | inr (awaits, none_there) ↦ absurd (ground arith)
  ]

-- With at least one process, in every state that is reached some process can go on, with some source
-- for a message that may come from any: the tree barrier never deadlocks.
pub some_process_moves :
    (n : ℕ) (s : System)
    → 0 < n
    → Reach n s
    → (p : ℕ) × (p < n)
      × ((q : ℕ) × (gtmpi_barrier n p q s.pending (s.processes p).entered (s.processes p).place
            ≢ none))
some_process_moves n s pos r =
    let g = Reach-Good r in
    elim (someone n s.pending s.processes g n (omega arith)) [
      | inr found ↦ found
      | inl blocked ↦
          let (c, e) = root_gathers n s.pending s.processes g blocked pos in
          absurd (no_gatherer n s.pending s.processes g blocked n 0 c (omega arith) pos e)
    ]
