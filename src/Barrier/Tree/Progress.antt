-- ===== src/Barrier/Tree/Progress.antt =====
-- The threads of the tree barrier of project2/omp/gtmp2.c never all spin.
use advanced_os.Prelude.{
  ℕ, zero, suc, ◌+◌, ◌-◌, ◌*◌, ◌/◌, ◌%◌, ◌≡◌, ◌≢◌, ◌≤◌, ◌<◌, ◌⊎◌, Bool, true, false, not, arith,
  inl, inr, refl, ap, sym, ◌∙◌, subst, Bool-cases, dec_lt,
}
use advanced_os.Barrier.Sense.{same}
use advanced_os.Barrier.Sense.Invariant.{parity}
use advanced_os.Barrier.Sense.Moves.{same_self}
use advanced_os.Barrier.Tree.{
  Pc, gathering, resetting, reporting, awaiting, waking_first, waking_second, turning, outside,
  Node, some_child, step_at, gtmp_barrier, Reach,
}
use advanced_os.Barrier.Tree.Invariant.{stage, times, resets, reports, releases, wakes, bit, Good}
use advanced_os.Barrier.Tree.Chains.{times-entered, wakes-le, releases-le-resets}
use advanced_os.Barrier.Tree.Wakeups.{parity-next}
use advanced_os.Barrier.Tree.Safety.{Reach-Good}

-- a thread that sees what it has seen before
abbrev Spinning : Node → Type 0
Spinning t =
    ((t.pc ≡ gathering) × (some_child t.cn ≡ true))
    ⊎ ((t.pc ≡ awaiting) × (same t.parent_sense t.sense ≡ false))

stuck_or_moves :
    (n i : ℕ) (f : ℕ → Node) (pc : Pc)
    → (f i).pc ≡ pc
    → Spinning (f i) ⊎ ((step_at n i f pc i).pc ≢ pc)
unfolding step_at
stuck_or_moves n i f gathering p = elim (Bool-cases (some_child (f i).cn)) [
  | inl some ↦ inl (inl (p, some))
  | inr none ↦ inr (λ e. ground arith)
]
stuck_or_moves n i f awaiting p = elim (Bool-cases (same (f i).parent_sense (f i).sense)) [
  | inr unseen ↦ inl (inr (p, unseen))
  | inl seen ↦ inr (λ e. ground arith)
]
stuck_or_moves n i f resetting p = inr (λ e. ground arith)
stuck_or_moves n i f reporting p = inr (λ e. ground arith)
stuck_or_moves n i f waking_first p = inr (λ e. ground arith)
stuck_or_moves n i f waking_second p = inr (λ e. ground arith)
stuck_or_moves n i f turning p = inr (λ e. ground arith)
stuck_or_moves n i f outside p = inr (λ e. ground arith)

mover :
    (n : ℕ) (f : ℕ → Node) (m : ℕ)
    → m ≤ n
    → ((i : ℕ) → i < m → Spinning (f i))
      ⊎ ((i : ℕ) × (i < n) × ((gtmp_barrier n i f i).pc ≢ (f i).pc))
unfolding gtmp_barrier
mover n f zero h = inl (λ i lt. absurd (omega arith))
mover n f (suc m) h = elim (mover n f m (omega arith)) [
  | inr found ↦ inr found
  | inl stuck ↦ elim (stuck_or_moves n m f (f m).pc refl) [
    | inr moves ↦ inr (m, omega arith, moves)
    | inl last ↦ inl (λ i lt. elim (dec_lt i m) [
      | yes below ↦ stuck i below
      | no other ↦ subst (λ k. Spinning (f k)) {x = m} {y = i} (omega arith) last
    ])
  ]
]

some_of : (cn : ℕ → Bool) → some_child cn ≡ true → (k : ℕ) × (k < 4) × (cn k ≡ true)
some_of cn h = elim (Bool-cases (cn 0)) [
  | inl a ↦ (0, omega arith, a)
  | inr a ↦ elim (Bool-cases (cn 1)) [
    | inl b ↦ (1, omega arith, b)
    | inr b ↦ elim (Bool-cases (cn 2)) [
      | inl c ↦ (2, omega arith, c)
      | inr c ↦ (3, omega arith, ground arith)
    ]
  ]
]

module _ (n : ℕ) (f : ℕ → Node) (g : Good n f) (stuck : (i : ℕ) → i < n → Spinning (f i)) where
  -- A stuck thread has been released in all its calls but the current one.
  stuck_counts : (i : ℕ) → i < n → (releases (f i) ≡ (f i).entered - 1) × (0 < (f i).entered)
  unfolding stage
  stuck_counts i lt = ground (arith, stuck i lt, g.begun i)

  stuck_passed : (i : ℕ) → i < n → times 6 (f i) ≡ (f i).entered - 1
  unfolding stage
  stuck_passed i lt = ground (arith, stuck i lt)

  root_gathers : 0 < n → (f 0).pc ≡ gathering
  root_gathers pos = ground (arith, stuck 0 pos, g.root)

  near_root : (i : ℕ) → i < n → (f i).entered ≤ (f 0).entered
  unfolding stage
  near_root i lt = ground (
    arith,
    stuck_counts i lt,
    stuck_counts 0 (omega arith),
    root_gathers (omega arith),
    releases-le-resets n f g i 0 lt (omega arith),
  )

  gatherer : (i : ℕ) → i < n → (f i).pc ≡ gathering → (f 0).entered ≤ (f i).entered
  unfolding stage
  gatherer i lt p = ground (
    arith,
    stuck_counts i lt,
    stuck_counts 0 (omega arith),
    releases-le-resets n f g 0 i (omega arith) lt,
  )

  wakes_of : (k i : ℕ) → i < n → wakes k (f i) ≡ (f i).entered - 1
  unfolding stage
  wakes_of k i lt = ground (arith, stuck i lt)

  -- A thread that has been woken in its current call sees it.
  sees :
      (i : ℕ)
      → 0 < i
      → i < n
      → wakes ((i - 1) % 2) (f ((i - 1) / 2)) ≡ (f i).entered
      → same (f i).parent_sense (f i).sense ≡ true
  sees i pos lt e =
      let own : (f i).passed ≡ (f i).entered - 1 = ground (arith, g.ended i, stuck_passed i lt) in
      let turned : (f i).sense ≡ parity (f i).entered =
        g.senses i
        ∙ ap (λ k. not (parity k)) own
        ∙ sym (parity-next (f i).entered (stuck_counts i lt).1) in
      let told : (f i).parent_sense ≡ parity (f i).entered = g.told i pos lt ∙ ap parity e in
      rw (told, turned) (same_self (parity (f i).entered))

  -- A thread that awaits its wakeup is in the same call as the thread that is to wake it.
  unwoken :
      (i : ℕ) → 0 < i → i < n → (f i).pc ≡ awaiting → (f ((i - 1) / 2)).entered ≡ (f i).entered
  unwoken i pos lt p =
      let w = (i - 1) / 2 in
      let count = wakes ((i - 1) % 2) (f w) in
      let hi : count ≤ (f i).entered = omega (
        arith,
        wakes-le ((i - 1) % 2) (f w),
        releases-le-resets n f g w i (omega arith) lt,
        times-entered 1 (f i),
      ) in
      let lo : (f i).entered - 1 ≤ count = omega (arith, g.released i pos lt, stuck_counts i lt) in
      elim (dec_lt count (f i).entered) [
        | yes before ↦ omega (
          arith,
          wakes_of ((i - 1) % 2) w (omega arith),
          stuck_counts i lt,
          stuck_counts w (omega arith),
          lo,
          before,
        )
        | no woken ↦ absurd (ground (arith, stuck i lt, sees i pos lt (omega (arith, hi))))
      ]

  awaiter : (fuel i : ℕ) → i ≤ fuel → i < n → (f i).pc ≡ awaiting → (f i).entered ≡ (f 0).entered
  awaiter fuel zero h lt p = refl
  awaiter zero (suc i) h lt p = absurd (omega arith)
  awaiter (suc fuel) (suc i) h lt p =
      let w = (suc i - 1) / 2 in
      let same_call = unwoken (suc i) (omega arith) lt p in
      elim (stuck w (omega arith)) [
        | inl gathers ↦
            omega (arith, same_call, near_root w (omega arith), gatherer w (omega arith) gathers.0)
        | inr awaits ↦ omega (arith, same_call, awaiter fuel w (omega arith) (omega arith) awaits.0)
      ]

  gather_resets : (i : ℕ) → (f i).pc ≡ gathering → resets (f i) ≡ (f i).entered - 1
  unfolding stage
  gather_resets i p = ground arith

  await_reports : (i : ℕ) → (f i).pc ≡ awaiting → reports (f i) ≡ (f i).entered
  unfolding stage
  await_reports i p = ground arith

  arrival :
      (i k : ℕ)
      → i * 4 + 1 + k < n
      → k < 4
      → (f i).cn k ≡ true
      → reports (f (i * 4 + 1 + k)) ≡ resets (f i)
  arrival i k ltc small here =
      let c = i * 4 + 1 + k in
      let parent : (c - 1) / 4 ≡ i = omega arith in
      let slot : (c - 1) % 4 ≡ k = omega arith in
      let one : bit ((f i).cn k) ≡ 1 = ap bit here in
      let a : bit ((f i).cn k) + reports (f c) ≡ resets (f i) + 1 =
        subst (λ b. bit ((f b).cn k) + reports (f c) ≡ resets (f b) + 1) parent
          (subst (λ j. bit ((f ((c - 1) / 4)).cn j) + reports (f c) ≡ resets (f ((c - 1) / 4)) + 1)
            slot (g.arrivals c (omega arith) ltc)) in
      omega (arith, one, a)

  -- A child that has not reported is not behind its report.
  not_awaiting :
      (i k : ℕ)
      → i < n
      → k < 4
      → (f i).pc ≡ gathering
      → (f i).cn k ≡ true
      → (f (i * 4 + 1 + k)).pc ≢ awaiting
  not_awaiting i k lt small p here q =
      let c = i * 4 + 1 + k in
      let ltc : c < n = g.real i k here in
      absurd (
        omega (
          arith,
          arrival i k ltc small here,
          gather_resets i p,
          await_reports c q,
          awaiter c c (omega arith) ltc q,
          near_root i lt,
          gatherer i lt p,
          stuck_counts i lt,
        ))

  -- A thread that gathers waits for a child that gathers.
  child_gathers :
      (i : ℕ) → i < n → (f i).pc ≡ gathering → (c : ℕ) × (i < c) × (c < n) × ((f c).pc ≡ gathering)
  child_gathers i lt p =
      let (k, small, here) = some_of (f i).cn (ground (arith, stuck i lt)) in
      let c = i * 4 + 1 + k in
      let ltc : c < n = g.real i k here in
      elim (stuck c ltc) [
        | inl gathers ↦ (c, omega arith, ltc, gathers.0)
        | inr awaits ↦ absurd (not_awaiting i k lt small p here awaits.0)
      ]

  no_gatherer : (fuel i : ℕ) → n ≤ fuel + i → i < n → (f i).pc ≢ gathering
  no_gatherer zero i h lt p = absurd (omega arith)
  no_gatherer (suc fuel) i h lt p =
      let (c, more, ltc, q) = child_gathers i lt p in no_gatherer fuel c (omega arith) ltc q

-- With at least one thread, in every state that is reached some thread's step leads to another place:
-- the threads of the tree barrier never all spin.
pub some_thread_moves :
    (n : ℕ) (f : ℕ → Node)
    → 0 < n
    → Reach n f
    → (i : ℕ) × (i < n) × ((gtmp_barrier n i f i).pc ≢ (f i).pc)
some_thread_moves n f pos r = elim (mover n f n (omega arith)) [
  | inr found ↦ found
  | inl stuck ↦
      let g = Reach-Good r in
      absurd (no_gatherer n f g stuck n 0 (omega arith) pos (root_gathers n f g stuck pos))
]
