-- ===== src/Barrier/Relay/Arrivals.antt =====
-- The entry of a call and the end of the loop in the tree barrier of project2/mpi/gtmpi2.c keep its
-- invariant.
use advanced_os.Prelude.{
  ℕ, ◌+◌, ◌-◌, ◌/◌, ◌%◌, ◌≡◌, ◌≤◌, ◌<◌, inl, inr, refl, ltb, ◌==◌, if◌then◌else◌, arith, Bool-cases,
}
use advanced_os.Prelude.Family.{at}
use advanced_os.Barrier.Relay.{
  outside, gathering, reporting, waking_first, Process, Pending, first_child, num_children,
}
use advanced_os.Barrier.Relay.Invariant.{stage, finished, gathers, reports, here, Good}
use advanced_os.Barrier.Relay.Counts.{all_here, here_of, counted_still}

module _ (n p : ℕ) (m : Pending) (f : ℕ → Process) (g : Good n m f) (lt : p < n) where
  pub enter-Good :
      (f p).place ≡ outside
      → Good n m (at f p (record { place = gathering 0; entered = (f p).entered + 1 }))
  unfolding stage finished
  enter-Good e = record {
    begun = λ i h. ground (arith, g.begun i);
    root = ground (arith, g.root);
    going = λ i. ground (arith, g.going i);
    arrivals = λ c pos ltc. ground (arith, g.arrivals c);
    counted =
        counted_still n m m f (at f p (record { place = gathering 0; entered = (f p).entered + 1 }))
          g (λ i k ltk. ground arith) (λ i. ground arith);
    wakeups = λ j pos ltj. ground (arith, g.wakeups j);
    quiet = g.quiet;
  }

  -- the processes where the loop is over
  abbrev gathered : ℕ → Process
  gathered =
      at f p
        (record { place = if p == 0 then waking_first else reporting; entered = (f p).entered })

  slot_behind_loop :
      (c i k : ℕ)
      → (f p).place ≡ gathering c
      → num_children n p ≤ c
      → k < 4
      → here n m gathered i k ≡ (if p == i then 0 else here n m f i k)
  unfolding stage finished
  slot_behind_loop c i k e enough ltk = elim (Bool-cases (p == i)) [
    | inl own ↦
        let c' = first_child i + k in
        let old : here n m f i k ≡ (if ltb c' n then 1 else 0) =
          all_here n m f g i k (ground arith) ltk (ground arith) in
        ground (
          arith,
          old,
          here_of n m gathered i k (reports (f c')) (m c' i) (gathers (f i) + 1) (ground arith) refl
              (ground (arith, g.begun p)),
        )
    | inr other ↦ ground arith
  ]

  counted_behind_loop :
      (c i : ℕ)
      → (f p).place ≡ gathering c
      → num_children n p ≤ c
      → here n m gathered i 0
          + here n m gathered i 1
          + here n m gathered i 2
          + here n m gathered i 3
        ≡ finished (gathered i).place
  unfolding finished
  counted_behind_loop c i e enough =
      let slot = λ (k : ℕ). slot_behind_loop c i k e enough in
      let ends : finished (gathered i).place ≡ (if p == i then 0 else finished (f i).place) =
        ground arith in
      ground (
        arith,
        ends,
        g.counted i,
        slot 0 (omega arith),
        slot 1 (omega arith),
        slot 2 (omega arith),
        slot 3 (omega arith),
      )

  arrivals_behind_loop :
      (c k : ℕ)
      → (f p).place ≡ gathering c
      → num_children n p ≤ c
      → 0 < k
      → k < n
      → gathers (gathered ((k - 1) / 4)) + m k ((k - 1) / 4) ≤ reports (gathered k)
  unfolding stage finished
  arrivals_behind_loop c k e enough pos ltk =
      let b = (k - 1) / 4 in
      let name : first_child b + (k - 1) % 4 ≡ k = omega arith in
      let old : reports (f k) ≤ reports (gathered k) = ground arith in
      elim (Bool-cases (p == b)) [
        | inr other ↦ ground (arith, g.arrivals k pos ltk, old)
        | inl own ↦
            let enough_b : num_children n b ≤ finished (f b).place = ground arith in
            let came : here n m f b ((k - 1) % 4) ≡ 1 =
              ground
                (arith, all_here n m f g b ((k - 1) % 4) (omega arith) (omega arith) enough_b) in
            let full : gathers (f b) + 1 + m k b ≤ reports (f k) = ground (arith, came, name) in
            ground (arith, old, full)
      ]

  pub gathered-Good : (c : ℕ) → (f p).place ≡ gathering c → num_children n p ≤ c → Good n m gathered
  unfolding stage finished
  gathered-Good c e enough = record {
    begun = λ i h. ground (arith, g.begun i);
    root = ground (arith, g.root);
    going = λ i. ground (arith, g.going i);
    arrivals = λ k pos ltk. arrivals_behind_loop c k e enough pos ltk;
    counted = λ i. counted_behind_loop c i e enough;
    wakeups = λ j pos ltj. ground (arith, g.wakeups j);
    quiet = g.quiet;
  }
