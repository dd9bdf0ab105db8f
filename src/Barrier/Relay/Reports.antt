-- ===== src/Barrier/Relay/Reports.antt =====
-- The sending and the receiving of reports in the tree barrier of project2/mpi/gtmpi2.c keep its
-- invariant.
use advanced_os.Prelude.{
  ℕ, zero, suc, ◌+◌, ◌-◌, ◌/◌, ◌≡◌, ◌≤◌, ◌<◌, Bool, true, inl, inr, subst, refl, ap, ◌==◌,
  if◌then◌else◌, arith, Bool-cases,
}
use advanced_os.Prelude.Family.{at}
use advanced_os.Barrier.Relay.{
  gathering, aborted, reporting, awaiting, Process, Pending, first_child, num_children, send, take,
  asserted,
}
use advanced_os.Barrier.Relay.Invariant.{stage, finished, gathers, reports, here, Good}
use advanced_os.Barrier.Relay.Counts.{source_child, here_of, counted_still}

-- One more of the messages that are counted has been received.
slot_up :
    {x y : ℕ} (a b c : ℕ) {real own this : Bool}
    → real ≡ true
    → own ≡ true
    → this ≡ true
    → x ≡ (if real then a - (b - 1) - c else 0)
    → y ≡ (if real then a - b - c else 0)
    → c + b ≤ a
    → 0 < b
    → x ≡ y + (if own then (if this then 1 else 0) else 0)
slot_up a b c er eo et ex ey le pos = ground arith

module _ (n p : ℕ) (m : Pending) (f : ℕ → Process) (g : Good n m f) (lt : p < n) where
  -- the processes where one more report has been received
  abbrev received : ℕ → ℕ → ℕ → Process
  received c q = at f p (record {
    place = if asserted n p q then gathering (c + 1) else aborted;
    entered = (f p).entered;
  })

  slot_behind_receive :
      (c q i k : ℕ)
      → (f p).place ≡ gathering c
      → 0 < m q p
      → k < 4
      → here n (take m q p) (received c q) i k
        ≡ here n m f i k + (if p == i then (if first_child p + k == q then 1 else 0) else 0)
  unfolding take stage
  slot_behind_receive c q i k e pos ltk =
      let child = source_child n m f g q p c lt e pos in
      let kept = g.arrivals (first_child i + k) in
      elim (Bool-cases (p == i)) [
        | inl own ↦ elim (Bool-cases (first_child p + k == q)) [
          | inl this ↦
              let one : first_child i + k ≡ q = ground arith in
              let parent : (q - 1) / 4 ≡ i = ground (arith, child) in
              let slack : gathers (f i) + m q i ≤ reports (f q) =
                subst (λ b. gathers (f b) + m q b ≤ reports (f q)) parent
                  (g.arrivals q child.0 child.1) in
              let reported = ap (λ j. reports (f j)) one in
              let some_left : 0 < m q i = ground arith in
              slot_up (reports (f q)) (m q i) (gathers (f i)) (ground (arith, one, child.1)) own
                this
                (here_of n (take m q p) (received c q) i k (reports (f q)) (m q i - 1)
                  (gathers (f i)) (ground (arith, reported)) (ground (arith, one)) (ground arith))
                (here_of n m f i k (reports (f q)) (m q i) (gathers (f i)) reported
                  (ap (λ j. m j i) one) refl)
                slack some_left
          | inr that ↦ ground arith
        ]
        | inr other ↦
            let same =
              here_of n (take m q p) (received c q) i k (reports (f (first_child i + k)))
                (m (first_child i + k) i) (gathers (f i)) (ground arith) (ground arith)
                (ground arith) in
            rw (same, other) (omega arith)
      ]

  counted_behind_receive :
      (c q i : ℕ)
      → (f p).place ≡ gathering c
      → 0 < m q p
      → here n (take m q p) (received c q) i 0
          + here n (take m q p) (received c q) i 1
          + here n (take m q p) (received c q) i 2
          + here n (take m q p) (received c q) i 3
        ≡ finished (received c q i).place
  unfolding finished
  counted_behind_receive c q i e pos =
      let child = source_child n m f g q p c lt e pos in
      let slot = λ (k : ℕ). slot_behind_receive c q i k e pos in
      let fine : asserted n p q ≡ true = ground (arith, child) in
      let ends : finished (received c q i).place
          ≡ finished (f i).place + (if p == i then 1 else 0) =
        ground (arith, fine) in
      let four : (i' : ℕ)
          → (p == i') ≡ true
          → (if first_child p + 0 == q then 1 else 0)
              + (if first_child p + 1 == q then 1 else 0)
              + (if first_child p + 2 == q then 1 else 0)
              + (if first_child p + 3 == q then 1 else 0)
            ≡ 1 =
        λ i' o. ground (arith, child) in
      elim (Bool-cases (p == i)) [
        | inl own ↦ ground (
          arith,
          ends,
          g.counted i,
          four i own,
          slot 0 (omega arith),
          slot 1 (omega arith),
          slot 2 (omega arith),
          slot 3 (omega arith),
        )
        | inr other ↦ ground (
          arith,
          ends,
          g.counted i,
          slot 0 (omega arith),
          slot 1 (omega arith),
          slot 2 (omega arith),
          slot 3 (omega arith),
        )
      ]

  pub received-Good :
      (c q : ℕ)
      → (f p).place ≡ gathering c
      → c < num_children n p
      → 0 < m q p
      → Good n (take m q p) (received c q)
  unfolding take stage finished
  received-Good c q e more pos = record {
    begun = λ i h. ground (arith, g.begun i);
    root = ground (arith, g.root);
    going = λ i. ground (arith, g.going i, source_child n m f g q p c lt e pos);
    arrivals = λ k posk ltk. ground (arith, g.arrivals k);
    counted = λ i. counted_behind_receive c q i e pos;
    wakeups = λ j posj ltj. ground (arith, g.wakeups j, source_child n m f g q p c lt e pos);
    quiet = λ r i h. ground (arith, g.quiet r i);
  }

  reporter_pos : (f p).place ≡ reporting → 0 < p
  reporter_pos e = by p refl
    where
      by : (j : ℕ) → p ≡ j → 0 < j
      by zero same = absurd (ground (arith, g.root))
      by (suc j) same = omega arith

  slot_behind_report :
      (i k : ℕ)
      → k < 4
      → (f p).place ≡ reporting
      → here n
          (send m p ((p - 1) / 4))
          (at f p (record { place = awaiting; entered = (f p).entered }))
          i
          k
        ≡ here n m f i k
  unfolding send stage
  slot_behind_report i k ltk e =
      let c = first_child i + k in
      let g' = at f p (record { place = awaiting; entered = (f p).entered }) in
      elim (Bool-cases (p == c)) [
        | inl own ↦
            let pos = reporter_pos e in
            let one : c ≡ p = ground arith in
            let parent : (c - 1) / 4 ≡ i = omega arith in
            let new =
              here_of n (send m p ((p - 1) / 4)) g' i k (reports (f c) + 1) (m c i + 1)
                (gathers (f i)) (ground (arith, g.begun p)) (ground (arith, parent))
                (ground arith) in
            rw new (ground arith)
        | inr other ↦
            here_of n (send m p ((p - 1) / 4)) g' i k (reports (f c)) (m c i) (gathers (f i))
              (ground arith) (ground arith) (ground arith)
      ]

  pub report-Good :
      (f p).place ≡ reporting
      → Good n
          (send m p ((p - 1) / 4))
          (at f p (record { place = awaiting; entered = (f p).entered }))
  unfolding send stage finished
  report-Good e = record {
    begun = λ i h. ground (arith, g.begun i);
    root = ground (arith, g.root);
    going = λ i. ground (arith, g.going i);
    arrivals = λ k posk ltk. ground (arith, g.arrivals k, g.begun p, reporter_pos e);
    counted =
        counted_still n m (send m p ((p - 1) / 4)) f
          (at f p (record { place = awaiting; entered = (f p).entered })) g
          (λ i k ltk. slot_behind_report i k ltk e) (λ i. ground arith);
    wakeups = λ j posj ltj. ground (arith, g.wakeups j, reporter_pos e);
    quiet = λ r i h. ground (arith, g.quiet r i, reporter_pos e);
  }
