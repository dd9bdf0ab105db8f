-- ===== src/Barrier/Tree/Arrivals.antt =====
-- The steps of the tree barrier of project2/omp/gtmp2.c that lead up to the root keep its invariant.
use advanced_os.Prelude.{
  ℕ, zero, suc, ◌+◌, ◌-◌, ◌/◌, ◌%◌, ◌≡◌, ◌≢◌, ◌<◌, Bool, false, ◌==◌, if◌then◌else◌, arith, inl,
  inr, refl, subst, ==_iff, Bool-cases,
}
use advanced_os.Prelude.Family.{at}
use advanced_os.Barrier.Tree.{
  gathering, resetting, reporting, awaiting, outside, Node, some_child, step_at, report,
}
use advanced_os.Barrier.Tree.Invariant.{stage, times, resets, reports, bit, Good}
use advanced_os.Barrier.Tree.Chains.{releases-le-resets, bit-le}

module _ (n i : ℕ) (f : ℕ → Node) (g : Good n f) (lt : i < n) where
  pub enter-Good : (f i).pc ≡ outside → Good n (step_at n i f outside)
  unfolding step_at stage
  enter-Good p = record {
    begun = λ j h. ground (arith, g.begun j);
    ended = λ j. ground (arith, g.ended j);
    senses = λ j. ground (arith, g.senses j);
    root = ground (arith, g.root);
    arrivals = λ c pos ltc. ground (arith, g.arrivals c);
    quiet = λ j k h ltk. ground (arith, g.quiet j k);
    told = λ j pos ltj. ground (arith, g.told j);
    released = λ j pos ltj. ground (arith, g.released j);
    real = λ j k h. ground (arith, g.real j k);
  }

  no_child : (cn : ℕ → Bool) (k : ℕ) → some_child cn ≡ false → k < 4 → cn k ≡ false
  no_child cn zero h ltk = ground arith
  no_child cn (suc zero) h ltk = ground arith
  no_child cn (suc (suc zero)) h ltk = ground arith
  no_child cn (suc (suc (suc zero))) h ltk = ground arith
  no_child cn (suc (suc (suc (suc k)))) h ltk = absurd (omega arith)

  pub gathered-Good :
      (f i).pc ≡ gathering
      → some_child (f i).cn ≡ false
      → Good n (at f i (record (f i) { pc = resetting }))
  unfolding stage
  gathered-Good p none_left = record {
    begun = λ j h. ground (arith, g.begun j);
    ended = λ j. ground (arith, g.ended j);
    senses = λ j. ground (arith, g.senses j);
    root = ground (arith, g.root);
    arrivals = λ c pos ltc. ground (arith, g.arrivals c);
    quiet = λ j k h ltk. ground (arith, g.quiet j k, no_child (f i).cn k none_left ltk);
    told = λ j pos ltj. ground (arith, g.told j);
    released = λ j pos ltj. ground (arith, g.released j);
    real = λ j k h. ground (arith, g.real j k);
  }

  pub reset-Good : (f i).pc ≡ resetting → Good n (step_at n i f resetting)
  unfolding step_at stage
  reset-Good p = record {
    begun = λ j h. ground (arith, g.begun j);
    ended = λ j. ground (arith, g.ended j);
    senses = λ j. ground (arith, g.senses j);
    root = ground (arith, g.root);
    arrivals = λ c pos ltc.
        ground (arith, g.arrivals c pos ltc, g.begun i, g.quiet i ((c - 1) % 4) p (omega arith));
    quiet = λ j k h ltk. ground (arith, g.quiet j k);
    told = λ j pos ltj. ground (arith, g.told j);
    released = λ j pos ltj. ground (arith, g.released j);
    real = λ j k h. ground (arith, g.real j k);
  }

  -- the nodes before the store of a report
  abbrev moved : ℕ → Node
  moved = at f i (record (f i) { pc = awaiting })

  report-rest :
      (h : ℕ → Node) (j : ℕ)
      → ((report i h j).pc ≡ (h j).pc)
        × ((report i h j).entered ≡ (h j).entered)
        × ((report i h j).passed ≡ (h j).passed)
        × ((report i h j).sense ≡ (h j).sense)
        × ((report i h j).parent_sense ≡ (h j).parent_sense)
  unfolding report
  report-rest h j = ground arith

  report-cn :
      (h : ℕ → Node) (j k : ℕ)
      → (report i h j).cn k ≡ (
          if (i - 1) / 4 == j then (if (i - 1) % 4 == k then false else (h j).cn k) else (h j).cn k)
  unfolding report
  report-cn h j k = ground arith

  report-times : (h : ℕ → Node) (k j : ℕ) → times k (report i h j) ≡ times k (h j)
  report-times h k j = ground (arith, report-rest h j)

  moved-times :
      (k j : ℕ)
      → (f i).pc ≡ reporting
      → (k ≡ 2 → times k (moved j) ≡ (if i == j then (f j).entered else times k (f j)))
        × (k ≢ 2 → times k (moved j) ≡ times k (f j))
  unfolding stage
  moved-times k j p = ground arith

  reporter_pos : (f i).pc ≡ reporting → 0 < i
  reporter_pos p = by i refl
    where
      by : (j : ℕ) → i ≡ j → 0 < j
      by zero e = absurd (ground (arith, g.root))
      by (suc j) e = omega arith

  moved_cn : (j : ℕ) → (moved j).cn ≡ (f j).cn
  moved_cn j = ground arith

  own_arrival :
      (f i).pc ≡ reporting
      → bit ((report i moved ((i - 1) / 4)).cn ((i - 1) % 4)) + reports (report i moved i)
        ≡ resets (report i moved ((i - 1) / 4)) + 1
  unfolding stage
  own_arrival p =
      let b = (i - 1) / 4 in
      let pos = reporter_pos p in
      ground (
        arith,
        report-cn moved b ((i - 1) % 4),
        report-times moved 2 i,
        report-times moved 1 b,
        moved-times 2 i p,
        moved-times 1 b p,
        g.arrivals i pos lt,
        bit-le ((f b).cn ((i - 1) % 4)),
        releases-le-resets n f g i b lt (omega arith),
        g.begun i,
      )

  other_arrival :
      (c : ℕ)
      → 0 < c
      → c < n
      → (i == c) ≡ false
      → (f i).pc ≡ reporting
      → bit ((report i moved ((c - 1) / 4)).cn ((c - 1) % 4)) + reports (report i moved c)
        ≡ resets (report i moved ((c - 1) / 4)) + 1
  other_arrival c pos ltc ne p =
      let b = (c - 1) / 4 in
      ground (
        arith,
        report-cn moved b ((c - 1) % 4),
        report-times moved 2 c,
        report-times moved 1 b,
        moved-times 2 c p,
        moved-times 1 b p,
        g.arrivals c pos ltc,
        moved_cn b,
        reporter_pos p,
      )

  pub report-Good : (f i).pc ≡ reporting → Good n (step_at n i f reporting)
  unfolding step_at stage
  report-Good p = record {
    begun = λ j h. ground (arith, g.begun j, report-rest moved j);
    ended = λ j. ground (arith, g.ended j, report-rest moved j);
    senses = λ j. ground (arith, g.senses j, report-rest moved j);
    root = ground (arith, g.root, report-rest moved 0);
    arrivals = λ c pos ltc. elim (Bool-cases (i == c)) [
      | inl own ↦
          subst
            (λ j.
              bit ((report i moved ((j - 1) / 4)).cn ((j - 1) % 4)) + reports (report i moved j)
              ≡ resets (report i moved ((j - 1) / 4)) + 1)
            ((==_iff i c).0 own) (own_arrival p)
      | inr other ↦ other_arrival c pos ltc other p
    ];
    quiet = λ j k h ltk. ground (arith, g.quiet j k, report-rest moved j, report-cn moved j k);
    told = λ j pos ltj. ground (
      arith,
      g.told j,
      report-rest moved j,
      report-times moved 4 ((j - 1) / 2),
      report-times moved 5 ((j - 1) / 2),
      moved-times 4 ((j - 1) / 2) p,
      moved-times 5 ((j - 1) / 2) p,
    );
    released = λ j pos ltj. ground (
      arith,
      g.released j,
      report-times moved 3 j,
      moved-times 3 j p,
      report-times moved 4 ((j - 1) / 2),
      report-times moved 5 ((j - 1) / 2),
      moved-times 4 ((j - 1) / 2) p,
      moved-times 5 ((j - 1) / 2) p,
    );
    real = λ j k h. ground (arith, g.real j k, report-rest moved j, report-cn moved j k);
  }
