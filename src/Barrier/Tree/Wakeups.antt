-- ===== src/Barrier/Tree/Wakeups.antt =====
-- The steps of the tree barrier of project2/omp/gtmp2.c that lead down from the root keep its
-- invariant.
use advanced_os.Prelude.{
  ℕ, zero, suc, ◌+◌, ◌-◌, ◌/◌, ◌%◌, ◌≡◌, ◌≢◌, ◌≤◌, ◌<◌, Bool, true, not, ◌==◌, if◌then◌else◌, arith,
  inl, inr, refl, ap, ◌∙◌, subst, ==_iff, Bool-cases, dec_lt,
}
use advanced_os.Prelude.Family.{at}
use advanced_os.Barrier.Sense.{same}
use advanced_os.Barrier.Sense.Invariant.{parity}
use advanced_os.Barrier.Sense.Moves.{same-not}
use advanced_os.Barrier.Tree.{awaiting, waking_first, turning, Node, step_at}
use advanced_os.Barrier.Tree.Invariant.{stage, times, resets, releases, wakes, Good}
use advanced_os.Barrier.Tree.Chains.{releases-le-resets, wakes-le}

pub parity-next : (e : ℕ) → 0 < e → parity e ≡ not (parity (e - 1))
unfolding parity
parity-next zero h = absurd (omega arith)
parity-next (suc e) h = ap (λ k. not (parity k)) {x = e} {y = suc e - 1} (omega arith)

parity-add : (e : ℕ) → parity (e + 1) ≡ not (parity e)
parity-add e = ap parity {x = e + 1} {y = suc e} (omega arith) ∙ unfold parity in refl

-- A count that is at most one behind is told by its parity.
parity-tells :
    (w e : ℕ) (b s : Bool)
    → b ≡ parity w
    → s ≡ not (parity e)
    → same b s ≡ true
    → e ≤ w
    → w ≤ e + 1
    → w ≡ e + 1
parity-tells w e b s pb ps h lo hi = elim (dec_lt e w) [
  | yes more ↦ omega arith
  | no less ↦
      let eq : w ≡ e = omega arith in
      absurd (ground (arith, same-not (parity e), pb, ps, ap parity eq))
]

module _ (n i : ℕ) (f : ℕ → Node) (g : Good n f) (lt : i < n) where
  awaiter_pos : (f i).pc ≡ awaiting → 0 < i
  awaiter_pos p = by i refl
    where
      by : (j : ℕ) → i ≡ j → 0 < j
      by zero e = absurd (ground (arith, g.root))
      by (suc j) e = omega arith

  -- A thread that sees its sense has been woken as often as it has begun a call.
  woken :
      (f i).pc ≡ awaiting
      → same (f i).parent_sense (f i).sense ≡ true
      → (f i).entered ≤ wakes ((i - 1) % 2) (f ((i - 1) / 2))
  unfolding stage
  woken p h =
      let pos = awaiter_pos p in
      let w = wakes ((i - 1) % 2) (f ((i - 1) / 2)) in
      let own : (f i).passed ≡ (f i).entered - 1 = ground (arith, g.ended i) in
      let lo : (f i).entered - 1 ≤ w = ground (arith, g.released i pos lt) in
      let hi : resets (f i) ≡ (f i).entered = ground arith in
      let begun : 0 < (f i).entered = ground (arith, g.begun i) in
      omega (
        arith,
        own,
        begun,
        parity-tells w (f i).passed (f i).parent_sense (f i).sense (g.told i pos lt) (g.senses i) h
            (omega (arith, own, lo))
            (omega (
              arith,
              own,
              hi,
              begun,
              wakes-le ((i - 1) % 2) (f ((i - 1) / 2)),
              releases-le-resets n f g ((i - 1) / 2) i (omega arith) lt,
            )),
      )

  abbrev freed : ℕ → Node
  freed = at f i (record (f i) { pc = waking_first })

  freed-times :
      (k j : ℕ)
      → (f i).pc ≡ awaiting
      → (k ≡ 3 → times k (freed j) ≡ (if i == j then (f j).entered else times k (f j)))
        × (k ≢ 3 → times k (freed j) ≡ times k (f j))
  unfolding stage
  freed-times k j p = ground arith

  freed-wakes : (k j : ℕ) → (f i).pc ≡ awaiting → wakes k (freed j) ≡ wakes k (f j)
  freed-wakes k j p = ground (arith, freed-times 4 j p, freed-times 5 j p)

  freed-released :
      (j : ℕ)
      → 0 < j
      → j < n
      → (f i).pc ≡ awaiting
      → same (f i).parent_sense (f i).sense ≡ true
      → releases (freed j) ≤ wakes ((j - 1) % 2) (freed ((j - 1) / 2))
  freed-released j pos ltj p h = elim (Bool-cases (i == j)) [
    | inl own ↦
        subst (λ k. releases (freed k) ≤ wakes ((k - 1) % 2) (freed ((k - 1) / 2)))
          ((==_iff i j).0 own)
          (ground (arith, freed-times 3 i p, freed-wakes ((i - 1) % 2) ((i - 1) / 2) p, woken p h))
    | inr other ↦
        ground (
          arith,
          freed-times 3 j p,
          freed-wakes ((j - 1) % 2) ((j - 1) / 2) p,
          g.released j pos ltj,
        )
  ]

  pub released-Good :
      (f i).pc ≡ awaiting
      → same (f i).parent_sense (f i).sense ≡ true
      → Good n (at f i (record (f i) { pc = waking_first }))
  unfolding stage
  released-Good p h = record {
    begun = λ j nt. ground (arith, g.begun j);
    ended = λ j. ground (arith, g.ended j);
    senses = λ j. ground (arith, g.senses j);
    root = ground (arith, g.root);
    arrivals = λ c pos ltc. ground (arith, g.arrivals c);
    quiet = λ j k r ltk. ground (arith, g.quiet j k);
    told = λ j pos ltj. ground (arith, g.told j);
    released = λ j pos ltj. freed-released j pos ltj p h;
    real = λ j k h. ground (arith, g.real j k);
  }

  pub turn-Good : (f i).pc ≡ turning → Good n (step_at n i f turning)
  unfolding step_at stage
  turn-Good p = record {
    begun = λ j nt. ground (arith, g.begun j);
    ended = λ j. ground (arith, g.ended j, g.begun j);
    senses = λ j. ground (arith, g.senses j, parity-add (f i).passed);
    root = ground (arith, g.root);
    arrivals = λ c pos ltc. ground (arith, g.arrivals c);
    quiet = λ j k r ltk. ground (arith, g.quiet j k);
    told = λ j pos ltj. ground (arith, g.told j);
    released = λ j pos ltj. ground (arith, g.released j);
    real = λ j k h. ground (arith, g.real j k);
  }
