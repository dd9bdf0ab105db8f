-- ===== src/Barrier/Tree/Stores.antt =====
-- The stores of the wakeups of the tree barrier of project2/omp/gtmp2.c keep its invariant.
use advanced_os.Prelude.{
  ℕ, ◌+◌, ◌-◌, ◌*◌, ◌/◌, ◌%◌, ◌≡◌, ◌≢◌, ◌≤◌, ◌<◌, Bool, not, ◌==◌, if◌then◌else◌, arith, inl, inr,
  ap, sym, ◌∙◌, Bool-cases,
}
use advanced_os.Prelude.Family.{at}
use advanced_os.Barrier.Sense.Invariant.{parity}
use advanced_os.Barrier.Tree.{Pc, Node, wake}
use advanced_os.Barrier.Tree.Invariant.{stage, times, resets, reports, releases, wakes, bit, Good}
use advanced_os.Barrier.Tree.Wakeups.{parity-next}

module _ (n : ℕ) where
  wake-rest :
      (child : ℕ) (sense : Bool) (h : ℕ → Node) (j : ℕ)
      → ((wake n child sense h j).pc ≡ (h j).pc)
        × ((wake n child sense h j).entered ≡ (h j).entered)
        × ((wake n child sense h j).passed ≡ (h j).passed)
        × ((wake n child sense h j).sense ≡ (h j).sense)
        × ((wake n child sense h j).cn ≡ (h j).cn)
  unfolding wake
  wake-rest child sense h j = ground arith

  wake-told :
      (child : ℕ) (sense : Bool) (h : ℕ → Node) (j : ℕ)
      → j < n
      → (wake n child sense h j).parent_sense ≡ (if child == j then sense else (h j).parent_sense)
  unfolding wake
  wake-told child sense h j ltj = ground arith

  wake-times :
      (child : ℕ) (sense : Bool) (h : ℕ → Node) (k j : ℕ)
      → times k (wake n child sense h j) ≡ times k (h j)
  wake-times child sense h k j = ground (arith, wake-rest child sense h j)

-- A thread at the wakeup with number `q`, before which its place is `a` and behind which it is `b`.
module _ (n i : ℕ) (f : ℕ → Node) (g : Good n f) (lt : i < n) (q : ℕ) (a b : Pc) (small : q < 2)
    (before : stage a ≡ 4 + q) (behind : stage b ≡ 5 + q) (p : (f i).pc ≡ a) where
  abbrev gone : ℕ → Node
  gone = at f i (record (f i) { pc = b })

  abbrev waked : ℕ → Node
  waked = wake n (i * 2 + 1 + q) (f i).sense gone

  gone-times :
      (k j : ℕ)
      → (k ≡ 4 + q → times k (gone j) ≡ (if i == j then (f j).entered else times k (f j)))
        × (k ≢ 4 + q → times k (gone j) ≡ times k (f j))
  gone-times k j = ground arith

  waked-times : (k j : ℕ) → times k (waked j) ≡ times k (gone j)
  waked-times k j = wake-times n (i * 2 + 1 + q) (f i).sense gone k j

  begun_i : 0 < (f i).entered
  unfolding stage
  begun_i = ground (arith, g.begun i)

  sense_i : (f i).sense ≡ parity (f i).entered
  sense_i =
      let own : (f i).passed ≡ (f i).entered - 1 = ground (arith, g.ended i) in
      g.senses i ∙ ap (λ e. not (parity e)) own ∙ sym (parity-next (f i).entered begun_i)

  -- the wakeups of a slot, as often as before but for that of this step
  waked-wakes :
      (k j : ℕ)
      → k < 2
      → wakes k (waked j)
        ≡ (if i == j then (if k == q then (f j).entered else wakes k (f j)) else wakes k (f j))
  waked-wakes k j ltk =
      ground (arith, waked-times 4 j, waked-times 5 j, gone-times 4 j, gone-times 5 j)

  waked_told :
      (j : ℕ)
      → 0 < j
      → j < n
      → (waked j).parent_sense ≡ parity (wakes ((j - 1) % 2) (waked ((j - 1) / 2)))
  waked_told j pos ltj =
      let w = wakes ((j - 1) % 2) (waked ((j - 1) / 2)) in
      elim (Bool-cases (i * 2 + 1 + q == j)) [
        | inl own ↦
            let eq : w ≡ (f i).entered = ground (arith, waked-wakes ((j - 1) % 2) ((j - 1) / 2)) in
            ground
              (arith, wake-told n (i * 2 + 1 + q) (f i).sense gone j ltj, sense_i, ap parity eq)
        | inr other ↦
            let eq : w ≡ wakes ((j - 1) % 2) (f ((j - 1) / 2)) =
              ground (arith, waked-wakes ((j - 1) % 2) ((j - 1) / 2)) in
            ground (
              arith,
              wake-told n (i * 2 + 1 + q) (f i).sense gone j ltj,
              g.told j pos ltj,
              ap parity eq,
            )
      ]

  waked_released :
      (j : ℕ) → 0 < j → j < n → releases (waked j) ≤ wakes ((j - 1) % 2) (waked ((j - 1) / 2))
  waked_released j pos ltj = ground (
    arith,
    waked-times 3 j,
    gone-times 3 j,
    g.released j pos ltj,
    waked-wakes ((j - 1) % 2) ((j - 1) / 2),
  )

  rest :
      (j : ℕ)
      → ((waked j).pc ≡ (gone j).pc)
        × ((waked j).entered ≡ (gone j).entered)
        × ((waked j).passed ≡ (gone j).passed)
        × ((waked j).sense ≡ (gone j).sense)
        × ((waked j).cn ≡ (gone j).cn)
  rest j = wake-rest n (i * 2 + 1 + q) (f i).sense gone j

  gone_cn : (j : ℕ) → (gone j).cn ≡ (f j).cn
  gone_cn j = ground arith

  waked_arrivals :
      (c : ℕ)
      → 0 < c
      → c < n
      → bit ((waked ((c - 1) / 4)).cn ((c - 1) % 4)) + reports (waked c)
        ≡ resets (waked ((c - 1) / 4)) + 1
  waked_arrivals c pos ltc =
      let b = (c - 1) / 4 in
      let same_cn : bit ((waked b).cn ((c - 1) % 4)) ≡ bit ((f b).cn ((c - 1) % 4)) =
        ap (λ (l : ℕ → Bool). bit (l ((c - 1) % 4)))
          (wake-rest n (i * 2 + 1 + q) (f i).sense gone b).4
        ∙ ap (λ (l : ℕ → Bool). bit (l ((c - 1) % 4))) (gone_cn b) in
      let reported : reports (waked c) ≡ reports (f c) =
        waked-times 2 c ∙ (gone-times 2 c).1 (omega arith) in
      let reset : resets (waked b) ≡ resets (f b) =
        waked-times 1 b ∙ (gone-times 1 b).1 (omega arith) in
      omega (arith, same_cn, reported, reset, g.arrivals c pos ltc)

  pub waked-Good : Good n waked
  unfolding stage
  waked-Good = record {
    begun = λ j nt. ground (arith, g.begun j, rest j);
    ended = λ j. ground (arith, g.ended j, rest j, waked-times 6 j, gone-times 6 j);
    senses = λ j. ground (arith, g.senses j, rest j);
    root = ground (arith, g.root, rest 0);
    arrivals = waked_arrivals;
    quiet = λ j k r ltk. ground (arith, g.quiet j k, rest j);
    told = waked_told;
    released = waked_released;
    real = λ j k h. ground (arith, g.real j k, rest j, gone_cn j);
  }
