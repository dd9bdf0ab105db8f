-- ===== src/Barrier/Combined/Safety.antt =====
-- What the combined barrier promises, in every interleaving of the threads of all processes.
use advanced_os.Prelude.{
  ℕ, suc, ◌<◌, ◌≤◌, ◌≡◌, inl, inr, refl, ap, sym, subst, ◌∙◌, Bool, true, false, ◌&&◌, Option, none,
  some, ◌==◌, ==_iff, if◌then◌else◌, arith, ℕ_discrete, Bool-cases,
}
use mathlib.Core.Option.{some-injective}
use advanced_os.Barrier.Sense as Sense
use advanced_os.Barrier.Sense.Invariant.{Closing}
use advanced_os.Barrier.Sense.Safety.{init-Gathering, Phase-Counts}
use advanced_os.Barrier.Dissemination as Dissemination
use advanced_os.Barrier.Dissemination.Invariant.{Inv, Inv-idle}
use advanced_os.Barrier.Dissemination.Safety.{Holds, moves, passed_at, passed-le}
use advanced_os.Barrier.Combined.{
  Node, System, combined_init, rounds_left, is_last, disseminate, go_on, combined_barrier, Reach,
  begin, next,
}
use advanced_os.Barrier.Combined.Links.{
  Link, gathers, before, within, behind, Linked, moved, moved-Linked, calls, disseminate-Linked,
}

pub record Whole (n w : ℕ) (s : System) : Type 0 where
  pub mpi : Inv n s.mpi.pending s.mpi.processes
  pub linked : (p : ℕ) → p < n → Linked w (s.nodes p) (s.mpi.processes p)

init-Whole : (n w : ℕ) → 0 < w → Whole n w (combined_init w)
init-Whole n w pos = record {
  mpi = Inv-idle n;
  linked = λ p lt. (0, gathers (init-Gathering w pos) refl refl refl);
}

-- what a conditional result is, if there is one
pub picked : {A : Type 0} (b : Bool) (x r : A) → (if b then some x else none) ≡ some r → r ≡ x
picked true x r h = sym (some-injective _ _ h)
picked false x r h = absurd cc

-- the calls begun, behind a step of the dissemination barrier
entered_after :
    (n p entered : ℕ) (m : Dissemination.Pending) (place : Dissemination.Place)
    (r : Dissemination.Pending × Dissemination.Process)
    → Dissemination.gtmpi_barrier n p m entered place ≡ some r
    → r.1.entered ≡ calls place entered
unfolding Dissemination.gtmpi_barrier
entered_after n p entered m Dissemination.outside r h =
    sym (
      ap (λ (x : Dissemination.Pending × Dissemination.Process). x.1.entered)
        (some-injective _ _ h))
    ∙ omega arith
entered_after n p entered m (Dissemination.receiving k) r h =
    ap (λ (x : Dissemination.Pending × Dissemination.Process). x.1.entered) (picked _ _ r h)

abbrev StaysWhole : ℕ → ℕ → Option System → Type 0
StaysWhole n w none = Unit
StaysWhole n w (some s) = Whole n w s

module _ (n w p i : ℕ) (s : System) (ltp : p < n) (lti : i < w) (h : Whole n w s) where
  abbrev node : Node
  node = s.nodes p

  abbrev t : Dissemination.Process
  t = s.mpi.processes p

  disseminate-Whole :
      (o : Option (Dissemination.Pending × Dissemination.Process))
      → Dissemination.gtmpi_barrier n p s.mpi.pending t.entered t.place ≡ o
      → is_last (node.team.threads i).pc ≡ true
      → rounds_left t.place node.disseminated ≡ true
      → StaysWhole n w (disseminate p s o)
  unfolding disseminate
  disseminate-Whole none e here left = tt
  disseminate-Whole (some r) e here left =
      let (k, link) = h.linked p ltp in
      record {
        mpi =
            subst (Holds n s.mpi.processes p) e
              (moves n s.mpi.pending s.mpi.processes p ltp h.mpi t.place refl);
        linked = λ q ltq. elim (Bool-cases (p == q)) [
          | inl this ↦ rw this (
              disseminate-Linked w i node t r.1 lti k link here left
                (entered_after n p t.entered s.mpi.pending t.place r e))
          | inr other ↦ rw other (h.linked q ltq)
        ];
      }

  go_on-Whole :
      (is_last (node.team.threads i).pc && rounds_left t.place node.disseminated) ≡ false
      → Whole n w (go_on w p i s)
  unfolding go_on
  go_on-Whole no_round =
      let (k, link) = h.linked p ltp in
      record {
        mpi = h.mpi;
        linked = λ q ltq. elim (Bool-cases (p == q)) [
          | inl this ↦ rw this (
              subst (Linked w (moved w i node)) (ap s.mpi.processes ((==_iff p q).0 this))
                (moved-Linked w i node t lti k link no_round))
          | inr other ↦ rw other (h.linked q ltq)
        ];
      }

  both : (a b : Bool) → (a && b) ≡ true → (a ≡ true) × (b ≡ true)
  both true b e = (refl, e)
  both false b e = absurd cc

  step-Whole : StaysWhole n w (combined_barrier n w p i s)
  unfolding combined_barrier
  step-Whole =
      elim (Bool-cases
        (is_last (node.team.threads i).pc && rounds_left t.place node.disseminated)) [
          | inl round ↦
              let (here, left) = both _ _ round in rw round (disseminate-Whole _ refl here left)
          | inr no_round ↦ rw no_round (go_on-Whole no_round)
        ]

pub Reach-Whole : {n w : ℕ} {s : System} → 0 < w → Reach n w s → Whole n w s
Reach-Whole {n} {w} pos begin = init-Whole n w pos
Reach-Whole {n} {w} pos (next {s} p i s' ltp lti r e) =
    subst (StaysWhole n w) e (step-Whole n w p i s ltp lti (Reach-Whole pos r))

Closing-entered :
    (w e k j : ℕ) (team : Sense.System)
    → Closing w e k team
    → j < w
    → (team.threads j).entered ≡ suc e
Closing-entered w e k j team c lt = elim (ℕ_discrete j k) [
  | yes eq ↦ ap (λ x. (team.threads x).entered) eq ∙ c.entered
  | no ne ↦ (c.others j lt ne).1
]

-- A thread has ended no more calls than its process has of the dissemination barrier,
passed-calls :
    (w i e : ℕ) (node : Node) (t : Dissemination.Process) (place : Dissemination.Place)
    → t.place ≡ place
    → i < w
    → Link w e node t
    → (node.team.threads i).passed ≤ passed_at place t.entered
passed-calls w i e node t Dissemination.outside at_place lt (gathers g d out same) =
    omega (arith, Phase-Counts w e node.team (inl g) i lt)
passed-calls w i e node t Dissemination.outside at_place lt (before k c at_last d out same) =
    omega (arith, Phase-Counts w e node.team (inr (k, c)) i lt)
passed-calls w i e node t Dissemination.outside at_place lt (within k c at_last d same) =
    omega (arith, Phase-Counts w e node.team (inr (k, c)) i lt)
passed-calls w i e node t Dissemination.outside at_place lt (behind k c at_reset d out same) =
    omega (arith, Phase-Counts w e node.team (inr (k, c)) i lt)
passed-calls w i e node t (Dissemination.receiving r) at_place lt (gathers g d out same) =
    absurd (cc (at_place, out))
passed-calls w i e node t (Dissemination.receiving r) at_place lt (before k c at_last d out same) =
    absurd (cc (at_place, out))
passed-calls w i e node t (Dissemination.receiving r) at_place lt (within k c at_last d same) =
    omega (arith, Phase-Counts w e node.team (inr (k, c)) i lt)
passed-calls w i e node t (Dissemination.receiving r) at_place lt (behind k c at_reset d out same) =
    absurd (cc (at_place, out))

-- and its process has begun no more calls of that than the thread has of the whole.
calls-entered :
    (w j e : ℕ) (node : Node) (t : Dissemination.Process)
    → j < w
    → Link w e node t
    → t.entered ≤ (node.team.threads j).entered
calls-entered w j e node t lt (gathers g d out same) =
    omega (arith, Phase-Counts w e node.team (inl g) j lt)
calls-entered w j e node t lt (before k c at_last d out same) =
    omega (arith, Closing-entered w e k j node.team c lt)
calls-entered w j e node t lt (within k c at_last d same) =
    omega (arith, Closing-entered w e k j node.team c lt)
calls-entered w j e node t lt (behind k c at_reset d out same) =
    omega (arith, Closing-entered w e k j node.team c lt)

-- With at least one thread for each process: no thread of any process ends a call of the barrier
-- before every thread of every process has begun its own.
pub no_thread_early :
    (n w : ℕ) (s : System) (p i q j : ℕ)
    → 0 < w
    → Reach n w s
    → p < n
    → i < w
    → q < n
    → j < w
    → ((s.nodes p).team.threads i).passed ≤ ((s.nodes q).team.threads j).entered
no_thread_early n w s p i q j pos r ltp lti ltq ltj =
    let h = Reach-Whole pos r in
    let (a, link) = h.linked p ltp in
    let (b, link') = h.linked q ltq in
    omega (
      arith,
      passed-calls w i a (s.nodes p) (s.mpi.processes p) (s.mpi.processes p).place refl lti link,
      passed-le n s.mpi.pending s.mpi.processes p q (s.mpi.processes p).place h.mpi ltp ltq refl,
      calls-entered w j b (s.nodes q) (s.mpi.processes q) ltj link',
    )
