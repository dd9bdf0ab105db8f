-- ===== src/Barrier/Combined/Progress.antt =====
-- The threads of the combined barrier never all wait.
use advanced_os.Prelude.{
  ℕ, suc, ◌+◌, ◌-◌, ◌<◌, ◌≡◌, ◌≢◌, ◌⊎◌, inl, inr, refl, ap, sym, ◌∙◌, Bool, true, false, not, ◌&&◌,
  none, some, ltb, arith, Bool-cases, Option-cases,
}
use mathlib.Core.Option.{some-injective}
use advanced_os.Prelude.Family.{at}
use advanced_os.Barrier.Sense as Sense
use advanced_os.Barrier.Sense.Invariant.{at_here}
use advanced_os.Barrier.Sense.Safety.{GoesOn, closer-GoesOn, Episode-GoesOn}
use advanced_os.Barrier.Dissemination as Dissemination
use advanced_os.Barrier.Dissemination.Progress.{furthest_process_goes_on}
use advanced_os.Barrier.Combined.{
  Node, System, rounds_left, is_last, disseminate, go_on, combined_barrier, Reach,
}
use advanced_os.Barrier.Combined.Links.{Link, gathers, before, within, behind, Good-is_last}
use advanced_os.Barrier.Combined.Safety.{Reach-Whole, picked}
use advanced_os.Barrier.Dissemination.Messages.{put}

abbrev order : Dissemination.Place → ℕ
order Dissemination.outside = 0
order (Dissemination.receiving r) = suc r

round_ends :
    (n p r left : ℕ) (m : Dissemination.Pending)
    → order (Dissemination.begin_round n p (r + 1) left m).1 ≢ suc r
unfolding Dissemination.begin_round
round_ends n p r left m = elim (Bool-cases (ltb (r + 1) left)) [
  | inl more ↦ rw more (λ e. omega arith)
  | inr over ↦ rw over (λ e. omega arith)
]

-- A step of the dissemination barrier leaves the process elsewhere.
step_differs :
    (n p : ℕ) (m : Dissemination.Pending) (t : Dissemination.Process) (place : Dissemination.Place)
    (r : Dissemination.Pending × Dissemination.Process)
    → t.place ≡ place
    → Dissemination.gtmpi_barrier n p m t.entered place ≡ some r
    → r.1 ≢ t
unfolding Dissemination.gtmpi_barrier
step_differs n p m t Dissemination.outside r at_place h same = omega (
  arith,
  ap (λ (x : Dissemination.Pending × Dissemination.Process). x.1.entered) (some-injective _ _ h),
  ap (λ (u : Dissemination.Process). u.entered) same,
)
step_differs n p m t (Dissemination.receiving k) r at_place h same =
    let q = Dissemination.recv_from n p k in
    round_ends n p k (Dissemination.num_rounds n) (put m q p (m q p - 1)) (
      sym (
        ap (λ (x : Dissemination.Pending × Dissemination.Process). order x.1.place)
          (picked _ _ r h))
      ∙ ap (λ (u : Dissemination.Process). order u.place) same
      ∙ ap order at_place)

-- The step of the thread `i` of the process `p` leads the thread to another place, or the process
-- on in the dissemination barrier.
abbrev pub Advances : ℕ → ℕ → ℕ → ℕ → System → Type 0
Advances n w p i s =
    (s' : System) × (combined_barrier n w p i s ≡ some s')
    × ((((s'.nodes p).team.threads i).pc ≢ ((s.nodes p).team.threads i).pc)
        ⊎ (s'.mpi.processes p ≢ s.mpi.processes p))

module _ (n w p i : ℕ) (s : System) where
  by_round :
      (is_last ((s.nodes p).team.threads i).pc
          && rounds_left (s.mpi.processes p).place (s.nodes p).disseminated)
        ≡ true
      → Dissemination.gtmpi_barrier n p s.mpi.pending
          (s.mpi.processes p).entered
          (s.mpi.processes p).place
        ≢ none
      → Advances n w p i s
  unfolding combined_barrier disseminate
  by_round round ready =
      elim (Option-cases (
        Dissemination.gtmpi_barrier n p s.mpi.pending (s.mpi.processes p).entered
          (s.mpi.processes p).place)) [
            | inl blocked ↦ absurd (ready blocked)
            | inr (r, e) ↦ (
              record {
                nodes = at s.nodes p (record (s.nodes p) { disseminated = true });
                mpi = record { pending = r.0; processes = at s.mpi.processes p r.1 };
              },
              rw round (ap (disseminate p s) e),
              inr (λ same.
                  step_differs n p s.mpi.pending (s.mpi.processes p) (s.mpi.processes p).place r
                    refl e (sym (at_here s.mpi.processes p r.1) ∙ same)),
            )
          ]

  by_thread :
      (is_last ((s.nodes p).team.threads i).pc
          && rounds_left (s.mpi.processes p).place (s.nodes p).disseminated)
        ≡ false
      → GoesOn w (s.nodes p).team.shared ((s.nodes p).team.threads i)
      → Advances n w p i s
  unfolding combined_barrier go_on Sense.move
  by_thread no_round goes = (
    go_on w p i s,
    rw no_round refl,
    inl (λ same. goes (
        sym (
          ap (λ (x : Node). (x.team.threads i).pc) (at_here s.nodes p _)
          ∙ ap (λ (x : Sense.Thread). x.pc) (at_here (s.nodes p).team.threads i _))
        ∙ same)),
  )

no_and : (a b : Bool) → a ≡ false → (a && b) ≡ false
no_and a b h = rw h refl

with_and : (a b : Bool) → a ≡ true → (a && b) ≡ b
with_and a b h = rw h refl

Link-Advances :
    (n w p e : ℕ) (s : System)
    → Link w e (s.nodes p) (s.mpi.processes p)
    → Dissemination.gtmpi_barrier n p s.mpi.pending
        (s.mpi.processes p).entered
        (s.mpi.processes p).place
      ≢ none
    → (i : ℕ) × (i < w) × Advances n w p i s
Link-Advances n w p e s (gathers g d out same) ready =
    let team = (s.nodes p).team in
    let (i, lt, goes) = Episode-GoesOn w team (e, inl g) in
    (
      i,
      lt,
      by_thread n w p i s
          (no_and _ _ (
            Good-is_last e (team.threads i).pc (team.threads i).entered (team.threads i).passed
              (g.good i lt)))
          goes,
    )
Link-Advances n w p e s (before k c at_last d out same) ready = (
  k,
  c.closer,
  by_round n w p k s
      (with_and _ _ (ap is_last at_last)
        ∙ ap (λ place. rounds_left place (s.nodes p).disseminated) out
        ∙ ap not d)
      ready,
)
Link-Advances n w p e s (within k c at_last d same) ready =
    elim (Bool-cases (rounds_left (s.mpi.processes p).place (s.nodes p).disseminated)) [
      | inl left ↦
          (k, c.closer, by_round n w p k s (with_and _ _ (ap is_last at_last) ∙ left) ready)
      | inr over ↦ (
        k,
        c.closer,
        by_thread n w p k s (with_and _ _ (ap is_last at_last) ∙ over)
            (closer-GoesOn w e k (s.nodes p).team c),
      )
    ]
Link-Advances n w p e s (behind k c at_reset d out same) ready = (
  k,
  c.closer,
  by_thread n w p k s (no_and _ _ (ap is_last at_reset)) (closer-GoesOn w e k (s.nodes p).team c),
)

-- With at least one process, and one thread for each: in every reachable state some thread's step
-- leads on, so that the combined barrier neither deadlocks nor do its threads all spin.
pub some_thread-Advances :
    (n w : ℕ) (s : System)
    → 0 < n
    → 0 < w
    → Reach n w s
    → (p : ℕ) × (p < n) × (i : ℕ) × (i < w) × Advances n w p i s
some_thread-Advances n w s posn posw r =
    let h = Reach-Whole posw r in
    let (p, lt, ready) = furthest_process_goes_on n s.mpi.pending s.mpi.processes posn h.mpi in
    let (e, link) = h.linked p lt in
    let (i, lti, advances) = Link-Advances n w p e s link ready in (p, lt, i, lti, advances)
