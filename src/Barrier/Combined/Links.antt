-- ===== src/Barrier/Combined/Links.antt =====
-- How far the threads of a process are, and how far the process is in the dissemination barrier.
use advanced_os.Prelude.{
  ℕ, suc, ◌<◌, ◌≡◌, ◌≢◌, inl, inr, refl, ap, sym, subst, ◌∙◌, Bool, true, false, not, ◌&&◌,
  if◌then◌else◌, ℕ_discrete, Bool-cases,
}
use advanced_os.Barrier.Sense as Sense
use advanced_os.Barrier.Sense.Invariant.{parity, Good, Gathering, Closing}
use advanced_os.Barrier.Sense.Steps.{gathering_move, closer_resets, closer_opens, other_spins}
use advanced_os.Barrier.Dissemination as Dissemination
use advanced_os.Barrier.Combined.{Node, rounds_left, is_last}

-- A process and its place among the processes: its threads gather; or the last one is before the
-- rounds, in them or behind them, or has stored the count.
pub data Link (w e : ℕ) (node : Node) (t : Dissemination.Process) : Type 0 where
  gathers :
      Gathering w e node.team
      → node.disseminated ≡ false
      → t.place ≡ Dissemination.outside
      → t.entered ≡ e
      → Link w e node t
  before :
      (k : ℕ)
      → Closing w e k node.team
      → (node.team.threads k).pc ≡ Sense.last (not (parity e))
      → node.disseminated ≡ false
      → t.place ≡ Dissemination.outside
      → t.entered ≡ e
      → Link w e node t
  within :
      (k : ℕ)
      → Closing w e k node.team
      → (node.team.threads k).pc ≡ Sense.last (not (parity e))
      → node.disseminated ≡ true
      → t.entered ≡ suc e
      → Link w e node t
  behind :
      (k : ℕ)
      → Closing w e k node.team
      → (node.team.threads k).pc ≡ Sense.reset (not (parity e))
      → node.disseminated ≡ false
      → t.place ≡ Dissemination.outside
      → t.entered ≡ suc e
      → Link w e node t

abbrev pub Linked : ℕ → Node → Dissemination.Process → Type 0
Linked w node t = (e : ℕ) × Link w e node t

abbrev pub moved : ℕ → ℕ → Node → Node
moved w i node = record {
  team = Sense.move w i node.team;
  disseminated = if is_last (node.team.threads i).pc then false else node.disseminated;
}

pub Good-is_last :
    (e : ℕ) (pc : Sense.Pc) (entered passed : ℕ) → Good e pc entered passed → is_last pc ≡ false
unfolding Good
Good-is_last e Sense.outside a p g = refl
Good-is_last e (Sense.sensed m) a p g = refl
Good-is_last e (Sense.last m) a p g = absurd g
Good-is_last e (Sense.reset m) a p g = refl
Good-is_last e (Sense.waiting m) a p g = refl

flag :
    (w i : ℕ) (node : Node)
    → is_last (node.team.threads i).pc ≡ false
    → (moved w i node).disseminated ≡ node.disseminated
flag w i node h = ap (λ b. if b then false else node.disseminated) h

flag_last :
    (w i : ℕ) (node : Node) → node.disseminated ≡ false → (moved w i node).disseminated ≡ false
flag_last w i node h = elim (Bool-cases (is_last (node.team.threads i).pc)) [
  | inl yes_ ↦ rw yes_ refl
  | inr no_ ↦ rw no_ h
]

waits :
    (w e k i : ℕ) (node : Node) → Closing w e k node.team → i < w → i ≢ k → moved w i node ≡ node
waits w e k i node c lt ne =
    let quiet : is_last (node.team.threads i).pc ≡ false = ap is_last (c.others i lt ne).0 in
    ap (λ team. record { team = team; disseminated = (moved w i node).disseminated })
      (other_spins w e k node.team c i lt ne)
    ∙ ap (λ b. record { team = node.team; disseminated = b }) (flag w i node quiet)

no_rounds :
    (place : Dissemination.Place) → rounds_left place true ≡ false → place ≡ Dissemination.outside
no_rounds Dissemination.outside h = refl
no_rounds (Dissemination.receiving r) h = absurd cc

and_false : (a b : Bool) → a ≡ true → (a && b) ≡ false → b ≡ false
and_false true b h k = k
and_false false b h k = absurd cc

full_count :
    (w e k : ℕ) (s : Sense.System)
    → Closing w e k s
    → (s.threads k).pc ≡ Sense.reset (not (parity e))
    → s.shared.count ≡ w
full_count w e k s c at_reset = elim c.place [
  | inl (at_last, _) ↦ absurd (cc (at_reset, at_last))
  | inr (_, full) ↦ full
]

module _ (w i : ℕ) (node : Node) (t : Dissemination.Process) (lt : i < w) where
  unmoved :
      (e k : ℕ) → Closing w e k node.team → i ≢ k → Linked w node t → Linked w (moved w i node) t
  unmoved e k c ne h = subst (λ x. Linked w x t) (sym (waits w e k i node c lt ne)) h

  -- A step of a thread that does not belong to the rounds.
  pub moved-Linked :
      (e : ℕ)
      → Link w e node t
      → (is_last (node.team.threads i).pc && rounds_left t.place node.disseminated) ≡ false
      → Linked w (moved w i node) t
  moved-Linked e (gathers g d out same) no_round = elim (gathering_move w e i node.team lt g) [
    | inl stays ↦ (e, gathers stays (flag_last w i node d) out same)
    | inr (k, c, at_last) ↦ (e, before k c at_last (flag_last w i node d) out same)
  ]
  moved-Linked e (before k c at_last d out same) no_round = elim (ℕ_discrete i k) [
    | no ne ↦ unmoved e k c ne (e, before k c at_last d out same)
    | yes eq ↦
        let here : is_last (node.team.threads i).pc ≡ true =
          ap (λ j. is_last (node.team.threads j).pc) eq ∙ ap is_last at_last in
        let left : rounds_left t.place node.disseminated ≡ true =
          ap (λ place. rounds_left place node.disseminated) out ∙ ap not d in
        absurd (cc (and_false _ _ here no_round, left))
  ]
  moved-Linked e (within k c at_last d same) no_round = elim (ℕ_discrete i k) [
    | no ne ↦ unmoved e k c ne (e, within k c at_last d same)
    | yes eq ↦
        let here : is_last (node.team.threads i).pc ≡ true =
          ap (λ j. is_last (node.team.threads j).pc) eq ∙ ap is_last at_last in
        let out : t.place ≡ Dissemination.outside =
          no_rounds t.place (ap (rounds_left t.place) (sym d) ∙ and_false _ _ here no_round) in
        let (c', at_reset) = closer_resets w e k node.team c at_last in
        (
          e,
          subst (λ j. Link w e (moved w j node) t) (sym eq)
              (behind k c' at_reset
                (ap (λ b. if b then false else node.disseminated) (ap is_last at_last)) out same),
        )
  ]
  moved-Linked e (behind k c at_reset d out same) no_round = elim (ℕ_discrete i k) [
    | no ne ↦ unmoved e k c ne (e, behind k c at_reset d out same)
    | yes eq ↦ (
      suc e,
      subst (λ j. Link w (suc e) (moved w j node) t) (sym eq)
          (gathers (closer_opens w e k node.team c at_reset (full_count w e k node.team c at_reset))
            (flag_last w k node d) out same),
    )
  ]

-- the calls of the dissemination barrier begun, behind a step from the place
abbrev pub calls : Dissemination.Place → ℕ → ℕ
calls Dissemination.outside entered = suc entered
calls (Dissemination.receiving r) entered = entered

module _ (w i : ℕ) (node : Node) (t u : Dissemination.Process) (lt : i < w) where
  in_rounds :
      (k e : ℕ) (place : Dissemination.Place)
      → Closing w e k node.team
      → (node.team.threads k).pc ≡ Sense.last (not (parity e))
      → rounds_left place true ≡ true
      → t.entered ≡ suc e
      → u.entered ≡ calls place t.entered
      → Linked w (record node { disseminated = true }) u
  in_rounds k e Dissemination.outside c at_last left same after = absurd cc
  in_rounds k e (Dissemination.receiving r) c at_last left same after =
      (e, within k c at_last refl (after ∙ same))

  none_last :
      (e : ℕ)
      → (pc : Sense.Pc) → (node.team.threads i).pc ≡ pc
      → is_last pc ≡ false
      → is_last (node.team.threads i).pc ≢ true
  none_last e pc at_pc h k = cc (h, k, ap is_last at_pc)

  -- The last thread begins the rounds, or receives a message.
  pub disseminate-Linked :
      (e : ℕ)
      → Link w e node t
      → is_last (node.team.threads i).pc ≡ true
      → rounds_left t.place node.disseminated ≡ true
      → u.entered ≡ calls t.place t.entered
      → Linked w (record node { disseminated = true }) u
  disseminate-Linked e (gathers g d out same) here left after = absurd (
      cc (
        here,
        Good-is_last e (node.team.threads i).pc (node.team.threads i).entered
            (node.team.threads i).passed (g.good i lt),
      ))
  disseminate-Linked e (before k c at_last d out same) here left after =
      (e, within k c at_last refl (after ∙ ap (λ place. calls place t.entered) out ∙ ap suc same))
  disseminate-Linked e (within k c at_last d same) here left after =
      in_rounds k e t.place c at_last (ap (rounds_left t.place) (sym d) ∙ left) same after
  disseminate-Linked e (behind k c at_reset d out same) here left after = elim (ℕ_discrete i k) [
    | yes eq ↦ absurd (none_last e _ (ap (λ j. (node.team.threads j).pc) eq ∙ at_reset) refl here)
    | no ne ↦ absurd (none_last e _ (c.others i lt ne).0 refl here)
  ]
