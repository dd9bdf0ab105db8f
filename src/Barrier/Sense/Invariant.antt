-- ===== src/Barrier/Sense/Invariant.antt =====
-- What holds between the steps of the sense-reversing barrier: how many calls each thread has begun
-- and ended, against the number of the episode.
use advanced_os.Prelude.{
  ℕ, zero, suc, ◌+◌, ◌<◌, ◌≡◌, ◌≢◌, ◌⊎◌, inl, inr, refl, ap, sym, subst, ◌∙◌, Bool, false, not,
  ◌==◌, if◌then◌else◌, arith, Bool-cases, ==_iff,
}
use advanced_os.Prelude.Family.{at, total, total-at}
use advanced_os.Barrier.Sense.{
  Pc, outside, sensed, last, reset, waiting, Thread, Shared, same, System,
}

-- the value of `sense` in an episode
unfoldable pub parity : ℕ → Bool
parity zero = false
parity (suc e) = not (parity e)

-- A thread while others are still to arrive in the episode `e`. One that waits with the episode's
-- own sense has not yet seen that the episode before is over.
unfoldable pub Good : ℕ → Pc → ℕ → ℕ → Type 0
unfolding parity
Good e outside entered passed = (entered ≡ e) × (passed ≡ e)
Good e (sensed m) entered passed = (m ≡ not (parity e)) × (entered ≡ suc e) × (passed ≡ e)
Good e (last m) entered passed = ⊥
Good e (reset m) entered passed = ⊥
Good e (waiting m) entered passed =
    ((m ≡ not (parity e)) × (entered ≡ suc e) × (passed ≡ e))
    ⊎ ((m ≡ parity e) × (entered ≡ e) × (suc passed ≡ e))

abbrev pub GoodThread : ℕ → Thread → Type 0
GoodThread e t = Good e t.pc t.entered t.passed

-- a thread that waits for the episode `e` to end
abbrev pub Arrived : ℕ → Thread → Type 0
Arrived e t = (t.pc ≡ waiting (not (parity e))) × (t.entered ≡ suc e) × (t.passed ≡ e)

unfoldable pub arrived_at : Bool → Pc → ℕ
arrived_at s (waiting m) = if same s m then 0 else 1
arrived_at s _ = 0

-- 1 for a thread that waits for `sense` to change from `s`
abbrev pub arrived : Bool → Thread → ℕ
arrived s t = arrived_at s t.pc

-- The thread `i` is the last, and closes the episode.
pub record Closing (n e i : ℕ) (s : System) : Type 0 where
  pub closer : i < n
  pub sense : s.shared.sense ≡ parity e
  pub place :
      (((s.threads i).pc ≡ last (not (parity e))) × (s.shared.count ≡ 0))
      ⊎ (((s.threads i).pc ≡ reset (not (parity e))) × (s.shared.count ≡ n))
  pub entered : (s.threads i).entered ≡ suc e
  pub passed : (s.threads i).passed ≡ e
  pub others : (j : ℕ) → j < n → j ≢ i → Arrived e (s.threads j)

-- Some threads are still to arrive.
pub record Gathering (n e : ℕ) (s : System) : Type 0 where
  pub sense : s.shared.sense ≡ parity e
  pub missing : 0 < s.shared.count
  pub counted : s.shared.count + total (arrived (parity e)) n s.threads ≡ n
  pub good : (i : ℕ) → i < n → GoodThread e (s.threads i)

abbrev pub Phase : ℕ → ℕ → System → Type 0
Phase n e s = Gathering n e s ⊎ ((i : ℕ) × Closing n e i s)

pub at_here {ℓ} : {A : Type ℓ} (f : ℕ → A) (i : ℕ) (a : A) → at f i a i ≡ a
at_here f i a = rw ((==_iff i i).1 refl) refl

pub at_there {ℓ} : {A : Type ℓ} (f : ℕ → A) (i j : ℕ) (a : A) → j ≢ i → at f i a j ≡ f j
at_there f i j a ne = elim (Bool-cases (i == j)) [
  | inl here ↦ absurd (ne (sym ((==_iff i j).0 here)))
  | inr there ↦ rw there refl
]

abbrev pub Place : ℕ → ℕ → Shared → Thread → Type 0
Place n e b t =
    ((t.pc ≡ last (not (parity e))) × (b.count ≡ 0))
    ⊎ ((t.pc ≡ reset (not (parity e))) × (b.count ≡ n))

-- The last thread goes on, and the others wait.
pub Closing-at :
    (n e i : ℕ) (f : ℕ → Thread) (b : Shared) (t : Thread)
    → i < n
    → b.sense ≡ parity e
    → Place n e b t
    → t.entered ≡ suc e
    → t.passed ≡ e
    → ((j : ℕ) → j < n → j ≢ i → Arrived e (f j))
    → Closing n e i (record { shared = b; threads = at f i t })
Closing-at n e i f b t lt sense place entered passed others = record {
  closer = lt;
  sense = sense;
  place = subst (Place n e b) (sym (at_here f i t)) place;
  entered = ap (λ (u : Thread). u.entered) (at_here f i t) ∙ entered;
  passed = ap (λ (u : Thread). u.passed) (at_here f i t) ∙ passed;
  others = λ j ltj ne. subst (Arrived e) (sym (at_there f i j t ne)) (others j ltj ne);
}

-- One thread of a gathering goes on, and the gathering stays.
pub Gathering-at :
    (n e i : ℕ) (s : System) (b : Shared) (t : Thread)
    → i < n
    → Gathering n e s
    → b.sense ≡ parity e
    → 0 < b.count
    → b.count + arrived (parity e) t ≡ s.shared.count + arrived (parity e) (s.threads i)
    → GoodThread e t
    → Gathering n e (record { shared = b; threads = at s.threads i t })
Gathering-at n e i s b t lt g sense missing same_sum good = record {
  sense = sense;
  missing = missing;
  counted = omega (arith, g.counted, total-at (arrived (parity e)) n s.threads i t lt);
  good = λ j ltj. elim (Bool-cases (i == j)) [
    | inl here ↦ rw here good
    | inr there ↦ rw there (g.good j ltj)
  ];
}
