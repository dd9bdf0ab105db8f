-- ===== src/Barrier/Dissemination/Invariant.antt =====
-- What holds between the steps of the dissemination barrier: who has heard from whom.
use advanced_os.Prelude.{
  ℕ, suc, ◌+◌, ◌-◌, ◌%◌, ◌^◌, ◌<◌, ◌≤◌, ◌≡◌, ◌≢◌, inl, inr, refl, sym, subst, ltb, leb, ◌==◌,
  ==_iff, if◌then◌else◌, arith, ℕ_discrete, Bool-cases,
}
use advanced_os.Prelude.Family.{at}
use advanced_os.Barrier.Dissemination.{
  num_rounds, send_to, Place, outside, receiving, Process, Pending, idle,
}
use advanced_os.Barrier.Dissemination.Messages.{hit, hit_other, Balanced, Counted}

-- the messages of round `k` that a process has sent, and those it has received
unfoldable pub sent : Place → ℕ → ℕ → ℕ
sent outside entered k = entered
sent (receiving r) entered k = if leb k r then entered else entered - 1

unfoldable pub received : Place → ℕ → ℕ → ℕ
received outside entered k = entered
received (receiving r) entered k = if ltb k r then entered else entered - 1

abbrev pub sent_by : Process → ℕ → ℕ
sent_by t k = sent t.place t.entered k

abbrev pub received_by : Process → ℕ → ℕ
received_by t k = received t.place t.entered k

-- the counts of all processes
abbrev pub sent_counts : (ℕ → Process) → ℕ → ℕ → ℕ
sent_counts f q k = sent_by (f q) k

abbrev pub received_counts : (ℕ → Process) → ℕ → ℕ → ℕ
received_counts f p k = received_by (f p) k

-- the rounds that are over in the current call, or in the last one
abbrev pub rounds_over : ℕ → Place → ℕ
rounds_over n outside = num_rounds n
rounds_over n (receiving r) = r

abbrev pub IsSane : ℕ → Place → ℕ → Type 0
IsSane n outside entered = Unit
IsSane n (receiving r) entered = (r < num_rounds n) × (0 < entered)

pub record Inv (n : ℕ) (m : Pending) (f : ℕ → Process) : Type 0 where
  pub messages : Balanced n m (sent_counts f) (received_counts f)
  pub sane : (p : ℕ) → p < n → IsSane n (f p).place (f p).entered
  -- who is at a distance that the rounds have covered has begun as many calls
  pub near :
      (p q d : ℕ)
      → p < n
      → q < n
      → d < n
      → (q + d) % n ≡ p
      → d < 2 ^ rounds_over n (f p).place
      → (f p).entered ≤ (f q).entered
  pub level : (p q : ℕ) → p < n → q < n → (f p).entered ≤ suc (f q).entered

pub Inv-idle : (n : ℕ) → Inv n idle.pending idle.processes
unfolding sent received
Inv-idle n = record {
  messages = λ q k lt lt'. omega arith;
  sane = λ p lt. tt;
  near = λ p q d ltp ltq ltd h c. omega arith;
  level = λ p q ltp ltq. omega arith;
}

pub at_here : (f : ℕ → Process) (p : ℕ) (t : Process) → at f p t p ≡ t
at_here f p t = rw ((==_iff p p).1 refl) refl

pub at_there : (f : ℕ → Process) (p q : ℕ) (t : Process) → q ≢ p → at f p t q ≡ f q
at_there f p q t ne = elim (Bool-cases (p == q)) [
  | inl here ↦ absurd (ne (sym ((==_iff p q).0 here)))
  | inr there ↦ rw there refl
]

-- What holds of the new process at its own place and of the old ones elsewhere, holds everywhere.
pub everywhere :
    (P : ℕ → Process → Type 0) (f : ℕ → Process) (p : ℕ) (t : Process)
    → P p t
    → ((q : ℕ) → q ≢ p → P q (f q))
    → (q : ℕ) → P q (at f p t q)
everywhere P f p t here there q = elim (ℕ_discrete q p) [
  | yes eq ↦ subst (λ x. P x (at f p t x)) (sym eq) (subst (P p) (sym (at_here f p t)) here)
  | no ne ↦ subst (P q) (sym (at_there f p q t ne)) (there q ne)
]

module _ (n : ℕ) (c : Process → ℕ → ℕ) (f : ℕ → Process) (p : ℕ) (t : Process) where
  pub one_more :
      (r : ℕ)
      → ((k : ℕ) → k < num_rounds n → c t k ≡ c (f p) k + hit p p k r)
      → Counted n (λ q k. c (f q) k) (λ q k. c (at f p t q) k) p r
  one_more r h q k ltq ltk =
      everywhere (λ x u. c u k ≡ c (f x) k + hit x p k r) f p t (h k ltk)
        (λ x ne. omega (arith, hit_other x p k r (inl ne))) q

  pub as_many :
      ((k : ℕ) → k < num_rounds n → c t k ≡ c (f p) k)
      → (q k : ℕ) → k < num_rounds n
      → c (at f p t q) k ≡ c (f q) k
  as_many h q k ltk = everywhere (λ x u. c u k ≡ c (f x) k) f p t (h k ltk) (λ x ne. refl) q

pub Balanced-same :
    (n : ℕ) (m : Pending) (S R S' R' : ℕ → ℕ → ℕ)
    → ((q k : ℕ) → k < num_rounds n → S' q k ≡ S q k)
    → ((q k : ℕ) → k < num_rounds n → R' q k ≡ R q k)
    → Balanced n m S R
    → Balanced n m S' R'
Balanced-same n m S R S' R' s r b q k ltq ltk =
    omega (arith, b q k ltq ltk, s q k ltk, r (send_to n q k) k ltk)
