-- ===== src/ProducerConsumer/Threads/Contents.antt =====
-- What is on the queue, what the threads carry, and the history of the letters.
pub mod Consumers
pub mod Producer
use advanced_os.Prelude.{
  ℕ, zero, suc, ◌+◌, ◌-◌, ◌≡◌, ◌≢◌, ◌≤◌, ◌<◌, ◌⊎◌, inl, inr, refl, sym, ap, subst, ◌∙◌, Bool, true,
  false, Option, none, some, List, [], ◌∷◌, ◌++◌, map, arith, ◌==◌, if◌then◌else◌, Option-cases,
}
use mathlib.Core.List.{append_assoc, map-append, append-nil}
use advanced_os.Prelude.Family.{at}
use advanced_os.ProducerConsumer.Queue.{
  null, Node, Queue, update, make_node, push_back, pop_front, take_char,
}
use advanced_os.ProducerConsumer.Queue.Chain.{
  Cells, first, Fresh, Chain, IsQueue, Chain-update, Fresh-of_none, Untouched, push_back-append,
  pop_front-cons,
}
use advanced_os.ProducerConsumer.Threads.{
  Thread, the_producer, consumer, ProducerPc, loop, made, inside, pushed, ending, decrement,
  decremented, gone, ConsumerPc, start, locked, testing, body, popped, printing, leaving, finished,
  System, init, ProducerStep, ConsumerStep, Step, produce, consume, Reach, initial, later, letter_a,
  letter_z,
}

-- the first `k` letters
unfoldable pub letters : ℕ → List ℕ
letters zero = []
letters (suc k) = letters k ++ (letter_a + k) ∷ []

abbrev pub chars : Cells → List ℕ
chars = map (λ (x : ℕ × ℕ). x.1)

-- the letters that the producer has put on the queue
unfoldable pub produced : ProducerPc → List ℕ
produced (loop c) = letters (c - letter_a)
produced (made new c) = letters (c - letter_a)
produced (inside new c) = letters (c - letter_a)
produced (pushed c) = letters (c + 1 - letter_a)
produced _ = letters 26

-- the node that the producer owns
abbrev pub node_of : ProducerPc → Option ℕ
node_of (made new c) = some new
node_of (inside new c) = some new
node_of _ = none

-- the node that a consumer has taken, and its character
abbrev pub carries : ConsumerPc → Option (ℕ × ℕ)
carries (popped p ch) = some (p, ch)
carries (printing p ch) = some (p, ch)
carries _ = none

abbrev pub alive : ProducerPc → ℕ
alive decremented = 0
alive gone = 0
alive _ = 1

abbrev pub InRange : ProducerPc → Type 0
InRange (loop c) = (letter_a ≤ c) × (c ≤ letter_z + 1)
InRange (made new c) = (letter_a ≤ c) × (c ≤ letter_z)
InRange (inside new c) = (letter_a ≤ c) × (c ≤ letter_z)
InRange (pushed c) = (letter_a ≤ c) × (c ≤ letter_z)
InRange _ = Unit {0}

abbrev pub past_loop : ConsumerPc → Bool
past_loop leaving = true
past_loop finished = true
past_loop _ = false

-- A node that the producer has made, and has not yet linked.
abbrev pub Held : Queue → Cells → ℕ → ℕ → Type 0
Held m xs new c =
    (new ≢ null)
    × Fresh new xs
    × ((q : ℕ) × (m.heap new ≡ some (record { next = null; prev = q; c = c })))

abbrev pub Holds : Queue → Cells → ProducerPc → Type 0
Holds m xs (made new c) = Held m xs new c
Holds m xs (inside new c) = Held m xs new c
Holds m xs _ = Unit {0}

abbrev pub Carried : Queue → Cells → ℕ → ℕ → Type 0
Carried m xs p ch = Fresh p xs × ((n : Node) × (m.heap p ≡ some n) × (n.c ≡ ch))

pub record Contents (s : System) (xs : Cells) : Type 0 where
  pub queue : IsQueue s.mem xs
  pub holds : Holds s.mem xs s.producer
  pub carried : (i p ch : ℕ) → carries (s.consumers i) ≡ some (p, ch) → Carried s.mem xs p ch
  pub apart :
      (i j p c d : ℕ)
      → carries (s.consumers i) ≡ some (p, c)
      → carries (s.consumers j) ≡ some (p, d)
      → i ≡ j
  pub spare : (i p ch : ℕ) → carries (s.consumers i) ≡ some (p, ch) → node_of s.producer ≢ some p
  pub running : s.num_prod ≡ alive s.producer
  pub range : InRange s.producer
  pub history : s.removed ++ chars xs ≡ produced s.producer
  pub closed : (i : ℕ) → past_loop (s.consumers i) ≡ true → (s.mem.front ≡ null) × (s.num_prod ≡ 0)

pub Contents-init : Contents init []
unfolding produced letters
Contents-init = record {
  queue = record { front = refl; back = refl; chain = tt };
  holds = tt;
  carried = λ i p ch h. cc;
  apart = λ i j p c d h k. cc;
  spare = λ i p ch h. cc;
  running = refl;
  range = omega arith;
  history = refl;
  closed = λ i h. cc;
}

at-carries :
    (f : ℕ → ConsumerPc) (i : ℕ) (pc : ConsumerPc)
    → carries pc ≡ carries (f i)
    → (j : ℕ) → carries (at f i pc j) ≡ carries (f j)
at-carries f i pc e j = ground arith

module _ {s : System} {xs : Cells} (c : Contents s xs) where
  -- A step of consumer `i` that leaves the heap alone.
  pub quiet :
      (i : ℕ) (pc : ConsumerPc) (q n : Option Thread)
      → carries pc ≡ carries (s.consumers i)
      → (past_loop pc ≡ true → (s.mem.front ≡ null) × (s.num_prod ≡ 0))
      → Contents (record s { queue_lock = q; num_lock = n; consumers = at s.consumers i pc }) xs
  quiet i pc q n e open_ = record {
    queue = c.queue;
    holds = c.holds;
    carried = λ j p ch h. c.carried j p ch (sym (same j) ∙ h);
    apart = λ j k p a b h l. c.apart j k p a b (sym (same j) ∙ h) (sym (same k) ∙ l);
    spare = λ j p ch h. c.spare j p ch (sym (same j) ∙ h);
    running = c.running;
    range = c.range;
    history = c.history;
    closed = λ j h. ground (arith, open_, c.closed j);
  }
    where
      same : (j : ℕ) → carries (at s.consumers i pc j) ≡ carries (s.consumers j)
      same = at-carries s.consumers i pc e

  -- A step of the producer that leaves the heap alone.
  pub quiet_producer :
      (pc : ProducerPc) (q n : Option Thread) (k : ℕ)
      → Holds s.mem xs pc
      → node_of pc ≡ node_of s.producer
      → k ≡ alive pc
      → k ≤ s.num_prod
      → InRange pc
      → produced pc ≡ produced s.producer
      → Contents (record s { queue_lock = q; num_lock = n; num_prod = k; producer = pc }) xs
  quiet_producer pc q n k holds e alive_ fewer range same = record {
    queue = c.queue;
    holds = holds;
    carried = c.carried;
    apart = c.apart;
    spare = λ i p ch h k. c.spare i p ch h (sym e ∙ k);
    running = alive_;
    range = range;
    history = c.history ∙ sym same;
    closed = λ i h. ground (arith, c.closed i h);
  }
