-- ===== src/ProducerConsumer/Threads.antt =====
-- prelab/producer_consumer.c: the producer and `n` consumers, interleaved in any order. A step ends
-- at an access to a lock or to the heap; `main` creates the threads, with `n` = 2.
pub mod Locks
pub mod Contents
pub mod Output
pub mod Safety
pub mod Progress
use advanced_os.Prelude.{
  ℕ, ◌+◌, ◌-◌, ◌≡◌, ◌≢◌, ◌≤◌, ◌<◌, ◌⊎◌, Option, none, some, List, [], ◌∷◌, ◌++◌, ◌==◌,
  if◌then◌else◌,
}
use advanced_os.Prelude.Family.{at}
use advanced_os.ProducerConsumer.Queue.{
  null, Node, Queue, make_node, push_back, pop_front, take_char,
}

pub data Thread : Type 0 where
  the_producer : Thread
  consumer : ℕ → Thread

-- Where the producer stands, with its node and its letter.
pub data ProducerPc : Type 0 where
  loop : (c : ℕ) → ProducerPc  -- the test of the for loop
  made : (new c : ℕ) → ProducerPc  -- before it locks the queue
  inside : (new c : ℕ) → ProducerPc  -- holds the queue
  pushed : (c : ℕ) → ProducerPc  -- about to unlock it
  ending : ProducerPc  -- before it locks g_num_prod
  decrement : ProducerPc  -- holds g_num_prod
  decremented : ProducerPc  -- about to unlock it
  gone : ProducerPc

-- Where a consumer stands, with `prev_node_p`. The character of that node is written down for the
-- invariant; no step reads it.
pub data ConsumerPc : Type 0 where
  start : ConsumerPc  -- before it locks the queue
  locked : ConsumerPc  -- holds the queue
  testing : ConsumerPc  -- holds both locks, at the test of the while loop
  body : ConsumerPc  -- holds the queue
  popped : (p ch : ℕ) → ConsumerPc  -- about to unlock it
  printing : (p ch : ℕ) → ConsumerPc
  leaving : ConsumerPc  -- holds the queue, after the loop
  finished : ConsumerPc

-- `removed` is the history of the characters taken off the queue; no step reads it.
pub record System : Type 0 where
  pub mem : Queue
  pub queue_lock : Option Thread
  pub num_lock : Option Thread
  pub num_prod : ℕ
  pub producer : ProducerPc
  pub consumers : ℕ → ConsumerPc
  pub counts : ℕ → ℕ
  pub output : List ℕ
  pub removed : List ℕ

abbrev pub letter_a : ℕ
letter_a = b'a'

abbrev pub letter_z : ℕ
letter_z = b'z'

abbrev pub init : System
init = record {
  mem = record { heap = λ _. none; front = null; back = null };
  queue_lock = none;
  num_lock = none;
  num_prod = 1;
  producer = loop letter_a;
  consumers = λ _. start;
  counts = λ _. 0;
  output = [];
  removed = [];
}

-- `producer_routine`. `malloc` returns any free address.
pub data ProducerStep (s : System) : System → Type 0 where
  make :
      (new c : ℕ)
      → s.producer ≡ loop c
      → c ≤ letter_z
      → new ≢ null
      → s.mem.heap new ≡ none
      → ProducerStep s (record s { mem = make_node new c s.mem; producer = made new c })
  lock :
      (new c : ℕ)
      → s.producer ≡ made new c
      → s.queue_lock ≡ none
      → ProducerStep s (record s { queue_lock = some the_producer; producer = inside new c })
  push :
      (new c : ℕ) (m : Queue)
      → s.producer ≡ inside new c
      → push_back new s.mem ≡ some m
      → ProducerStep s (record s { mem = m; producer = pushed c })
  unlock :
      (c : ℕ)
      → s.producer ≡ pushed c
      → ProducerStep s (record s { queue_lock = none; producer = loop (c + 1) })
  end_loop :
      (c : ℕ) → s.producer ≡ loop c → letter_z < c → ProducerStep s (record s { producer = ending })
  lock_num :
      s.producer ≡ ending
      → s.num_lock ≡ none
      → ProducerStep s (record s { num_lock = some the_producer; producer = decrement })
  count_down :
      s.producer ≡ decrement
      → ProducerStep s (record s { num_prod = s.num_prod - 1; producer = decremented })
  unlock_num :
      s.producer ≡ decremented → ProducerStep s (record s { num_lock = none; producer = gone })

-- `consumer_routine` of consumer `i`
pub data ConsumerStep (s : System) (i : ℕ) : System → Type 0 where
  lock :
      s.consumers i ≡ start
      → s.queue_lock ≡ none
      → ConsumerStep s i
          (record s { queue_lock = some (consumer i); consumers = at s.consumers i locked })
  lock_num :
      s.consumers i ≡ locked
      → s.num_lock ≡ none
      → ConsumerStep s i
          (record s { num_lock = some (consumer i); consumers = at s.consumers i testing })
  enter :
      s.consumers i ≡ testing
      → (s.mem.front ≢ null) ⊎ (0 < s.num_prod)
      → ConsumerStep s i (record s { num_lock = none; consumers = at s.consumers i body })
  pop :
      (p : ℕ) (n : Node) (m : Queue)
      → s.consumers i ≡ body
      → s.mem.front ≢ null
      → pop_front s.mem ≡ some (p, m)
      → m.heap p ≡ some n
      → ConsumerStep s i (record s {
        mem = m;
        consumers = at s.consumers i (popped p n.c);
        removed = s.removed ++ n.c ∷ [];
      })
  unlock :
      (p ch : ℕ)
      → s.consumers i ≡ popped p ch
      → ConsumerStep s i
          (record s { queue_lock = none; consumers = at s.consumers i (printing p ch) })
  print :
      (p ch c : ℕ) (m : Queue)
      → s.consumers i ≡ printing p ch
      → take_char p s.mem ≡ some (c, m)
      → ConsumerStep s i (record s {
        mem = m;
        consumers = at s.consumers i start;
        counts = at s.counts i (s.counts i + 1);
        output = s.output ++ c ∷ [];
      })
  yield :
      s.consumers i ≡ body
      → s.mem.front ≡ null
      → ConsumerStep s i (record s { queue_lock = none; consumers = at s.consumers i start })
  leave :
      s.consumers i ≡ testing
      → s.mem.front ≡ null
      → s.num_prod ≡ 0
      → ConsumerStep s i (record s { num_lock = none; consumers = at s.consumers i leaving })
  finish :
      s.consumers i ≡ leaving
      → ConsumerStep s i (record s { queue_lock = none; consumers = at s.consumers i finished })

pub data Step (n : ℕ) (s : System) : System → Type 0 where
  produce : {t : System} → ProducerStep s t → Step n s t
  consume : {t : System} (i : ℕ) → i < n → ConsumerStep s i t → Step n s t

pub data Reach (n : ℕ) : System → Type 0 where
  initial : Reach n init
  later : {s t : System} → Reach n s → Step n s t → Reach n t
