-- ===== src/ProducerConsumer/Queue.antt =====
-- prelab/producer_consumer.c: the operations of `queue_t`, a doubly linked list on a heap.
-- An operation is `none` where an assertion fails or a dangling pointer is followed.
pub mod Chain
use advanced_os.Prelude.{ℕ, Option, none, some, ◌==◌, if◌then◌else◌, ◌>>=◌}

abbrev pub null : ℕ
null = 0

-- `queue_node_t`
pub record Node : Type 0 where
  pub next : ℕ
  pub prev : ℕ
  pub c : ℕ

-- The heap, and the fields of `queue_t`; its lock belongs to the threads.
pub record Queue : Type 0 where
  pub heap : ℕ → Option Node
  pub front : ℕ
  pub back : ℕ

abbrev pub update : (ℕ → Option Node) → ℕ → Option Node → ℕ → Option Node
update h p v a = if a == p then v else h a

pub set_next : ℕ → ℕ → Queue → Option Queue
set_next p q m = do
  n ← m.heap p
  some (record m { heap = update m.heap p (some (record n { next = q })) })

pub set_prev : ℕ → ℕ → Queue → Option Queue
set_prev p q m = do
  n ← m.heap p
  some (record m { heap = update m.heap p (some (record n { prev = q })) })

-- what the producer does with a node before it takes the lock; `prev` is not yet set
unfoldable pub make_node : ℕ → ℕ → Queue → Queue
make_node new c m = record m {
  heap = update m.heap new (some (record { next = null; prev = null; c = c }));
}

-- the producer, under the lock
unfoldable pub push_back : ℕ → Queue → Option Queue
unfolding set_next set_prev
push_back new m =
    if m.back == null
    then if m.front == null
      then (do m ← set_prev new null m; some (record m { front = new; back = new }))
      else none
    else if m.front == null
    then none
    else (do m ← set_prev new m.back m; m ← set_next m.back new m; some (record m { back = new }))

-- the consumer, under the lock, with a queue that is not empty: the node it takes
unfoldable pub pop_front : Queue → Option (ℕ × Queue)
unfolding set_prev
pop_front m = do
  n ← m.heap m.front
  m' ← if n.next == null then some (record m { back = null }) else set_prev n.next null m
  n' ← m'.heap m'.front
  some (m.front, record m' { front = n'.next })

-- `printf` and `free` of the node, after the lock is given back
unfoldable pub take_char : ℕ → Queue → Option (ℕ × Queue)
take_char p m = do n ← m.heap p; some (n.c, record m { heap = update m.heap p none })
