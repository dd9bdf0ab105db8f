-- ===== src/ProducerConsumer/Threads/Locks.antt =====
-- Who holds which lock: exactly the threads that stand between a lock and its unlock.
use advanced_os.Prelude.{ℕ, ◌≡◌, ◌≤◌, ◌<◌, refl, Bool, true, false, none, some, arith}
use advanced_os.ProducerConsumer.Threads.{
  the_producer, consumer, ProducerPc, loop, made, inside, pushed, ending, decrement, decremented,
  ConsumerPc, start, locked, testing, body, popped, printing, leaving, finished, System, init,
  ProducerStep, ConsumerStep, Step, produce, consume, Reach, initial, later,
}

unfoldable pub producer_has_queue : ProducerPc → Bool
producer_has_queue (inside new c) = true
producer_has_queue (pushed c) = true
producer_has_queue _ = false

unfoldable pub producer_has_num : ProducerPc → Bool
producer_has_num decrement = true
producer_has_num decremented = true
producer_has_num _ = false

unfoldable pub has_queue : ConsumerPc → Bool
has_queue start = false
has_queue (printing p ch) = false
has_queue finished = false
has_queue _ = true

unfoldable pub has_num : ConsumerPc → Bool
has_num testing = true
has_num _ = false

pub record Locks (n : ℕ) (s : System) : Type 0 where
  pub queue_p : producer_has_queue s.producer ≡ true → s.queue_lock ≡ some the_producer
  pub queue_c : (i : ℕ) → has_queue (s.consumers i) ≡ true → s.queue_lock ≡ some (consumer i)
  pub num_p : producer_has_num s.producer ≡ true → s.num_lock ≡ some the_producer
  pub num_c : (i : ℕ) → has_num (s.consumers i) ≡ true → s.num_lock ≡ some (consumer i)
  pub p_queue : s.queue_lock ≡ some the_producer → producer_has_queue s.producer ≡ true
  pub c_queue : (i : ℕ) → s.queue_lock ≡ some (consumer i) → has_queue (s.consumers i) ≡ true
  pub p_num : s.num_lock ≡ some the_producer → producer_has_num s.producer ≡ true
  pub c_num : (i : ℕ) → s.num_lock ≡ some (consumer i) → has_num (s.consumers i) ≡ true
  pub idle : (i : ℕ) → n ≤ i → s.consumers i ≡ start

Locks-init : (n : ℕ) → Locks n init
unfolding producer_has_queue producer_has_num has_queue has_num
Locks-init n = record {
  queue_p = λ h. cc;
  queue_c = λ i h. cc;
  num_p = λ h. cc;
  num_c = λ i h. cc;
  p_queue = λ h. cc;
  c_queue = λ i h. cc;
  p_num = λ h. cc;
  c_num = λ i h. cc;
  idle = λ i h. refl;
}

-- The premises of a step that speak of the thread and of the locks.
abbrev Guard : {s t : System} → ProducerStep s t → Type 0
Guard {s} (ProducerStep.make new c _ _ _ _) = s.producer ≡ loop c
Guard {s} (ProducerStep.lock new c _ _) = (s.producer ≡ made new c) × (s.queue_lock ≡ none)
Guard {s} (ProducerStep.push new c _ _ _) = s.producer ≡ inside new c
Guard {s} (ProducerStep.unlock c _) = s.producer ≡ pushed c
Guard {s} (ProducerStep.end_loop c _ _) = s.producer ≡ loop c
Guard {s} (ProducerStep.lock_num _ _) = (s.producer ≡ ending) × (s.num_lock ≡ none)
Guard {s} (ProducerStep.count_down _) = s.producer ≡ decrement
Guard {s} (ProducerStep.unlock_num _) = s.producer ≡ decremented

guard : {s t : System} (mv : ProducerStep s t) → Guard mv
guard (ProducerStep.make new c e _ _ _) = e
guard (ProducerStep.lock new c e f) = (e, f)
guard (ProducerStep.push new c _ e _) = e
guard (ProducerStep.unlock c e) = e
guard (ProducerStep.end_loop c e _) = e
guard (ProducerStep.lock_num e f) = (e, f)
guard (ProducerStep.count_down e) = e
guard (ProducerStep.unlock_num e) = e

abbrev ConsumerGuard : {s : System} {i : ℕ} {t : System} → ConsumerStep s i t → Type 0
ConsumerGuard {s} {i = i} (ConsumerStep.lock _ _) = (s.consumers i ≡ start) × (s.queue_lock ≡ none)
ConsumerGuard {s} {i = i} (ConsumerStep.lock_num _ _) =
    (s.consumers i ≡ locked) × (s.num_lock ≡ none)
ConsumerGuard {s} {i = i} (ConsumerStep.enter _ _) = s.consumers i ≡ testing
ConsumerGuard {s} {i = i} (ConsumerStep.pop p n m _ _ _ _) = s.consumers i ≡ body
ConsumerGuard {s} {i = i} (ConsumerStep.unlock p ch _) = s.consumers i ≡ popped p ch
ConsumerGuard {s} {i = i} (ConsumerStep.print p ch c m _ _) = s.consumers i ≡ printing p ch
ConsumerGuard {s} {i = i} (ConsumerStep.yield _ _) = s.consumers i ≡ body
ConsumerGuard {s} {i = i} (ConsumerStep.leave _ _ _) = s.consumers i ≡ testing
ConsumerGuard {s} {i = i} (ConsumerStep.finish _) = s.consumers i ≡ leaving

c_guard : {s : System} {i : ℕ} {t : System} (mv : ConsumerStep s i t) → ConsumerGuard mv
c_guard (ConsumerStep.lock e f) = (e, f)
c_guard (ConsumerStep.lock_num e f) = (e, f)
c_guard (ConsumerStep.enter e _) = e
c_guard (ConsumerStep.pop p n m e _ _ _) = e
c_guard (ConsumerStep.unlock p ch e) = e
c_guard (ConsumerStep.print p ch c m e _) = e
c_guard (ConsumerStep.yield e _) = e
c_guard (ConsumerStep.leave e _ _) = e
c_guard (ConsumerStep.finish e) = e

module _ {n : ℕ} {s : System} (l : Locks n s) where
  open l use {queue_p, queue_c, num_p, num_c, p_queue, c_queue, p_num, c_num, idle}

  ProducerStep-Locks : {t : System} → ProducerStep s t → Locks n t
  unfolding producer_has_queue producer_has_num has_queue has_num
  ProducerStep-Locks (ProducerStep.make new c e _ _ _) = record {
    queue_p = ground (arith, queue_p);
    queue_c = λ j h. ground (arith, queue_c j);
    num_p = ground (arith, num_p);
    num_c = λ j h. ground (arith, num_c j);
    p_queue = ground (arith, p_queue);
    c_queue = λ j h. ground (arith, c_queue j);
    p_num = ground (arith, p_num);
    c_num = λ j h. ground (arith, c_num j);
    idle = idle;
  }
  ProducerStep-Locks mv = record {
    queue_p = ground (arith, guard mv, queue_p);
    queue_c = λ j h. ground (arith, guard mv, queue_c j);
    num_p = ground (arith, guard mv, num_p);
    num_c = λ j h. ground (arith, guard mv, num_c j);
    p_queue = ground (arith, guard mv, p_queue);
    c_queue = λ j h. ground (arith, guard mv, c_queue j);
    p_num = ground (arith, guard mv, p_num);
    c_num = λ j h. ground (arith, guard mv, c_num j);
    idle = idle;
  }

  ConsumerStep-Locks : (i : ℕ) {t : System} → i < n → ConsumerStep s i t → Locks n t
  unfolding producer_has_queue producer_has_num has_queue has_num
  ConsumerStep-Locks i lt (ConsumerStep.lock e f) = record {
    queue_p = ground (arith, queue_p);
    queue_c = λ j h. ground (arith, queue_c j, queue_c i);
    num_p = ground (arith, num_p);
    num_c = λ j h. ground (arith, num_c j, num_c i);
    p_queue = ground (arith, p_queue);
    c_queue = λ j h. ground (arith, c_queue j);
    p_num = ground (arith, p_num);
    c_num = λ j h. ground (arith, c_num j);
    idle = λ j h. ground (arith, idle j h);
  }
  ConsumerStep-Locks i lt mv = record {
    queue_p = ground (arith, c_guard mv, queue_p, queue_c i);
    queue_c = λ j h. ground (arith, c_guard mv, queue_c j, queue_c i);
    num_p = ground (arith, c_guard mv, num_p, num_c i);
    num_c = λ j h. ground (arith, c_guard mv, num_c j, num_c i);
    p_queue = ground (arith, c_guard mv, p_queue);
    c_queue = λ j h. ground (arith, c_guard mv, c_queue j);
    p_num = ground (arith, c_guard mv, p_num);
    c_num = λ j h. ground (arith, c_guard mv, c_num j);
    idle = λ j h. ground (arith, c_guard mv, idle j h);
  }

pub Step-Locks : {n : ℕ} {s t : System} → Step n s t → Locks n s → Locks n t
Step-Locks (produce mv) l = ProducerStep-Locks l mv
Step-Locks (consume i lt mv) l = ConsumerStep-Locks l i lt mv

pub Reach-Locks : {n : ℕ} {s : System} → Reach n s → Locks n s
Reach-Locks {n} initial = Locks-init n
Reach-Locks (later r st) = Step-Locks st (Reach-Locks r)
