-- ===== src/ProducerConsumer/Threads/Progress.antt =====
-- The threads never block each other for good: the two locks are always taken in one order.
use advanced_os.Prelude.{
  ℕ, zero, suc, ◌≡◌, ◌≢◌, ◌<◌, ◌⊎◌, inl, inr, refl, sym, ap, subst, ◌∙◌, true, false, none, some,
  [], ◌∷◌, arith, Option-cases, ℕ_discrete, dec_lt,
}
use advanced_os.ProducerConsumer.Queue.{null, update, take_char}
use advanced_os.ProducerConsumer.Queue.Chain.{Cells, push_back-append, pop_front-cons}
use advanced_os.ProducerConsumer.Threads.{
  the_producer, consumer, ProducerPc, loop, made, inside, pushed, ending, decrement, decremented,
  gone, ConsumerPc, start, locked, testing, body, popped, printing, leaving, finished, System,
  ProducerStep, ConsumerStep, Step, produce, consume, Reach, letter_z,
}
use advanced_os.ProducerConsumer.Threads.Locks.{
  Locks, producer_has_queue, producer_has_num, has_queue, has_num, Reach-Locks,
}
use advanced_os.ProducerConsumer.Threads.Contents.{Contents, Holds, carries}
use advanced_os.ProducerConsumer.Threads.Safety.{Reach-Contents}

has_num-testing : (pc : ConsumerPc) → has_num pc ≡ true → pc ≡ testing
unfolding has_num
has_num-testing testing h = refl
has_num-testing start h = cc
has_num-testing _ h = cc

has_num-has_queue : (pc : ConsumerPc) → has_num pc ≡ true → has_queue pc ≡ true
unfolding has_num has_queue
has_num-has_queue testing h = refl
has_num-has_queue start h = cc
has_num-has_queue _ h = cc

-- some consumer has not finished, or all have
unfinished :
    (f : ℕ → ConsumerPc) (n : ℕ)
    → ((i : ℕ) → i < n → f i ≡ finished) ⊎ ((i : ℕ) × (i < n) × (f i ≢ finished))
unfinished f zero = inl (λ i h. absurd (omega arith))
unfinished f (suc n) = elim (unfinished f n) [
  | inr (i, lt, ne) ↦ inr (i, omega arith, ne)
  | inl all ↦ elim (finished_or_not (f n)) [
    | inl e ↦
        inl (λ i h. elim (ℕ_discrete i n) [
          | yes same ↦ ap f same ∙ e
          | no other ↦ all i (omega arith)
        ])
    | inr ne ↦ inr (n, omega arith, ne)
  ]
]
  where
    finished_or_not : (pc : ConsumerPc) → (pc ≡ finished) ⊎ (pc ≢ finished)
    finished_or_not finished = inl refl
    finished_or_not start = inr (λ e. cc)
    finished_or_not locked = inr (λ e. cc)
    finished_or_not testing = inr (λ e. cc)
    finished_or_not body = inr (λ e. cc)
    finished_or_not (popped p ch) = inr (λ e. cc)
    finished_or_not (printing p ch) = inr (λ e. cc)
    finished_or_not leaving = inr (λ e. cc)

abbrev CanStep : ℕ → System → Type 0
CanStep n s = (t : System) × Step n s t

module _ {n : ℕ} {s : System} (l : Locks n s) {xs : Cells} (c : Contents s xs) where
  open l use {queue_p, queue_c, num_p, num_c, p_queue, c_queue, p_num, c_num, idle}

  -- The loop's body always goes on.
  body-steps : (i : ℕ) → i < n → s.consumers i ≡ body → (ys : Cells) → Contents s ys → CanStep n s
  body-steps i lt e [] d = (_, consume i lt (ConsumerStep.yield e d.queue.front))
  body-steps i lt e ((a, ch) ∷ ys) d =
      let (m, done, v, (k, at_a, same), frame) = pop_front-cons a ch s.mem ys d.queue in
      let full : s.mem.front ≢ null = λ h. d.queue.chain.0 (sym d.queue.front ∙ h) in
      (_, consume i lt (ConsumerStep.pop a k m e full done at_a))

  print-steps : (i p ch : ℕ) → i < n → s.consumers i ≡ printing p ch → CanStep n s
  unfolding take_char
  print-steps i p ch lt e =
      let mine : carries (s.consumers i) ≡ some (p, ch) = ground arith in
      let (_, (k, at_p, same)) = c.carried i p ch mine in
      (
        _,
        consume i lt (
            ConsumerStep.print p ch k.c (record s.mem { heap = update s.mem.heap p none }) e
              (ground arith)),
      )

  -- The test of the loop always goes one way or the other.
  testing-steps : (i : ℕ) → i < n → s.consumers i ≡ testing → CanStep n s
  testing-steps i lt e = elim (ℕ_discrete s.mem.front null) [
    | yes empty ↦ elim (dec_lt 0 s.num_prod) [
      | yes more ↦ (_, consume i lt (ConsumerStep.enter e (inr more)))
      | no none_left ↦ (_, consume i lt (ConsumerStep.leave e empty (omega arith)))
    ]
    | no full ↦ (_, consume i lt (ConsumerStep.enter e (inl full)))
  ]

  -- Whoever holds the queue can go on, unless the producer holds the other lock.
  holder-steps :
      (i : ℕ) (pc : ConsumerPc)
      → i < n
      → s.consumers i ≡ pc
      → has_queue pc ≡ true
      → s.num_lock ≢ some the_producer
      → CanStep n s
  unfolding has_queue has_num
  holder-steps i start lt e h p = absurd (ground arith)
  holder-steps i locked lt e h p = elim (Option-cases s.num_lock) [
    | inl free ↦ (_, consume i lt (ConsumerStep.lock_num e free))
    | inr (the_producer, held) ↦ absurd (p held)
    | inr (consumer j, held) ↦
        absurd
          (ground (arith, c_num j held, has_num-has_queue (s.consumers j), queue_c i, queue_c j))
  ]
  holder-steps i testing lt e h p = testing-steps i lt e
  holder-steps i body lt e h p = body-steps i lt e xs c
  holder-steps i (popped q ch) lt e h p = (_, consume i lt (ConsumerStep.unlock q ch e))
  holder-steps i (printing q ch) lt e h p = print-steps i q ch lt e
  holder-steps i leaving lt e h p = (_, consume i lt (ConsumerStep.finish e))
  holder-steps i finished lt e h p = absurd (ground arith)

  below : (j : ℕ) → has_queue (s.consumers j) ≡ true → j < n
  unfolding has_queue
  below j h = elim (dec_lt j n) [ yes lt ↦ lt | no out ↦ absurd (ground (arith, idle j)) ]

  queue_free :
      producer_has_queue s.producer ≡ false
      → producer_has_num s.producer ≡ false
      → (s.queue_lock ≡ none) ⊎ CanStep n s
  queue_free h k = elim (Option-cases s.queue_lock) [
    | inl free ↦ inl free
    | inr (the_producer, held) ↦ absurd (ground (arith, p_queue held))
    | inr (consumer j, held) ↦ inr (
        holder-steps j (s.consumers j) (below j (c_queue j held)) refl (c_queue j held)
          (λ p. absurd (ground (arith, p_num p))))
  ]

  num_free : producer_has_num s.producer ≡ false → (s.num_lock ≡ none) ⊎ CanStep n s
  num_free h = elim (Option-cases s.num_lock) [
    | inl free ↦ inl free
    | inr (the_producer, held) ↦ absurd (ground (arith, p_num held))
    | inr (consumer j, held) ↦ inr (
        testing-steps j (below j (has_num-has_queue (s.consumers j) (c_num j held)))
          (has_num-testing (s.consumers j) (c_num j held)))
  ]

  consumer-steps :
      (i : ℕ) (pc : ConsumerPc)
      → i < n
      → s.consumers i ≡ pc
      → pc ≢ finished
      → producer_has_queue s.producer ≡ false
      → producer_has_num s.producer ≡ false
      → CanStep n s
  unfolding has_queue
  consumer-steps i start lt e ne h k = elim (queue_free h k) [
    | inl free ↦ (_, consume i lt (ConsumerStep.lock e free))
    | inr go ↦ go
  ]
  consumer-steps i (printing p ch) lt e ne h k = print-steps i p ch lt e
  consumer-steps i finished lt e ne h k = absurd (ne refl)
  consumer-steps i locked lt e ne h k =
      holder-steps i locked lt e refl (λ p. absurd (ground (arith, p_num p)))
  consumer-steps i testing lt e ne h k = testing-steps i lt e
  consumer-steps i body lt e ne h k = body-steps i lt e xs c
  consumer-steps i (popped p ch) lt e ne h k = (_, consume i lt (ConsumerStep.unlock p ch e))
  consumer-steps i leaving lt e ne h k = (_, consume i lt (ConsumerStep.finish e))

  producer-steps :
      (pc : ProducerPc) (new : ℕ)
      → s.producer ≡ pc
      → new ≢ null
      → s.mem.heap new ≡ none
      → ((s.producer ≡ gone) × ((i : ℕ) → i < n → s.consumers i ≡ finished)) ⊎ CanStep n s
  unfolding producer_has_queue producer_has_num
  producer-steps (loop ch) new e nn free = elim (dec_lt letter_z ch) [
    | yes past ↦ inr (_, produce (ProducerStep.end_loop ch e past))
    | no more ↦ inr (_, produce (ProducerStep.make new ch e (omega arith) nn free))
  ]
  producer-steps (made a ch) new e nn free = elim (queue_free (ground arith) (ground arith)) [
    | inl open_ ↦ inr (_, produce (ProducerStep.lock a ch e open_))
    | inr go ↦ inr go
  ]
  producer-steps (inside a ch) new e nn free =
      let (na, out, (q, at_a)) = subst (Holds s.mem xs) e c.holds in
      let (m, done, v, frame) = push_back-append a ch q s.mem xs c.queue na out at_a in
      inr (_, produce (ProducerStep.push a ch m e done))
  producer-steps (pushed ch) new e nn free = inr (_, produce (ProducerStep.unlock ch e))
  producer-steps ending new e nn free = elim (num_free (ground arith)) [
    | inl open_ ↦ inr (_, produce (ProducerStep.lock_num e open_))
    | inr go ↦ inr go
  ]
  producer-steps decrement new e nn free = inr (_, produce (ProducerStep.count_down e))
  producer-steps decremented new e nn free = inr (_, produce (ProducerStep.unlock_num e))
  producer-steps gone new e nn free = elim (unfinished s.consumers n) [
    | inl all ↦ inl (e, all)
    | inr (i, lt, ne) ↦
        inr (consumer-steps i (s.consumers i) lt refl ne (ground arith) (ground arith))
  ]

-- While some thread has not finished and `malloc` finds a free address, some thread can go on; so
-- no assertion fails, no dangling pointer is followed and no deadlock arises.
pub deadlock_free :
    {n : ℕ} {s : System} (new : ℕ)
    → Reach n s
    → new ≢ null
    → s.mem.heap new ≡ none
    → ((s.producer ≡ gone) × ((i : ℕ) → i < n → s.consumers i ≡ finished))
      ⊎ ((t : System) × Step n s t)
deadlock_free {s = s} new r nn free =
    let (xs, c, _) = Reach-Contents r in
    producer-steps (Reach-Locks r) c s.producer new refl nn free
