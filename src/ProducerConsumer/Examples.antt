-- ===== src/ProducerConsumer/Examples.antt =====
-- Runs of the threads under a given schedule, each with its proof of reachability, and the theorems
-- at the states that they end in. `malloc` returns the code of the letter as the address.
use advanced_os.Prelude.{
  ℕ, zero, suc, ◌≡◌, ◌≢◌, ◌<◌, ◌⊎◌, inl, inr, refl, true, false, Option, none, some, List, [], ◌∷◌,
  ◌++◌, arith, Option-cases, ℕ_discrete, dec_lt, replicate, ◌==◌, if◌then◌else◌,
}
use mathlib.Core.List.{foldl}
use mathlib.Core.Logic.{dite}
use advanced_os.Prelude.Family.{total}
use advanced_os.ProducerConsumer.Queue.{
  null, Node, Queue, make_node, push_back, pop_front, take_char,
}
use advanced_os.ProducerConsumer.Queue.Chain.{
  Cells, IsQueue, Untouched, push_back-append, pop_front-cons,
}
use advanced_os.ProducerConsumer.Threads.{
  ProducerPc, loop, made, inside, pushed, ending, decrement, decremented, gone, ConsumerPc, start,
  locked, testing, body, popped, printing, leaving, finished, System, init, ProducerStep,
  ConsumerStep, Step, produce, consume, Reach, initial, later, letter_z,
}
use advanced_os.ProducerConsumer.Threads.Locks.{producer_has_queue, has_queue}
use advanced_os.ProducerConsumer.Threads.Contents.{letters, produced, chars}
use advanced_os.ProducerConsumer.Threads.Output.{count, count_of}
use advanced_os.ProducerConsumer.Threads.Safety.{
  mutual_exclusion, first_in_first_out, finished-output,
}
use advanced_os.ProducerConsumer.Threads.Progress.{deadlock_free}

-- a step, if there is one
abbrev Turn : ℕ → System → Type 0
Turn n s = Option ((t : System) × Step n s t)

producer_turn : (n : ℕ) (s : System) (pc : ProducerPc) → s.producer ≡ pc → Turn n s
unfolding ℕ_discrete dec_lt Option-cases
producer_turn n s (loop c) e =
    dite (dec_lt letter_z c) (λ past. some (_, produce (ProducerStep.end_loop c e past)))
      (λ more. elim (Option-cases (s.mem.heap c)) [
        | inl free ↦
            dite (ℕ_discrete c null) (λ _. none)
              (λ nn. some (_, produce (ProducerStep.make c c e (omega arith) nn free)))
        | inr _ ↦ none
      ])
producer_turn n s (made new c) e = elim (Option-cases s.queue_lock) [
  | inl free ↦ some (_, produce (ProducerStep.lock new c e free))
  | inr _ ↦ none
]
producer_turn n s (inside new c) e = elim (Option-cases (push_back new s.mem)) [
  | inl _ ↦ none
  | inr (m, done) ↦ some (_, produce (ProducerStep.push new c m e done))
]
producer_turn n s (pushed c) e = some (_, produce (ProducerStep.unlock c e))
producer_turn n s ending e = elim (Option-cases s.num_lock) [
  | inl free ↦ some (_, produce (ProducerStep.lock_num e free))
  | inr _ ↦ none
]
producer_turn n s decrement e = some (_, produce (ProducerStep.count_down e))
producer_turn n s decremented e = some (_, produce (ProducerStep.unlock_num e))
producer_turn n s gone e = none

pop_turn :
    (n : ℕ) (s : System) (i : ℕ) → i < n → s.consumers i ≡ body → s.mem.front ≢ null → Turn n s
pop_turn n s i lt e full = elim (Option-cases (pop_front s.mem)) [
  | inl _ ↦ none
  | inr ((p, m), done) ↦ elim (Option-cases (m.heap p)) [
    | inl _ ↦ none
    | inr (k, at_p) ↦ some (_, consume i lt (ConsumerStep.pop p k m e full done at_p))
  ]
]

consumer_turn :
    (n : ℕ) (s : System) (i : ℕ) (pc : ConsumerPc) → i < n → s.consumers i ≡ pc → Turn n s
unfolding ℕ_discrete dec_lt Option-cases pop_turn
consumer_turn n s i start lt e = elim (Option-cases s.queue_lock) [
  | inl free ↦ some (_, consume i lt (ConsumerStep.lock e free))
  | inr _ ↦ none
]
consumer_turn n s i locked lt e = elim (Option-cases s.num_lock) [
  | inl free ↦ some (_, consume i lt (ConsumerStep.lock_num e free))
  | inr _ ↦ none
]
consumer_turn n s i testing lt e =
    dite (ℕ_discrete s.mem.front null)
      (λ empty.
        dite (dec_lt 0 s.num_prod)
          (λ more. some (_, consume i lt (ConsumerStep.enter e (inr more))))
          (λ dead. some (_, consume i lt (ConsumerStep.leave e empty (omega arith)))))
      (λ full. some (_, consume i lt (ConsumerStep.enter e (inl full))))
consumer_turn n s i body lt e =
    dite (ℕ_discrete s.mem.front null)
      (λ empty. some (_, consume i lt (ConsumerStep.yield e empty)))
      (λ full. pop_turn n s i lt e full)
consumer_turn n s i (popped p ch) lt e = some (_, consume i lt (ConsumerStep.unlock p ch e))
consumer_turn n s i (printing p ch) lt e = elim (Option-cases (take_char p s.mem)) [
  | inl _ ↦ none
  | inr ((c, m), done) ↦ some (_, consume i lt (ConsumerStep.print p ch c m e done))
]
consumer_turn n s i leaving lt e = some (_, consume i lt (ConsumerStep.finish e))
consumer_turn n s i finished lt e = none

pub record Run (n : ℕ) : Type 0 where
  pub last : System
  pub reach : Reach n last

take_turn : {n : ℕ} (r : Run n) → Turn n r.last → Run n
take_turn r none = r
take_turn r (some (t, st)) = record { last = t; reach = later r.reach st }

-- Thread 0 is the producer, thread `i + 1` is consumer `i`.
turn : {n : ℕ} → Run n → ℕ → Run n
unfolding producer_turn consumer_turn take_turn dec_lt
turn {n} r zero = take_turn r (producer_turn n r.last r.last.producer refl)
turn {n} r (suc i) = elim (dec_lt i n) [
  | yes lt ↦ take_turn r (consumer_turn n r.last i (r.last.consumers i) lt refl)
  | no _ ↦ r
]

run : (n : ℕ) → List ℕ → Run n
unfolding turn
run n = foldl turn (record { last = init; reach = initial })

-- The producer pushes two letters; consumer 0 takes the first and stands before its `printf`,
-- consumer 1 waits for the lock that the producer holds again.
abbrev midway : Run 2
midway = run 2 (0 ∷ 0 ∷ 0 ∷ 0 ∷ 0 ∷ 0 ∷ 0 ∷ 0 ∷ 1 ∷ 1 ∷ 1 ∷ 1 ∷ 1 ∷ 0 ∷ 0 ∷ [])

midway_state :
    (midway.last.producer ≡ inside 99 99)
    × (midway.last.consumers 0 ≡ printing 97 97)
    × (midway.last.removed ≡ 97 ∷ [])
unfolding run push_back pop_front make_node take_char
midway_state = (refl, refl, refl)

-- The producer runs to its end, then consumer 0 prints 16 letters and consumer 1 the rest.
abbrev complete : Run 2
complete = run 2 (replicate 108 0 ++ replicate 96 1 ++ replicate 64 2 ++ replicate 4 1)

complete_state :
    (complete.last.producer ≡ gone)
    × (complete.last.consumers 0 ≡ finished)
    × (complete.last.consumers 1 ≡ finished)
    × (complete.last.output ≡ letters 26)
    × (complete.last.counts 0 ≡ 16)
    × (complete.last.counts 1 ≡ 10)
unfolding run push_back pop_front make_node take_char letters
complete_state = (refl, refl, refl, refl, refl, refl)

complete_finished : (i : ℕ) → i < 2 → complete.last.consumers i ≡ finished
unfolding run push_back pop_front make_node take_char
complete_finished zero lt = refl
complete_finished (suc zero) lt = refl
complete_finished (suc (suc i)) lt = absurd (omega arith)

mutual_exclusion_example :
    ((i j : ℕ)
      → has_queue (midway.last.consumers i) ≡ true
      → has_queue (midway.last.consumers j) ≡ true
      → i ≡ j)
    × ((i : ℕ)
        → has_queue (midway.last.consumers i) ≡ true
        → producer_has_queue midway.last.producer ≡ false)
mutual_exclusion_example = mutual_exclusion midway.reach

first_in_first_out_example :
    (xs : Cells) × IsQueue midway.last.mem xs
    × (midway.last.removed ++ chars xs ≡ produced midway.last.producer)
first_in_first_out_example = first_in_first_out midway.reach

finished-output_example :
    ((x : ℕ) → count x complete.last.output ≡ count x (letters 26))
    × (total count_of 2 complete.last.counts ≡ 26)
finished-output_example = finished-output complete.reach (omega arith) complete_finished

deadlock_free_example :
    ((midway.last.producer ≡ gone) × ((i : ℕ) → i < 2 → midway.last.consumers i ≡ finished))
    ⊎ ((t : System) × Step 2 midway.last t)
unfolding run push_back pop_front make_node take_char
deadlock_free_example = deadlock_free 7 midway.reach (omega arith) refl

-- one node on the queue, a second one made
abbrev one_queued : Queue
one_queued = record {
  heap = λ a.
      if a == 5
      then some (record { next = null; prev = null; c = 97 })
      else if a == 9
      then some (record { next = null; prev = null; c = 98 })
      else none;
  front = 5;
  back = 5;
}

one_queued-IsQueue : IsQueue one_queued ((5, 97) ∷ [])
one_queued-IsQueue = record { front = refl; back = refl; chain = (omega arith, refl, tt, tt) }

push_back-append_example :
    (m : Queue) × (push_back 9 one_queued ≡ some m)
    × IsQueue m ((5, 97) ∷ (9, 98) ∷ [])
    × Untouched one_queued m 9 ((5, 97) ∷ [])
push_back-append_example =
    push_back-append 9 98 null one_queued ((5, 97) ∷ []) one_queued-IsQueue (omega arith)
      (omega arith) refl

pop_front-cons_example :
    (m : Queue) × (pop_front one_queued ≡ some (5, m))
    × IsQueue m []
    × ((n : Node) × (m.heap 5 ≡ some n) × (n.c ≡ 97))
    × ((b : ℕ) → Unit {0} → m.heap b ≡ one_queued.heap b)
pop_front-cons_example = pop_front-cons 5 97 one_queued [] one_queued-IsQueue
