-- ===== src/ProducerConsumer/Threads/Safety.antt =====
-- What holds in every state that the threads can reach.
use advanced_os.Prelude.{
  ℕ, zero, suc, ◌+◌, ◌≡◌, ◌<◌, refl, sym, ap, subst, ◌∙◌, true, false, [], ◌∷◌, ◌++◌, arith, length,
  length-append,
}
use mathlib.Core.List.{append-nil}
use advanced_os.Prelude.Family.{total, total-eq-zero}
use advanced_os.ProducerConsumer.Queue.{null, Queue}
use advanced_os.ProducerConsumer.Queue.Chain.{Cells, IsQueue}
use advanced_os.ProducerConsumer.Threads.{
  ProducerPc, loop, decremented, gone, finished, System, Step, produce, consume, Reach, initial,
  later, letter_a,
}
use advanced_os.ProducerConsumer.Threads.Locks.{producer_has_queue, has_queue, Reach-Locks}
use advanced_os.ProducerConsumer.Threads.Contents.{
  Contents, Contents-init, chars, letters, produced, past_loop, alive,
}
use advanced_os.ProducerConsumer.Threads.Contents.Producer.{ProducerStep-Contents}
use advanced_os.ProducerConsumer.Threads.Contents.Consumers.{ConsumerStep-Contents}
use advanced_os.ProducerConsumer.Threads.Output.{
  count, flight, in_flight, count_of, Output, Output-init, Step-Output,
}

Step-Contents :
    {n : ℕ} {s t : System} (xs : Cells) → Step n s t → Contents s xs → (ys : Cells) × Contents t ys
Step-Contents xs (produce mv) c = ProducerStep-Contents xs mv c
Step-Contents xs (consume i lt mv) c = ConsumerStep-Contents xs mv c

pub Reach-Contents : {n : ℕ} {s : System} → Reach n s → (xs : Cells) × Contents s xs × Output n s
Reach-Contents {n} initial = ([], Contents-init, Output-init n)
Reach-Contents (later r st) =
    let (xs, c, o) = Reach-Contents r in
    let (ys, c') = Step-Contents xs st c in (ys, c', Step-Output xs c st o)

-- Two threads never stand between the lock and the unlock of the queue together.
pub mutual_exclusion :
    {n : ℕ} {s : System}
    → Reach n s
    → ((i j : ℕ) → has_queue (s.consumers i) ≡ true → has_queue (s.consumers j) ≡ true → i ≡ j)
      × ((i : ℕ) → has_queue (s.consumers i) ≡ true → producer_has_queue s.producer ≡ false)
mutual_exclusion r =
    let l = Reach-Locks r in
    let queue_c = l.queue_c in
    let queue_p = l.queue_p in
    (λ i j h k. ground (arith, queue_c i h, queue_c j k), λ i h. ground (arith, queue_c i h))

-- In every reachable state the queue is a well-formed doubly linked list, and the characters taken
-- off it, followed by those on it, are the letters pushed so far, in their order.
pub first_in_first_out :
    {n : ℕ} {s : System}
    → Reach n s
    → (xs : Cells) × IsQueue s.mem xs × (s.removed ++ chars xs ≡ produced s.producer)
first_in_first_out r = let (xs, c, _) = Reach-Contents r in (xs, c.queue, c.history)

produced_dead : (pc : ProducerPc) → alive pc ≡ 0 → produced pc ≡ letters 26
unfolding produced
produced_dead decremented h = refl
produced_dead gone h = refl
produced_dead (loop c) h = absurd (omega arith)
produced_dead _ h = absurd (omega arith)

no_cells : (m : Queue) (xs : Cells) → IsQueue m xs → m.front ≡ null → xs ≡ []
no_cells m [] v e = refl
no_cells m ((a, c) ∷ xs) v e = absurd (v.chain.0 (sym v.front ∙ e))

length-letters : (k : ℕ) → length (letters k) ≡ k
unfolding letters
length-letters zero = refl
length-letters (suc k) =
    omega (arith, length-append (letters k) ((letter_a + k) ∷ []), length-letters k)

-- A consumer leaves its loop only when all 26 letters have been taken off the queue.
pub past_loop-removed :
    {n : ℕ} {s : System}
    → Reach n s
    → (i : ℕ) → past_loop (s.consumers i) ≡ true
    → s.removed ≡ letters 26
past_loop-removed {s = s} r i h =
    let (xs, c, _) = Reach-Contents r in
    let (empty, dead) = c.closed i h in
    let none_left : xs ≡ [] = no_cells s.mem xs c.queue empty in
    sym (append-nil s.removed)
    ∙ subst (λ l. s.removed ++ chars l ≡ produced s.producer) none_left c.history
    ∙ produced_dead s.producer (sym c.running ∙ dead)

-- When every consumer has finished, each character has been printed as often as it stands in the
-- alphabet, and the counts that the consumers return add up to 26.
pub finished-output :
    {n : ℕ} {s : System}
    → Reach n s
    → 0 < n
    → ((i : ℕ) → i < n → s.consumers i ≡ finished)
    → ((x : ℕ) → count x s.output ≡ count x (letters 26)) × (total count_of n s.counts ≡ 26)
unfolding flight in_flight
finished-output {n} {s} r lt all =
    let (_, _, o) = Reach-Contents r in
    let removed = past_loop-removed r 0 (ap past_loop (all 0 lt)) in
    (
      λ x. omega (
        arith,
        o.emitted x,
        total-eq-zero (flight x) n s.consumers (λ i h. ap (flight x) (all i h)),
        ap (count x) removed,
      ),
      omega (
        arith,
        o.printed,
        o.counted,
        total-eq-zero in_flight n s.consumers (λ i h. ap in_flight (all i h)),
        ap length removed,
        length-letters 26,
      ),
    )
