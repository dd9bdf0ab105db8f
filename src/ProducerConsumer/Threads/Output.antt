-- ===== src/ProducerConsumer/Threads/Output.antt =====
-- What the consumers have printed, against what they have taken off the queue.
use advanced_os.Prelude.{
  ℕ, ◌+◌, ◌≡◌, ◌<◌, refl, ◌∙◌, some, List, [], ◌∷◌, ◌++◌, arith, ◌==◌, if◌then◌else◌, length,
  length-append,
}
use advanced_os.Prelude.Family.{at, total, total-at, total-eq-zero}
use advanced_os.ProducerConsumer.Queue.Chain.{Cells, take_char-c}
use advanced_os.ProducerConsumer.Threads.{
  ConsumerPc, start, locked, testing, body, popped, printing, leaving, finished, System, init,
  ProducerStep, ConsumerStep, Step, produce, consume,
}
use advanced_os.ProducerConsumer.Threads.Contents.{Contents, carries}

-- how often `x` occurs
unfoldable pub count : ℕ → List ℕ → ℕ
count x [] = 0
count x (y ∷ ys) = (if y == x then 1 else 0) + count x ys

count-append : (x : ℕ) (xs ys : List ℕ) → count x (xs ++ ys) ≡ count x xs + count x ys
unfolding count
count-append x [] ys = omega arith
count-append x (y ∷ xs) ys = omega (arith, count-append x xs ys)

-- 1 if a consumer has taken an `x` and not yet printed it
unfoldable pub flight : ℕ → ConsumerPc → ℕ
flight x (popped p ch) = if ch == x then 1 else 0
flight x (printing p ch) = if ch == x then 1 else 0
flight x _ = 0

-- 1 if a consumer has taken a character and not yet printed it
unfoldable pub in_flight : ConsumerPc → ℕ
in_flight (popped p ch) = 1
in_flight (printing p ch) = 1
in_flight _ = 0

abbrev pub count_of : ℕ → ℕ
count_of k = k

pub record Output (n : ℕ) (s : System) : Type 0 where
  pub emitted : (x : ℕ) → count x s.output + total (flight x) n s.consumers ≡ count x s.removed
  pub printed : length s.output + total in_flight n s.consumers ≡ length s.removed
  pub counted : total count_of n s.counts ≡ length s.output

pub Output-init : (n : ℕ) → Output n init
unfolding count flight in_flight
Output-init n = record {
  emitted = λ x. omega (arith, total-eq-zero (flight x) n (λ _. start) (λ i lt. refl));
  printed = omega (arith, total-eq-zero in_flight n (λ _. start) (λ i lt. refl));
  counted = total-eq-zero count_of n (λ _. 0) (λ i lt. refl);
}

ProducerStep-Output : {n : ℕ} {s t : System} → ProducerStep s t → Output n s → Output n t
ProducerStep-Output (ProducerStep.make new c e _ _ _) o = record {
  emitted = o.emitted;
  printed = o.printed;
  counted = o.counted;
}
ProducerStep-Output _ o = record { emitted = o.emitted; printed = o.printed; counted = o.counted }

module _ {n : ℕ} {s : System} (o : Output n s) (i : ℕ) (lt : i < n) where
  same_flight :
      (pc : ConsumerPc)
      → ((x : ℕ) → flight x pc ≡ flight x (s.consumers i))
      → (x : ℕ) → count x s.output + total (flight x) n (at s.consumers i pc) ≡ count x s.removed
  same_flight pc e x = omega (arith, o.emitted x, total-at (flight x) n s.consumers i pc lt, e x)

  same_in_flight :
      (pc : ConsumerPc)
      → in_flight pc ≡ in_flight (s.consumers i)
      → length s.output + total in_flight n (at s.consumers i pc) ≡ length s.removed
  same_in_flight pc e = omega (arith, o.printed, total-at in_flight n s.consumers i pc lt, e)

  ConsumerStep-Output : {t : System} (xs : Cells) → Contents s xs → ConsumerStep s i t → Output n t
  unfolding flight count in_flight
  ConsumerStep-Output xs c (ConsumerStep.pop p m q e _ _ _) = record {
    emitted = λ x. ground (
      arith,
      o.emitted x,
      total-at (flight x) n s.consumers i (popped p m.c) lt,
      count-append x s.removed (m.c ∷ []),
    );
    printed = ground (
      arith,
      o.printed,
      total-at in_flight n s.consumers i (popped p m.c) lt,
      length-append s.removed (m.c ∷ []),
    );
    counted = o.counted;
  }
  ConsumerStep-Output xs c (ConsumerStep.print p ch y m e h) =
      let mine : carries (s.consumers i) ≡ some (p, ch) = ground arith in
      let (_, (k, at_p, same)) = c.carried i p ch mine in
      let printed : y ≡ ch = take_char-c p y s.mem m k h at_p ∙ same in
      record {
        emitted = λ x. ground (
          arith,
          o.emitted x,
          total-at (flight x) n s.consumers i start lt,
          count-append x s.output (y ∷ []),
        );
        printed = ground (
          arith,
          o.printed,
          total-at in_flight n s.consumers i start lt,
          length-append s.output (y ∷ []),
        );
        counted = omega (
          arith,
          o.counted,
          total-at count_of n s.counts i (s.counts i + 1) lt,
          length-append s.output (y ∷ []),
        );
      }
  ConsumerStep-Output xs c (ConsumerStep.lock e _) = record {
    emitted = same_flight locked (λ x. ground arith);
    printed = same_in_flight locked (ground arith);
    counted = o.counted;
  }
  ConsumerStep-Output xs c (ConsumerStep.lock_num e _) = record {
    emitted = same_flight testing (λ x. ground arith);
    printed = same_in_flight testing (ground arith);
    counted = o.counted;
  }
  ConsumerStep-Output xs c (ConsumerStep.enter e _) = record {
    emitted = same_flight body (λ x. ground arith);
    printed = same_in_flight body (ground arith);
    counted = o.counted;
  }
  ConsumerStep-Output xs c (ConsumerStep.unlock p ch e) = record {
    emitted = same_flight (printing p ch) (λ x. ground arith);
    printed = same_in_flight (printing p ch) (ground arith);
    counted = o.counted;
  }
  ConsumerStep-Output xs c (ConsumerStep.yield e _) = record {
    emitted = same_flight start (λ x. ground arith);
    printed = same_in_flight start (ground arith);
    counted = o.counted;
  }
  ConsumerStep-Output xs c (ConsumerStep.leave e _ _) = record {
    emitted = same_flight leaving (λ x. ground arith);
    printed = same_in_flight leaving (ground arith);
    counted = o.counted;
  }
  ConsumerStep-Output xs c (ConsumerStep.finish e) = record {
    emitted = same_flight finished (λ x. ground arith);
    printed = same_in_flight finished (ground arith);
    counted = o.counted;
  }

pub Step-Output :
    {n : ℕ} {s t : System} (xs : Cells) → Contents s xs → Step n s t → Output n s → Output n t
Step-Output xs c (produce mv) o = ProducerStep-Output mv o
Step-Output xs c (consume i lt mv) o = ConsumerStep-Output o i lt xs c mv
