-- ===== src/ProducerConsumer/Threads/Contents/Producer.antt =====
-- The steps of the producer keep the contents in order.
use advanced_os.Prelude.{
  ℕ, suc, ◌+◌, ◌-◌, ◌≡◌, ◌≢◌, ◌≤◌, refl, sym, ap, subst, ◌∙◌, Option, none, some, [], ◌∷◌, ◌++◌,
  arith, All-append,
}
use mathlib.Core.List.{append_assoc, map-append}
use advanced_os.ProducerConsumer.Queue.{null, Queue, make_node, push_back}
use advanced_os.ProducerConsumer.Queue.Chain.{
  Cells, Fresh, IsQueue, Chain-update, Fresh-of_none, Untouched, push_back-append,
}
use advanced_os.ProducerConsumer.Threads.{
  Thread, ProducerPc, loop, made, inside, pushed, ending, decrement, decremented, gone, System,
  ProducerStep, letter_a, letter_z,
}
use advanced_os.ProducerConsumer.Threads.Contents.{
  Contents, Holds, node_of, quiet_producer, chars, letters, produced, InRange, alive,
}

letters-suc : (c : ℕ) → letter_a ≤ c → letters (c + 1 - letter_a) ≡ letters (c - letter_a) ++ c ∷ []
letters-suc c h =
    let e : c + 1 - letter_a ≡ suc (c - letter_a) = omega arith in
    let back : letter_a + (c - letter_a) ≡ c = omega arith in
    rw e (unfold letters in ap (λ x. letters (c - letter_a) ++ x ∷ []) back)

Fresh-snoc : (p new ch : ℕ) (xs : Cells) → Fresh p xs → p ≢ new → Fresh p (xs ++ (new, ch) ∷ [])
Fresh-snoc p new ch xs out ne = All-append (λ (x : ℕ × ℕ). p ≢ x.0) xs ((new, ch) ∷ []) out (ne, tt)

module _ {s : System} (new ch : ℕ) where
  make-Contents :
      (xs : Cells)
      → Contents s xs
      → s.producer ≡ loop ch
      → ch ≤ letter_z
      → new ≢ null
      → s.mem.heap new ≡ none
      → Contents (record s { mem = make_node new ch s.mem; producer = made new ch }) xs
  unfolding make_node produced
  make-Contents xs c e le nn free =
      let away = Fresh-of_none s.mem.heap null new xs c.queue.chain free in
      record {
        queue = record {
          front = c.queue.front;
          back = c.queue.back;
          chain = Chain-update s.mem.heap null new _ xs c.queue.chain away;
        };
        holds = (nn, away, (null, ground arith));
        carried = λ i p x h.
            let (clear, (n, at_p, same)) = c.carried i p x h in (clear, (n, ground arith, same));
        apart = c.apart;
        spare = λ i p x h l. let (clear, (n, at_p, same)) = c.carried i p x h in ground arith;
        running = ground (arith, c.running);
        range = ground (arith, c.range);
        history = ground (arith, c.history);
        closed = c.closed;
      }

  push-Contents :
      (xs : Cells) (m : Queue)
      → Contents s xs
      → s.producer ≡ inside new ch
      → (letter_a ≤ ch) × (ch ≤ letter_z)
      → IsQueue m (xs ++ (new, ch) ∷ [])
      → Untouched s.mem m new xs
      → Contents (record s { mem = m; producer = pushed ch }) (xs ++ (new, ch) ∷ [])
  unfolding produced
  push-Contents xs m c e range v frame = record {
    queue = v;
    holds = tt;
    carried = λ i p x h.
        let (clear, (n, at_p, same)) = c.carried i p x h in
        let ne : p ≢ new = λ l. c.spare i p x h (ground arith) in
        (Fresh-snoc p new ch xs clear ne, (n, frame p ne clear ∙ at_p, same));
    apart = c.apart;
    spare = λ i p x h l. cc;
    running = ground (arith, c.running);
    range = range;
    history =
        rw (map-append, letters-suc ch range.0, ← append_assoc)
          (ap (λ l. l ++ ch ∷ []) (subst (λ pc. s.removed ++ chars xs ≡ produced pc) e c.history));
    closed = λ i h. absurd (ground (arith, c.running, c.closed i));
  }

-- The link is made behind the last node.
push-last :
    (s : System) (new ch : ℕ) (m : Queue) (xs : Cells)
    → Contents s xs
    → s.producer ≡ inside new ch
    → push_back new s.mem ≡ some m
    → Contents (record s { mem = m; producer = pushed ch }) (xs ++ (new, ch) ∷ [])
push-last s new ch m xs c e h =
    let (nn, out, (q, at_new)) = subst (Holds s.mem xs) e c.holds in
    let (m', done, v, frame) = push_back-append new ch q s.mem xs c.queue nn out at_new in
    let mem : m' ≡ m = ground arith in
    subst (λ w. Contents (record s { mem = w; producer = pushed ch }) (xs ++ (new, ch) ∷ [])) mem
      (push-Contents new ch xs m' c e (subst InRange e c.range) v frame)

module _ {s : System} {xs : Cells} (c : Contents s xs) where
  turn :
      (pc pc' : ProducerPc) (q n : Option Thread) (k : ℕ)
      → s.producer ≡ pc
      → (Holds s.mem xs pc → Holds s.mem xs pc')
      → node_of pc' ≡ node_of pc
      → k ≡ alive pc'
      → k ≤ s.num_prod
      → (InRange pc → InRange pc' × (produced pc' ≡ produced pc))
      → Contents (record s { queue_lock = q; num_lock = n; num_prod = k; producer = pc' }) xs
  turn pc pc' q n k e holds node up le range =
      let (r, same) = range (subst InRange e c.range) in
      quiet_producer c pc' q n k (holds (subst (Holds s.mem xs) e c.holds))
        (node ∙ sym (ap node_of e)) up le r (same ∙ sym (ap produced e))

-- Each step of the producer keeps the contents in order.
pub ProducerStep-Contents :
    {s t : System} (xs : Cells) → ProducerStep s t → Contents s xs → (ys : Cells) × Contents t ys
unfolding produced
ProducerStep-Contents xs (ProducerStep.make new ch e le nn free) c =
    (xs, make-Contents new ch xs c e le nn free)
ProducerStep-Contents {s} xs (ProducerStep.lock new ch e _) c = (
  xs,
  turn c (made new ch) (inside new ch) _ s.num_lock s.num_prod e (λ h. h) refl
      (ground (arith, c.running)) (omega arith) (λ r. (r, refl)),
)
ProducerStep-Contents {s} xs (ProducerStep.push new ch m e h) c =
    (xs ++ (new, ch) ∷ [], push-last s new ch m xs c e h)
ProducerStep-Contents {s} xs (ProducerStep.unlock ch e) c = (
  xs,
  turn c (pushed ch) (loop (ch + 1)) _ s.num_lock s.num_prod e (λ h. h) refl
      (ground (arith, c.running)) (omega arith) (λ r. (omega arith, refl)),
)
ProducerStep-Contents {s} xs (ProducerStep.end_loop ch e past) c = (
  xs,
  turn c (loop ch) ending s.queue_lock s.num_lock s.num_prod e (λ h. h) refl
      (ground (arith, c.running)) (omega arith) (λ r. (tt, ap letters (omega arith))),
)
ProducerStep-Contents {s} xs (ProducerStep.lock_num e _) c = (
  xs,
  turn c ending decrement s.queue_lock _ s.num_prod e (λ h. h) refl (ground (arith, c.running))
      (omega arith) (λ r. (tt, refl)),
)
ProducerStep-Contents {s} xs (ProducerStep.count_down e) c = (
  xs,
  turn c decrement decremented s.queue_lock s.num_lock (s.num_prod - 1) e (λ h. h) refl
      (ground (arith, c.running)) (omega arith) (λ r. (tt, refl)),
)
ProducerStep-Contents {s} xs (ProducerStep.unlock_num e) c = (
  xs,
  turn c decremented gone s.queue_lock none s.num_prod e (λ h. h) refl (ground (arith, c.running))
      (omega arith) (λ r. (tt, refl)),
)
