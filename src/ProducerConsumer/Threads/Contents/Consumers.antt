-- ===== src/ProducerConsumer/Threads/Contents/Consumers.antt =====
-- The steps of a consumer keep the contents in order.
use advanced_os.Prelude.{
  ℕ, ◌+◌, ◌≡◌, ◌≢◌, ◌⊎◌, inl, inr, refl, sym, ap, subst, ◌∙◌, none, some, List, [], ◌∷◌, ◌++◌,
  arith, ℕ_discrete,
}
use mathlib.Core.List.{append_assoc}
use mathlib.Core.Option.{some-injective}
use advanced_os.Prelude.Family.{at}
use advanced_os.ProducerConsumer.Queue.{null, Node, Queue, update, pop_front}
use advanced_os.ProducerConsumer.Queue.Chain.{
  Cells, Fresh, IsQueue, Chain-update, pop_front-cons, take_char-mem,
}
use advanced_os.ProducerConsumer.Threads.{
  ProducerPc, loop, made, inside, ConsumerPc, start, locked, testing, body, popped, printing,
  leaving, finished, System, ConsumerStep,
}
use advanced_os.ProducerConsumer.Threads.Contents.{Contents, Holds, carries, node_of, quiet}

-- What the producer owns is off the queue, and stays so while the heap at it stays.
Holds-frame :
    (m m' : Queue) (xs ys : Cells) (pc : ProducerPc)
    → Holds m xs pc
    → ((p : ℕ) → Fresh p xs → Fresh p ys)
    → ((p : ℕ) → node_of pc ≡ some p → Fresh p xs → m'.heap p ≡ m.heap p)
    → Holds m' ys pc
Holds-frame m m' xs ys (made new c) (ne, out, (q, e)) sub same =
    (ne, sub new out, (q, same new refl out ∙ e))
Holds-frame m m' xs ys (inside new c) (ne, out, (q, e)) sub same =
    (ne, sub new out, (q, same new refl out ∙ e))
Holds-frame m m' xs ys _ h sub same = tt

Holds-Fresh :
    (m : Queue) (xs : Cells) (pc : ProducerPc) (p : ℕ)
    → Holds m xs pc
    → node_of pc ≡ some p
    → Fresh p xs
Holds-Fresh m xs (made new c) p (ne, out, e) h = subst (λ a. Fresh a xs) (some-injective _ _ h) out
Holds-Fresh m xs (inside new c) p (ne, out, e) h =
    subst (λ a. Fresh a xs) (some-injective _ _ h) out
Holds-Fresh m xs (loop c) p h e = cc
Holds-Fresh m xs _ p h e = cc

module _ {s : System} (i p ch : ℕ) where
  -- Consumer `i` frees the node that it carries.
  print-Contents :
      (xs : Cells) (out : List ℕ) (counts : ℕ → ℕ)
      → Contents s xs
      → s.consumers i ≡ printing p ch
      → Contents
          (record s {
            mem = record s.mem { heap = update s.mem.heap p none };
            consumers = at s.consumers i start;
            counts = counts;
            output = out;
          })
          xs
  print-Contents xs out counts c e =
      let mine : carries (s.consumers i) ≡ some (p, ch) = ground arith in
      let (away, _) = c.carried i p ch mine in
      record {
        queue = record {
          front = c.queue.front;
          back = c.queue.back;
          chain = Chain-update s.mem.heap null p none xs c.queue.chain away;
        };
        holds =
            Holds-frame s.mem (record s.mem { heap = update s.mem.heap p none }) xs xs s.producer
              c.holds (λ q h. h) (λ q h _. ground (arith, c.spare i p ch mine));
        carried = λ j q d h.
            let old : carries (s.consumers j) ≡ some (q, d) = ground arith in
            let (clear, (n, at_q, same)) = c.carried j q d old in
            (clear, (n, ground (arith, c.apart i j p ch d), same));
        apart = λ j k q a b h l. ground (arith, c.apart j k q a b);
        spare = λ j q d h. ground (arith, c.spare j q d);
        running = c.running;
        range = c.range;
        history = c.history;
        closed = λ j h. ground (arith, c.closed j);
      }

at-popped :
    (f : ℕ → ConsumerPc) (i a x j q d : ℕ)
    → carries (at f i (popped a x) j) ≡ some (q, d)
    → ((j ≡ i) × (q ≡ a)) ⊎ (carries (f j) ≡ some (q, d))
at-popped f i a x j q d h = ground arith

module _ {s : System} (i a ch : ℕ) where
  -- Consumer `i` takes the first node.
  pop-Contents :
      (xs : Cells) (m : Queue) (n : Node)
      → Contents s ((a, ch) ∷ xs)
      → carries (s.consumers i) ≡ none
      → IsQueue m xs
      → m.heap a ≡ some n
      → n.c ≡ ch
      → ((b : ℕ) → Fresh b xs → m.heap b ≡ s.mem.heap b)
      → Contents
          (record s {
            mem = m;
            consumers = at s.consumers i (popped a n.c);
            removed = s.removed ++ n.c ∷ [];
          })
          xs
  pop-Contents xs m n c idle v at_a same frame =
      let (ne, _, alone, _) = c.queue.chain in
      record {
        queue = v;
        holds =
            Holds-frame s.mem m ((a, ch) ∷ xs) xs s.producer c.holds (λ q h. h.1)
              (λ q _ out. frame q out.1);
        carried = λ j q d h. elim (ℕ_discrete i j) [
          | yes e ↦
              let here : a ≡ q = ground arith in
              let char : n.c ≡ d = ground arith in
              (subst (λ x. Fresh x xs) here alone, (n, ground arith, char))
          | no e ↦
              let old : carries (s.consumers j) ≡ some (q, d) = ground arith in
              let (clear, (k, at_q, same)) = c.carried j q d old in
              (clear.1, (k, frame q clear.1 ∙ at_q, same))
        ];
        apart = λ j k q b d h l. elim (at-popped s.consumers i a n.c j q b h) [
          | inl (hj, ha) ↦ elim (at-popped s.consumers i a n.c k q d l) [
            | inl (hk, _) ↦ hj ∙ sym hk
            | inr old ↦ absurd ((c.carried k q d old).0.0 ha)
          ]
          | inr old ↦ elim (at-popped s.consumers i a n.c k q d l) [
            | inl (_, ha) ↦ absurd ((c.carried j q b old).0.0 ha)
            | inr old' ↦ c.apart j k q b d old old'
          ]
        ];
        spare = λ j q d h l.
            let out = Holds-Fresh s.mem ((a, ch) ∷ xs) s.producer q c.holds l in
            ground (arith, c.spare j q d);
        running = c.running;
        range = c.range;
        history = rw (same, append_assoc) c.history;
        closed = λ j h. absurd (ground (arith, c.closed j, c.queue.front));
      }

-- What is taken off the queue is its first node.
pop-first :
    (s : System) (i p : ℕ) (n : Node) (m : Queue) (xs : Cells)
    → Contents s xs
    → s.consumers i ≡ body
    → s.mem.front ≢ null
    → pop_front s.mem ≡ some (p, m)
    → m.heap p ≡ some n
    → (ys : Cells) × Contents
        (record s {
          mem = m;
          consumers = at s.consumers i (popped p n.c);
          removed = s.removed ++ n.c ∷ [];
        })
        ys
pop-first s i p n m [] c e full h at_p = absurd (full c.queue.front)
pop-first s i p n m ((a, ch) ∷ xs) c e full h at_p =
    let (m', done, v, (n', at_a, same), frame) = pop_front-cons a ch s.mem xs c.queue in
    let there : a ≡ p = ground arith in
    let mem : m' ≡ m = ground arith in
    let node : n' ≡ n = ground arith in
    (
      xs,
      subst
          (λ q.
            Contents
              (record s {
                mem = m;
                consumers = at s.consumers i (popped q n.c);
                removed = s.removed ++ n.c ∷ [];
              })
              xs)
          there
          (pop-Contents i a ch xs m n c (ground arith) (subst (λ w. IsQueue w xs) mem v)
            (ground arith) (ground arith)
            (λ b out. sym (ap (λ (w : Queue). w.heap b) mem) ∙ frame b out)),
    )

-- Each step of a consumer keeps the contents in order.
pub ConsumerStep-Contents :
    {s : System} {i : ℕ} {t : System} (xs : Cells)
    → ConsumerStep s i t
    → Contents s xs
    → (ys : Cells) × Contents t ys
ConsumerStep-Contents {s} {i} xs (ConsumerStep.lock e _) c =
    (xs, quiet c i locked _ _ (ground arith) (λ h. cc))
ConsumerStep-Contents {s} {i} xs (ConsumerStep.lock_num e _) c =
    (xs, quiet c i testing _ _ (ground arith) (λ h. cc))
ConsumerStep-Contents {s} {i} xs (ConsumerStep.enter e _) c =
    (xs, quiet c i body _ _ (ground arith) (λ h. cc))
ConsumerStep-Contents {s} {i} xs (ConsumerStep.pop p n m e full h at_p) c =
    pop-first s i p n m xs c e full h at_p
ConsumerStep-Contents {s} {i} xs (ConsumerStep.unlock p ch e) c =
    (xs, quiet c i (printing p ch) _ _ (ground arith) (λ h. cc))
ConsumerStep-Contents {s} {i} xs (ConsumerStep.print p ch x m e h) c = (
  xs,
  subst
      (λ w.
        Contents
          (record s {
            mem = w;
            consumers = at s.consumers i start;
            counts = at s.counts i (s.counts i + 1);
            output = s.output ++ x ∷ [];
          })
          xs)
      (take_char-mem p x s.mem m h)
      (print-Contents i p ch xs (s.output ++ x ∷ []) (at s.counts i (s.counts i + 1)) c e),
)
ConsumerStep-Contents {s} {i} xs (ConsumerStep.yield e _) c =
    (xs, quiet c i start _ _ (ground arith) (λ h. cc))
ConsumerStep-Contents {s} {i} xs (ConsumerStep.leave e empty none_left) c =
    (xs, quiet c i leaving _ _ (ground arith) (λ h. (empty, none_left)))
ConsumerStep-Contents {s} {i} xs (ConsumerStep.finish e) c =
    (xs, quiet c i finished _ _ (ground arith) (λ h. c.closed i (ground arith)))
