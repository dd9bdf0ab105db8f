-- ===== src/ProducerConsumer/Queue/Chain.antt =====
-- The queue as the list of its nodes, front first, and what each operation does to that list.
use advanced_os.Prelude.{
  ℕ, ◌≡◌, ◌≢◌, refl, sym, ◌∙◌, Option, none, some, List, [], ◌∷◌, ◌++◌, arith, All, All-append,
  Option-cases, inl, inr,
}
use advanced_os.ProducerConsumer.Queue.{null, Node, Queue, update, push_back, pop_front, take_char}

-- address and character of each node
abbrev pub Cells : Type 0
Cells = List (ℕ × ℕ)

abbrev pub first : Cells → ℕ
first [] = null
first ((a, _) ∷ _) = a

abbrev pub last_of : ℕ → Cells → ℕ
last_of p [] = p
last_of p ((a, _) ∷ xs) = last_of a xs

abbrev pub Fresh : ℕ → Cells → Type 0
Fresh a xs = All (λ (x : ℕ × ℕ). a ≢ x.0) xs

-- From `before` the `next` pointers lead through the distinct nodes `xs` to null, and the `prev`
-- pointers back.
abbrev pub Chain : (ℕ → Option Node) → ℕ → Cells → Type 0
Chain h before [] = Unit {0}
Chain h before ((a, c) ∷ xs) =
    (a ≢ null)
    × (h a ≡ some (record { next = first xs; prev = before; c = c }))
    × Fresh a xs
    × Chain h a xs

pub record IsQueue (m : Queue) (xs : Cells) : Type 0 where
  pub front : m.front ≡ first xs
  pub back : m.back ≡ last_of null xs
  pub chain : Chain m.heap null xs

-- A chain survives a change of the heap at other addresses.
pub Chain-frame :
    (h g : ℕ → Option Node) (before : ℕ) (xs : Cells)
    → Chain h before xs
    → All (λ (x : ℕ × ℕ). g x.0 ≡ h x.0) xs
    → Chain g before xs
Chain-frame h g before [] r same = tt
Chain-frame h g before ((a, c) ∷ xs) (ne, e, out, r) same =
    (ne, same.0 ∙ e, out, Chain-frame h g a xs r same.1)

update-other :
    (h : ℕ → Option Node) (p : ℕ) (v : Option Node) (xs : Cells)
    → Fresh p xs
    → All (λ (x : ℕ × ℕ). update h p v x.0 ≡ h x.0) xs
update-other h p v [] out = tt
update-other h p v ((a, c) ∷ xs) out = (ground (arith, out.0), update-other h p v xs out.1)

pub Chain-update :
    (h : ℕ → Option Node) (before p : ℕ) (v : Option Node) (xs : Cells)
    → Chain h before xs
    → Fresh p xs
    → Chain (update h p v) before xs
Chain-update h before p v xs r out =
    Chain-frame h (update h p v) before xs r (update-other h p v xs out)

last_of-Fresh : (p a c : ℕ) (xs : Cells) → Fresh p ((a, c) ∷ xs) → last_of a xs ≢ p
last_of-Fresh p a c [] out = λ e. out.0 (sym e)
last_of-Fresh p a c ((b, d) ∷ xs) out = last_of-Fresh p b d xs out.1

last_of-null :
    (b c : ℕ) (h : ℕ → Option Node) (before : ℕ) (xs : Cells)
    → Chain h before ((b, c) ∷ xs)
    → last_of b xs ≢ null
last_of-null b c h before [] r = r.0
last_of-null b c h before ((b', c') ∷ xs) r = last_of-null b' c' h b xs r.3

-- A node written behind the last one.
Chain-snoc :
    (h g : ℕ → Option Node) (before a c new ch : ℕ) (xs : Cells)
    → Chain h before ((a, c) ∷ xs)
    → new ≢ null
    → Fresh new ((a, c) ∷ xs)
    → g new ≡ some (record { next = null; prev = last_of a xs; c = ch })
    → ((b : ℕ) → b ≢ new → b ≢ last_of a xs → g b ≡ h b)
    → ((n : Node) → h (last_of a xs) ≡ some n → g (last_of a xs) ≡ some (record n { next = new }))
    → Chain g before ((a, c) ∷ xs ++ (new, ch) ∷ [])
Chain-snoc h g before a c new ch [] (ne, e, out, r) nn fresh gn same at =
    (ne, at _ e, (λ e'. fresh.0 (sym e'), tt), (nn, gn, tt, tt))
Chain-snoc h g before a c new ch ((b, d) ∷ xs) (ne, e, out, r) nn fresh gn same at = (
  ne,
  same a (λ e'. fresh.0 (sym e')) (λ e'. last_of-Fresh a b d xs out (sym e')) ∙ e,
  All-append (λ (x : ℕ × ℕ). a ≢ x.0) ((b, d) ∷ xs) ((new, ch) ∷ []) out
      (λ e'. fresh.0 (sym e'), tt),
  Chain-snoc h g a b d new ch xs r nn fresh.1 gn same at,
)

Chain-last :
    (h : ℕ → Option Node) (before a c : ℕ) (xs : Cells)
    → Chain h before ((a, c) ∷ xs)
    → (p : ℕ) × (ch : ℕ) × (h (last_of a xs) ≡ some (record { next = null; prev = p; c = ch }))
Chain-last h before a c [] (ne, e, out, r) = (before, c, e)
Chain-last h before a c ((b, d) ∷ xs) (ne, e, out, r) = Chain-last h a b d xs r

last_of-snoc : (p a c : ℕ) (xs : Cells) → a ≡ last_of p (xs ++ (a, c) ∷ [])
last_of-snoc p a c [] = refl
last_of-snoc p a c ((b, d) ∷ xs) = last_of-snoc b a c xs

-- A free address lies off the chain.
pub Fresh-of_none :
    (h : ℕ → Option Node) (before a : ℕ) (xs : Cells) → Chain h before xs → h a ≡ none → Fresh a xs
Fresh-of_none h before a [] r e = tt
Fresh-of_none h before a ((b, c) ∷ xs) (ne, e', out, r) e =
    (ground arith, Fresh-of_none h b a xs r e)

-- `b` is neither of the two addresses, nor on the list
abbrev pub Untouched : Queue → Queue → ℕ → Cells → Type 0
Untouched m m' new xs = (b : ℕ) → b ≢ new → Fresh b xs → m'.heap b ≡ m.heap b

-- The producer's critical section meets no assertion and puts its node behind the last one.
pub push_back-append :
    (new c q : ℕ) (m : Queue) (xs : Cells)
    → IsQueue m xs
    → new ≢ null
    → Fresh new xs
    → m.heap new ≡ some (record { next = null; prev = q; c = c })
    → (m' : Queue) × (push_back new m ≡ some m')
      × IsQueue m' (xs ++ (new, c) ∷ [])
      × Untouched m m' new xs
unfolding push_back
push_back-append new c q m [] v nn fresh e = (
  record {
    heap = update m.heap new (some (record { next = null; prev = null; c = c }));
    front = new;
    back = new;
  },
  ground (arith, v.front, v.back),
  record { front = refl; back = refl; chain = (nn, ground arith, tt, tt) },
  λ b ne _. ground arith,
)
push_back-append new c q m ((a, d) ∷ xs) v nn fresh e =
    let (p, ch, last) = Chain-last m.heap null a d xs v.chain in
    let there = last_of-null a d m.heap null xs v.chain in
    let apart = last_of-Fresh new a d xs fresh in
    (
      record {
        heap =
            update (update m.heap new (some (record { next = null; prev = last_of a xs; c = c })))
              (last_of a xs) (some (record { next = new; prev = p; c = ch }));
        front = a;
        back = new;
      },
      ground (arith, v.front, v.back),
      record {
        front = refl;
        back = last_of-snoc null new c ((a, d) ∷ xs);
        chain =
            Chain-snoc m.heap _ null a d new c xs v.chain nn fresh (ground arith)
              (λ b h k. ground arith) (λ n h. ground arith);
      },
      λ b ne out. ground (arith, last_of-Fresh b a d xs out),
    )

-- The consumer's critical section takes the first node off the queue, and does not free it.
pub pop_front-cons :
    (a c : ℕ) (m : Queue) (xs : Cells)
    → IsQueue m ((a, c) ∷ xs)
    → (m' : Queue) × (pop_front m ≡ some (a, m'))
      × IsQueue m' xs
      × ((n : Node) × (m'.heap a ≡ some n) × (n.c ≡ c))
      × ((b : ℕ) → Fresh b xs → m'.heap b ≡ m.heap b)
unfolding pop_front
pop_front-cons a c m [] v =
    let (ne, e, out, r) = v.chain in
    (
      record { heap = m.heap; front = null; back = null },
      ground (arith, v.front),
      record { front = refl; back = refl; chain = tt },
      (record { next = null; prev = null; c = c }, e, refl),
      λ b out. refl,
    )
pop_front-cons a c m ((b, d) ∷ xs) v =
    let (ne, e, out, (nb, eb, outb, r)) = v.chain in
    (
      record {
        heap = update m.heap b (some (record { next = first xs; prev = null; c = d }));
        front = b;
        back = last_of b xs;
      },
      ground (arith, v.front, v.back),
      record {
        front = refl;
        back = refl;
        chain = (nb, ground arith, outb, Chain-update m.heap b b _ xs r outb);
      },
      (record { next = b; prev = null; c = c }, ground (arith, out.0), refl),
      λ x away. ground (arith, away.0),
    )

-- Taking the character of a node frees that node and nothing else.
pub take_char-mem :
    (p x : ℕ) (m m' : Queue)
    → take_char p m ≡ some (x, m')
    → record m { heap = update m.heap p none } ≡ m'
unfolding take_char
take_char-mem p x m m' h = elim (Option-cases (m.heap p)) [
  | inl e ↦ absurd (ground arith)
  | inr (n, e) ↦ ground arith
]

pub take_char-c :
    (p x : ℕ) (m m' : Queue) (n : Node) → take_char p m ≡ some (x, m') → m.heap p ≡ some n → x ≡ n.c
unfolding take_char
take_char-c p x m m' n h e = ground arith
