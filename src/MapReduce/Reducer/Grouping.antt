-- ===== src/MapReduce/Reducer/Grouping.antt =====
-- The map of the reduce job: its keys in order, each once, with the values in the order they came.
use advanced_os.Prelude.{
  ◌≡◌, ◌≢◌, inl, inr, refl, ap, sym, ◌∙◌, true, false, List, [], ◌∷◌, ◌++◌, if◌then◌else◌, All,
  All-map, arith, Bool-cases,
}
use mathlib.Core.List.{append_assoc, append-nil}
use advanced_os.MapReduce.Text.{Text, text_eq, text_eq-eq, text_eq_iff}
use advanced_os.MapReduce.Mapper.{Pair}
use advanced_os.MapReduce.Reducer.{text_lt, Values, push_value}

text_lt_irrefl : (s : Text) → text_lt s s ≡ false
unfolding text_lt
text_lt_irrefl [] = refl
text_lt_irrefl (c ∷ cs) = ground (arith, text_lt_irrefl cs)

text_lt_trans : (s t u : Text) → text_lt s t ≡ true → text_lt t u ≡ true → text_lt s u ≡ true
unfolding text_lt
text_lt_trans s [] u h k = absurd (cc)
text_lt_trans s (d ∷ ds) [] h k = absurd (cc)
text_lt_trans [] (d ∷ ds) (e ∷ es) h k = refl
text_lt_trans (c ∷ cs) (d ∷ ds) (e ∷ es) h k = ground (arith, text_lt_trans cs ds es)

-- of two different texts one is before the other
text_lt_total : (s t : Text) → text_eq s t ≡ false → text_lt s t ≡ false → text_lt t s ≡ true
unfolding text_lt text_eq
text_lt_total [] [] h k = absurd (cc)
text_lt_total [] (d ∷ ds) h k = absurd (cc)
text_lt_total (c ∷ cs) [] h k = refl
text_lt_total (c ∷ cs) (d ∷ ds) h k = ground (arith, text_lt_total cs ds)

-- the key `k` is before all keys of `m`
abbrev IsBefore : Text → Values → Type 0
IsBefore k m = All (λ (e : Text × List Text). text_lt k e.0 ≡ true) m

-- Keys that ascend: no key occurs twice.
unfoldable pub IsAscending : Values → Type 0
IsAscending [] = Unit
IsAscending ((k, vs) ∷ m) = IsBefore k m × IsAscending m

IsBefore-push_value :
    (k0 k v : Text) (m : Values)
    → text_lt k0 k ≡ true
    → IsBefore k0 m
    → IsBefore k0 (push_value k v m)
unfolding push_value
IsBefore-push_value k0 k v [] h b = (h, tt)
IsBefore-push_value k0 k v ((k', vs) ∷ m) h b = elim (Bool-cases (text_eq k k')) [
  | inl same ↦ rw same b
  | inr other ↦ elim (Bool-cases (text_lt k k')) [
    | inl before ↦ rw (other, before) (h, b)
    | inr behind ↦ rw (other, behind) (b.0, IsBefore-push_value k0 k v m h b.1)
  ]
]

pub push_value-IsAscending :
    (k v : Text) (m : Values) → IsAscending m → IsAscending (push_value k v m)
unfolding push_value IsAscending
push_value-IsAscending k v [] a = (tt, tt)
push_value-IsAscending k v ((k', vs) ∷ m) a = elim (Bool-cases (text_eq k k')) [
  | inl same ↦ rw same a
  | inr other ↦ elim (Bool-cases (text_lt k k')) [
    | inl before ↦
        rw (other, before)
          (
            (
              before,
              All-map (λ (e : Text × List Text). text_lt k' e.0 ≡ true)
                  (λ (e : Text × List Text). text_lt k e.0 ≡ true) m
                  (λ e h. text_lt_trans k k' e.0 before h) a.0,
            ),
            a,
          )
    | inr behind ↦
        rw (other, behind)
          (
            IsBefore-push_value k' k v m (text_lt_total k k' other behind) a.0,
            push_value-IsAscending k v m a.1,
          )
  ]
]

-- the values of a key, none where the map does not have it
unfoldable pub values_at : Text → Values → List Text
values_at k [] = []
values_at k ((k', vs) ∷ m) = let rest = values_at k m in if text_eq k k' then vs else rest

-- the values that the pairs have for a key
unfoldable pub values_of : Text → List Pair → List Text
values_of k [] = []
values_of k (p ∷ ps) = (if text_eq k p.0 then p.1 ∷ [] else []) ++ values_of k ps

IsBefore-values_at : (k : Text) (m : Values) → IsBefore k m → values_at k m ≡ []
unfolding values_at
IsBefore-values_at k [] h = refl
IsBefore-values_at k ((k', vs) ∷ m) h = elim (Bool-cases (text_eq k k')) [
  | inl same ↦ absurd (cc (text_lt_irrefl k, text_eq-eq k k' same, h.0))
  | inr other ↦ rw other (IsBefore-values_at k m h.1)
]

text_eq-ne : (s t : Text) → s ≢ t → text_eq s t ≡ false
text_eq-ne s t ne = elim (Bool-cases (text_eq s t)) [
  | inl same ↦ absurd (ne (text_eq-eq s t same))
  | inr other ↦ other
]

ne-text_eq : (s t : Text) → text_eq s t ≡ false → s ≢ t
ne-text_eq s t h e = cc (h, (text_eq_iff s t).1 e)

-- A value is added behind those of its key.
pub values_at-push_value :
    (q k v : Text) (m : Values)
    → IsAscending m
    → values_at q (push_value k v m) ≡ values_at q m ++ (if text_eq q k then v ∷ [] else [])
unfolding push_value values_at IsAscending
values_at-push_value q k v [] a = refl
values_at-push_value q k v ((k', vs) ∷ m) a = elim (Bool-cases (text_eq k k')) [
  | inl same ↦ elim (Bool-cases (text_eq q k')) [
    | inl asked ↦ rw (same, asked, ap (text_eq q) (text_eq-eq k k' same) ∙ asked) refl
    | inr passed ↦
        rw (same, passed, ap (text_eq q) (text_eq-eq k k' same) ∙ passed)
          (sym (append-nil (values_at q m)))
  ]
  | inr other ↦ elim (Bool-cases (text_lt k k')) [
    | inl before ↦ elim (Bool-cases (text_eq q k)) [
      | inl asked ↦
          let q_is_k = text_eq-eq q k asked in
          let first : IsBefore q m =
            All-map (λ (e : Text × List Text). text_lt k' e.0 ≡ true)
              (λ (e : Text × List Text). text_lt q e.0 ≡ true) m
              (λ e h. ap (λ x. text_lt x e.0) q_is_k ∙ text_lt_trans k k' e.0 before h) a.0 in
          rw
            (
              other,
              before,
              asked,
              ap (λ x. text_eq x k') q_is_k ∙ other,
              IsBefore-values_at q m first,
            )
            refl
      | inr passed ↦ rw (other, before, passed) (sym (append-nil _))
    ]
    | inr behind ↦ elim (Bool-cases (text_eq q k')) [
      | inl asked ↦
          let apart : text_eq q k ≡ false =
            text_eq-ne q k (λ e. ne-text_eq k k' other (sym e ∙ text_eq-eq q k' asked)) in
          rw (other, behind, asked, apart) (sym (append-nil vs))
      | inr passed ↦ rw (other, behind, passed) (values_at-push_value q k v m a.1)
    ]
  ]
]

-- the pairs pushed one by one
unfoldable pub push_all : List Pair → Values → Values
push_all [] m = m
push_all (p ∷ ps) m = push_all ps (push_value p.0 p.1 m)

pub push_all-IsAscending :
    (ps : List Pair) (m : Values) → IsAscending m → IsAscending (push_all ps m)
unfolding push_all
push_all-IsAscending [] m a = a
push_all-IsAscending (p ∷ ps) m a =
    push_all-IsAscending ps (push_value p.0 p.1 m) (push_value-IsAscending p.0 p.1 m a)

pub values_at-push_all :
    (q : Text) (ps : List Pair) (m : Values)
    → IsAscending m
    → values_at q (push_all ps m) ≡ values_at q m ++ values_of q ps
unfolding push_all values_of
values_at-push_all q [] m a = sym (append-nil (values_at q m))
values_at-push_all q (p ∷ ps) m a =
    values_at-push_all q ps (push_value p.0 p.1 m) (push_value-IsAscending p.0 p.1 m a)
    ∙ ap (λ l. l ++ values_of q ps) (values_at-push_value q p.0 p.1 m a)
    ∙ append_assoc (values_at q m) (if text_eq q p.0 then p.1 ∷ [] else []) (values_of q ps)
