-- ===== src/MapReduce/Reducer/Parsing.antt =====
-- The reduce job reads back the pairs that a map job has written.
use advanced_os.Prelude.{
  suc, ◌+◌, ◌≡◌, refl, ap, sym, ◌∙◌, true, Option, some, ◌>>=◌, List, [], ◌∷◌, ◌++◌, leb, le→leb,
  All, length, take, drop, length-append, arith,
}
use mathlib.Core.List.{append_assoc}
use advanced_os.MapReduce.Text.{Text, newline}
use advanced_os.MapReduce.Text.Lines.{lines, Lacks, lines-line}
use advanced_os.MapReduce.Mapper.{Pair, pair_line}
use advanced_os.MapReduce.Reducer.{find_comma, split_at, parse_line, Values, push_value, read_pairs}
use advanced_os.MapReduce.Reducer.Grouping.{push_all}

-- the line `k, v` without its newline
abbrev pub body : Pair → Text
body (k, v) = k ++ (b',' ∷ b' ' ∷ v)

find_comma-body : (k v : Text) → Lacks b',' k → find_comma (k ++ (b',' ∷ v)) ≡ some (length k)
unfolding find_comma
find_comma-body [] v h = refl
find_comma-body (c ∷ cs) v h = rw (h.0, find_comma-body cs v h.1) refl

take-length : (k t : Text) → take (length k) (k ++ t) ≡ k
take-length [] t = refl
take-length (c ∷ cs) t = ap (◌∷◌ c) (take-length cs t)

drop-length : (k v : Text) → drop (length k + 2) (k ++ (b',' ∷ b' ' ∷ v)) ≡ v
drop-length [] v = refl
drop-length (c ∷ cs) v =
    ap (λ n. drop n (c ∷ cs ++ (b',' ∷ b' ' ∷ v))) {x = length (c ∷ cs) + 2}
      {y = suc (length cs + 2)} (omega arith)
    ∙ drop-length cs v

-- A pair whose key has no comma, printed as a line, is parsed back as the same pair.
pub parse_line-body : (k v : Text) → Lacks b',' k → parse_line (body (k, v)) ≡ some (k, v)
unfolding parse_line split_at
parse_line-body k v h =
    let room : leb (length k + 2) (length (body (k, v))) ≡ true =
      le→leb (length k + 2) (length (body (k, v)))
        (omega (arith, length-append k (b',' ∷ b' ' ∷ v))) in
    ap (split_at (body (k, v))) (find_comma-body k (b' ' ∷ v) h)
    ∙ rw room
        (ap (λ x. some (x, drop (length k + 2) (body (k, v)))) (take-length k (b',' ∷ b' ' ∷ v)))
    ∙ ap (λ x. some (k, x)) (drop-length k v)

-- the text of an intermediate file
unfoldable pub printed : List Pair → Text
printed [] = []
printed (p ∷ ps) = pair_line p ++ printed ps

-- a pair that is written on one line from which it can be read back
abbrev pub IsPlain : Pair → Type 0
IsPlain (k, v) = Lacks b',' k × Lacks newline (body (k, v))

pair_line-body : (k v t : Text) → pair_line (k, v) ++ t ≡ body (k, v) ++ (newline ∷ t)
pair_line-body k v t =
    append_assoc k (b',' ∷ b' ' ∷ v ++ newline ∷ []) t
    ∙ ap (λ l. k ++ (b',' ∷ b' ' ∷ l)) (append_assoc v (newline ∷ []) t)
    ∙ sym (append_assoc k (b',' ∷ b' ' ∷ v) (newline ∷ t))

pub read_pairs-printed :
    (ps : List Pair) (m : Values)
    → All IsPlain ps
    → read_pairs (lines newline (printed ps)) m ≡ some (push_all ps m)
unfolding printed read_pairs push_all
read_pairs-printed [] m h = unfold lines in refl
read_pairs-printed ((k, v) ∷ ps) m h =
    ap (λ t. read_pairs t m)
      (ap (lines newline) (pair_line-body k v (printed ps))
        ∙ lines-line newline (body (k, v)) (printed ps) h.0.1)
    ∙ ap
        (λ (o : Option Pair).
          o >>= λ p. read_pairs (lines newline (printed ps)) (push_value p.0 p.1 m))
        (parse_line-body k v h.0.0)
    ∙ read_pairs-printed ps (push_value k v m) h.1
