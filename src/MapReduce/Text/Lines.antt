-- ===== src/MapReduce/Text/Lines.antt =====
-- The loop over `std::getline` against the lines of a text.
use advanced_os.Prelude.{
  ℕ, zero, suc, ◌≡◌, ◌≤◌, refl, ap, sym, ◌∙◌, Bool, List, [], ◌∷◌, ◌++◌, arith, ◌==◌, if◌then◌else◌,
  length, true, false, All,
}
use advanced_os.MapReduce.Text.{Text, split_line, read_lines, all_lines}

-- a byte put in front of the first line
unfoldable pub onto_first : ℕ → List Text → List Text
onto_first c [] = (c ∷ []) ∷ []
onto_first c (l ∷ ls) = (c ∷ l) ∷ ls

-- The lines of a text: the parts between delimiters, the last one only if it is not empty.
unfoldable pub lines : ℕ → Text → List Text
unfolding onto_first
lines d [] = []
lines d (c ∷ cs) = if c == d then [] ∷ lines d cs else onto_first c (lines d cs)

split_line-shorter : (d : ℕ) (text : Text) → length (split_line d text).1 ≤ length text
unfolding split_line
split_line-shorter d [] = omega arith
split_line-shorter d (c ∷ cs) = ground (arith, split_line-shorter d cs)

getline-shorter : (d c : ℕ) (cs : Text) → length (split_line d (c ∷ cs)).1 ≤ length cs
unfolding split_line
getline-shorter d c cs = ground (arith, split_line-shorter d cs)

lines-split_line :
    (d c : ℕ) (cs : Text)
    → lines d (c ∷ cs) ≡ (split_line d (c ∷ cs)).0 ∷ lines d (split_line d (c ∷ cs)).1
unfolding lines split_line
lines-split_line d c [] = ground arith
lines-split_line d c (c' ∷ cs) = ground (arith, lines-split_line d c' cs)

read_lines-lines :
    (fuel d : ℕ) (text : Text) → length text ≤ fuel → read_lines fuel d text ≡ lines d text
unfolding read_lines
read_lines-lines zero d [] h = unfold lines in refl
read_lines-lines zero d (c ∷ cs) h = absurd (omega arith)
read_lines-lines (suc fuel) d [] h = unfold lines in refl
read_lines-lines (suc fuel) d (c ∷ cs) h =
    ap (λ l. (split_line d (c ∷ cs)).0 ∷ l)
      (read_lines-lines fuel d (split_line d (c ∷ cs)).1 (omega (arith, getline-shorter d c cs)))
    ∙ sym (lines-split_line d c cs)

-- The loop over `std::getline` reads exactly the lines of the text.
pub all_lines-lines : (d : ℕ) (text : Text) → all_lines d text ≡ lines d text
unfolding all_lines
all_lines-lines d text = read_lines-lines (length text) d text (omega arith)

-- a text that ends with the delimiter, or is empty
unfoldable pub ends : ℕ → Text → Bool
ends d [] = true
ends d (c ∷ []) = c == d
ends d (c ∷ c' ∷ cs) = ends d (c' ∷ cs)

-- Behind a delimiter the lines start anew.
pub lines-append :
    (d : ℕ) (xs ys : Text) → ends d xs ≡ true → lines d (xs ++ ys) ≡ lines d xs ++ lines d ys
unfolding lines ends
lines-append d [] ys h = refl
lines-append d (c ∷ []) ys h = ground arith
lines-append d (c ∷ c' ∷ cs) ys h = ground (arith, lines-append d (c' ∷ cs) ys h)

-- the byte does not occur
abbrev pub Lacks : ℕ → Text → Type 0
Lacks c t = All (λ (d : ℕ). (d == c) ≡ false) t

pub lines-line : (d : ℕ) (l t : Text) → Lacks d l → lines d (l ++ (d ∷ t)) ≡ l ∷ lines d t
unfolding lines onto_first
lines-line d [] t h = ground arith
lines-line d (c ∷ cs) t h = rw (h.0, lines-line d cs t h.1) refl

-- A text without the delimiter, which is not empty, is its own only line.
pub lines-last : (d c : ℕ) (cs : Text) → Lacks d (c ∷ cs) → lines d (c ∷ cs) ≡ (c ∷ cs) ∷ []
unfolding lines onto_first
lines-last d c [] h = rw h.0 refl
lines-last d c (c' ∷ cs) h = rw (h.0, lines-last d c' cs h.1) refl
