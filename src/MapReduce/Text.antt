-- ===== src/MapReduce/Text.antt =====
-- Texts as lists of bytes, and the standard library's `std::getline` on them.
pub mod Lines
use advanced_os.Prelude.{
  ℕ, zero, suc, ◌+◌, ◌/◌, ◌%◌, ◌≡◌, ◌↔◌, refl, subst, Bool, true, false, ◌&&◌, ◌||◌, List, [], ◌∷◌,
  ◌++◌, Option, none, some, ◌==◌, ltb, if◌then◌else◌, length, arith,
}

abbrev pub Text : Type 0
Text = List ℕ

abbrev pub newline : ℕ
newline = 10

-- the text before the first delimiter, and that behind it
unfoldable pub split_line : ℕ → Text → Text × Text
split_line d [] = ([], [])
split_line d (c ∷ cs) =
    let (line, rest) = split_line d cs in if c == d then ([], cs) else (c ∷ line, rest)

-- `std::getline(stream, line, d)`: `none` at the end of the stream
unfoldable pub getline : ℕ → Text → Option (Text × Text)
unfolding split_line
getline d [] = none
getline d (c ∷ cs) = some (split_line d (c ∷ cs))

-- `while (std::getline(stream, line, d)) lines.push_back(line);`, with fuel
unfoldable pub read_lines : ℕ → ℕ → Text → List Text
unfolding getline
read_lines zero d text = []
read_lines (suc fuel) d text = elim (getline d text) [
  | none ↦ []
  | some (line, rest) ↦ line ∷ read_lines fuel d rest
]

-- Each round takes a byte, so the text's length is fuel enough.
unfoldable pub all_lines : ℕ → Text → List Text
unfolding read_lines
all_lines d text = read_lines (length text) d text

-- `==` of `std::string`
unfoldable pub text_eq : Text → Text → Bool
text_eq [] [] = true
text_eq [] (d ∷ ds) = false
text_eq (c ∷ cs) [] = false
text_eq (c ∷ cs) (d ∷ ds) = (c == d) && text_eq cs ds

pub text_eq-eq : (s t : Text) → text_eq s t ≡ true → s ≡ t
unfolding text_eq
text_eq-eq [] [] h = refl
text_eq-eq [] (d ∷ ds) h = cc
text_eq-eq (c ∷ cs) [] h = cc
text_eq-eq (c ∷ cs) (d ∷ ds) h = ground (arith, text_eq-eq cs ds)

pub text_eq_refl : (s : Text) → text_eq s s ≡ true
unfolding text_eq
text_eq_refl [] = refl
text_eq_refl (c ∷ cs) = ground (arith, text_eq_refl cs)

-- the two directions at once, for `ground`
pub text_eq_iff : (s t : Text) → (text_eq s t ≡ true) ↔ (s ≡ t)
text_eq_iff s t = (text_eq-eq s t, λ e. subst (λ u. text_eq s u ≡ true) e (text_eq_refl s))

-- `find(d)` and `find_first_of(d)` of `std::string`, `none` for npos
unfoldable pub find_first : ℕ → Text → Option ℕ
find_first d [] = none
find_first d (c ∷ cs) =
    let rest = find_first d cs in
    if c == d then some 0 else elim rest [ none ↦ none | some i ↦ some (suc i) ]

-- `std::string::find(s) != npos`
unfoldable pub starts_with : Text → Text → Bool
starts_with [] t = true
starts_with (c ∷ cs) [] = false
starts_with (c ∷ cs) (d ∷ ds) = (c == d) && starts_with cs ds

unfoldable pub contains : Text → Text → Bool
unfolding starts_with
contains s [] = starts_with s []
contains s (d ∷ ds) = starts_with s (d ∷ ds) || contains s ds

-- The bytes of a file, or `none` where there is no such file.
abbrev pub FileSystem : Type 0
FileSystem = Text → Option Text

abbrev pub content : Option Text → Text
content none = []
content (some t) = t

-- a stream opened with `std::ios::app | std::ios::out`, written and closed
unfoldable pub append_file : Text → Text → FileSystem → FileSystem
append_file f t fs g = if text_eq f g then some (content (fs f) ++ t) else fs g

-- `std::to_string` of a number that is not negative; each round divides by ten, so a number is fuel
-- enough for itself
unfoldable pub digits : ℕ → ℕ → Text
digits zero n = []
digits (suc fuel) n =
    let more = digits fuel (n / 10) in
    if ltb n 10 then (b'0' + n) ∷ [] else more ++ (b'0' + n % 10) ∷ []

unfoldable pub to_string : ℕ → Text
unfolding digits
to_string n = digits (n + 1) n

to_string_lem : to_string 2048 ≡ b'2' ∷ b'0' ∷ b'4' ∷ b'8' ∷ []
unfolding to_string
to_string_lem = refl
