-- ===== src/MapReduce/Shards/Splits.antt =====
-- `get_split` ends behind the line in which the shard is full.
use advanced_os.Prelude.{
  ℕ, zero, suc, ◌+◌, ◌≡◌, ◌<◌, ◌⊎◌, inl, inr, refl, sym, ap, subst, ◌∙◌, false, [], ◌∷◌, some,
  length, drop, get_or, arith, length-drop,
}
use advanced_os.MapReduce.Text.Lines.{ends}
use advanced_os.MapReduce.Text.{Text, FileSystem, newline, getline, split_line}
use advanced_os.MapReduce.Shards.{get_split}
use advanced_os.MapReduce.Shards.Pieces.{AtLine}

-- Where `get_split` finds a line, the split ends behind it: at its newline, or at the end of the
-- file.
split_line-newline :
    (d c : ℕ) (cs : Text)
    → let line = (split_line d (c ∷ cs)).0 in
      ((length line < length (c ∷ cs)) × (get_or (c ∷ cs) (length line) 0 ≡ d))
      ⊎ ((length line ≡ length (c ∷ cs)) × (ends d (c ∷ cs) ≡ false))
unfolding split_line ends
split_line-newline d c [] = ground arith
split_line-newline d c (c' ∷ cs) = ground (arith, split_line-newline d c' cs)

ends-drop : (d n : ℕ) (xs : Text) → n < length xs → ends d (drop n xs) ≡ ends d xs
unfolding ends
ends-drop d zero xs h = refl
ends-drop d (suc n) [] h = absurd (omega arith)
ends-drop d (suc n) (x ∷ []) h = absurd (omega arith)
ends-drop d (suc n) (x ∷ y ∷ xs) h = ends-drop d n (y ∷ xs) (omega arith)

get_or-drop : (n i : ℕ) (xs : Text) → get_or (drop n xs) i 0 ≡ get_or xs (n + i) 0
get_or-drop zero i xs = ap (λ k. get_or xs k 0) {x = i} (omega arith)
get_or-drop (suc n) i [] = refl
get_or-drop (suc n) i (x ∷ xs) =
    get_or-drop n i xs
    ∙ ap (λ k. get_or (x ∷ xs) k 0) {x = suc (n + i)} {y = suc n + i} (omega arith)

AtLine-drop :
    (bytes : Text) (n k c : ℕ) (cs : Text)
    → drop n bytes ≡ c ∷ cs
    → ((k < length (c ∷ cs)) × (get_or (c ∷ cs) k 0 ≡ newline))
      ⊎ ((k ≡ length (c ∷ cs)) × (ends newline (c ∷ cs) ≡ false))
    → AtLine bytes (suc (n + k))
AtLine-drop bytes n k c cs e (inl (h, at_k)) = inr (
    inl (
      omega (arith, length-drop n bytes, ap length e),
      sym (get_or-drop n k bytes) ∙ ap (λ l. get_or l k 0) e ∙ at_k,
    ))
AtLine-drop bytes n k c cs e (inr (h, open_)) =
    let size : n < length bytes = omega (arith, length-drop n bytes, ap length e) in
    inr (
      inr (
        omega (arith, length-drop n bytes, ap length e),
        sym (ends-drop newline n bytes size) ∙ ap (ends newline) e ∙ open_,
      ))

get_split_rest :
    (fs : FileSystem) (f bytes : Text) (o remain split : ℕ) (rest : Text)
    → fs f ≡ some bytes
    → drop (o + remain) bytes ≡ rest
    → get_split fs f o remain ≡ some split
    → (0 < split) × AtLine bytes (o + split)
unfolding get_split getline
get_split_rest fs f bytes o remain split [] e r h = absurd (ground arith)
get_split_rest fs f bytes o remain split (c ∷ cs) e r h =
    let line = (split_line newline (c ∷ cs)).0 in
    let size : split ≡ remain + length line + 1 = ground arith in
    (
      omega arith,
      subst (AtLine bytes) {x = suc (o + remain + length line)} {y = o + split} (omega arith)
          (AtLine-drop bytes (o + remain) (length line) c cs r (split_line-newline newline c cs)),
    )

pub get_split-AtLine :
    (fs : FileSystem) (f bytes : Text) (o remain split : ℕ)
    → fs f ≡ some bytes
    → get_split fs f o remain ≡ some split
    → (0 < split) × AtLine bytes (o + split)
get_split-AtLine fs f bytes o remain split e h =
    get_split_rest fs f bytes o remain split (drop (o + remain) bytes) e refl h
