-- ===== src/Memory/Calls.antt =====
-- What a list of virDomainSetMemory calls does for a list of domains, and the counts of the loops.
use advanced_os.Prelude.{
  ℕ, zero, suc, ◌+◌, ◌-◌, ◌*◌, ◌^◌, ◌<◌, ◌≤◌, ◌≡◌, ◌≢◌, refl, List, [], ◌∷◌, arith, length, lt→ltb,
}
use Prim.Native.Nat.{min}
use mathlib.Core.Path.{subst₂}
use advanced_os.Memory.{
  VmStatus, extra, lack, enough, Vm, SetMemory, deflate, inflate, serve, grant_all, serve_some,
  spend, grant_some, Tally, count_vm, tally, no_tally,
}

is_lack : VmStatus → ℕ
is_lack lack = 1
is_lack _ = 0

is_extra : VmStatus → ℕ
is_extra extra = 1
is_extra _ = 0

unfoldable pub lacks : List Vm → ℕ
unfolding is_lack
lacks [] = 0
lacks (x ∷ xs) = is_lack x.status + lacks xs

unfoldable pub extras : List Vm → ℕ
unfolding is_extra
extras [] = 0
extras (x ∷ xs) = is_extra x.status + extras xs

-- The calls serve the domains in their order, each at most once: `i` of those in need grow by one
-- unit, the `d` with extra memory all shrink by one, and no other is touched.
pub data Serves : List Vm → List SetMemory → ℕ → ℕ → Type 0 where
  done : Serves [] [] zero zero
  skip :
      {x : Vm} {xs : List Vm} {cs : List SetMemory} {i d : ℕ}
      → x.status ≢ extra
      → Serves xs cs i d
      → Serves (x ∷ xs) cs i d
  shrink :
      {x : Vm} {xs : List Vm} {cs : List SetMemory} {i d : ℕ}
      → x.status ≡ extra
      → Serves xs cs i d
      → Serves (x ∷ xs) (deflate x ∷ cs) i (suc d)
  grow :
      {x : Vm} {xs : List Vm} {cs : List SetMemory} {i d : ℕ}
      → x.status ≡ lack
      → Serves xs cs i d
      → Serves (x ∷ xs) (inflate x ∷ cs) (suc i) d

pub length-lacks-extras : (xs : List Vm) → lacks xs + extras xs ≤ length xs
unfolding lacks extras
length-lacks-extras [] = omega arith
length-lacks-extras (x ∷ xs) = ground (arith, length-lacks-extras xs)

pub Serves-counts :
    {xs : List Vm} {cs : List SetMemory} {i d i' d' : ℕ}
    → i ≡ i'
    → d ≡ d'
    → Serves xs cs i d
    → Serves xs cs i' d'
Serves-counts {xs} {cs} p q r = subst₂ (λ a b. Serves xs cs a b) p q r

serve-Serves :
    (s : VmStatus) (x : Vm) {xs : List Vm} {cs : List SetMemory} {i d : ℕ}
    → x.status ≡ s
    → Serves xs cs i d
    → Serves (x ∷ xs) (serve s x cs) (is_lack s + i) (is_extra s + d)
unfolding serve is_lack is_extra
serve-Serves extra x e r = Serves-counts (omega arith) (omega arith) (shrink e r)
serve-Serves lack x e r = Serves-counts (omega arith) (omega arith) (grow e r)
serve-Serves enough x e r = Serves-counts (omega arith) (omega arith) (skip (λ h. cc) r)

-- Where all is granted, each domain in need grows.
pub grant_all-Serves : (xs : List Vm) → Serves xs (grant_all xs) (lacks xs) (extras xs)
unfolding grant_all lacks extras
grant_all-Serves [] = done
grant_all-Serves (x ∷ xs) = serve-Serves x.status x refl (grant_all-Serves xs)

-- `k` units are left for those in need
left : VmStatus → ℕ → ℕ
left lack k = k - 1
left _ k = k

left-le : (s : VmStatus) (k : ℕ) → left s k ≤ k
unfolding left
left-le lack k = omega arith
left-le _ k = omega arith

spend-left : (s : VmStatus) (k : ℕ) → 100 * k < 2 ^ 64 → spend s (100 * k) ≡ 100 * left s k
unfolding spend left
spend-left extra k h = refl
spend-left lack zero h = refl
spend-left lack (suc k) h = ground arith
spend-left enough k h = refl

serve_some-Serves :
    (s : VmStatus) (k n : ℕ) (x : Vm) {xs : List Vm} {cs : List SetMemory} {d : ℕ}
    → x.status ≡ s
    → Serves xs cs (min (left s k) n) d
    → Serves (x ∷ xs) (serve_some s (100 * k) x cs) (min k (is_lack s + n)) (is_extra s + d)
unfolding serve_some is_lack is_extra left
serve_some-Serves extra k n x e r = Serves-counts (omega arith) (omega arith) (shrink e r)
serve_some-Serves lack zero n x e r = Serves-counts (omega arith) (omega arith) (skip (λ h. cc) r)
serve_some-Serves lack (suc k) n x {xs} {cs} {d} e r =
    rw (lt→ltb 0 (100 * suc k) (omega arith)) (Serves-counts (omega arith) (omega arith) (grow e r))
serve_some-Serves enough k n x e r = Serves-counts (omega arith) (omega arith) (skip (λ h. cc) r)

-- Where `k` units are available, the first `k` domains in need grow.
pub grant_some-Serves :
    (k : ℕ) (xs : List Vm)
    → 100 * k < 2 ^ 64
    → Serves xs (grant_some (100 * k) xs) (min k (lacks xs)) (extras xs)
unfolding grant_some lacks extras
grant_some-Serves k [] h = Serves-counts (omega arith) refl done
grant_some-Serves k (x ∷ xs) h = rw (spend-left x.status k h) (
    serve_some-Serves x.status k (lacks xs) x refl
      (grant_some-Serves (left x.status k) xs (omega (arith, left-le x.status k))))

-- The tally of the first loop counts a unit for each domain in need and each with extra memory.
tally-counts_from :
    (xs : List Vm) (t : Tally)
    → t.needed + 100 * lacks xs < 2 ^ 64
    → t.avail + 100 * extras xs < 2 ^ 64
    → tally xs t ≡ record {
      lack_cnt = t.lack_cnt + lacks xs;
      needed = t.needed + 100 * lacks xs;
      avail = t.avail + 100 * extras xs;
    }
unfolding tally lacks extras
tally-counts_from [] t h k = ground arith
tally-counts_from (x ∷ xs) t h k = ground (arith, tally-counts_from xs (count_vm x.status t))

pub tally-counts :
    (xs : List Vm)
    → length xs < 2 ^ 31
    → tally xs no_tally
      ≡ record { lack_cnt = lacks xs; needed = 100 * lacks xs; avail = 100 * extras xs }
tally-counts xs h = ground (arith, tally-counts_from xs no_tally, length-lacks-extras xs)
