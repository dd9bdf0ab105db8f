-- ===== src/Memory/Balance.antt =====
-- What a pass of the coordinator does to the memory of the domains and of the host.
use advanced_os.Prelude.{
  ℕ, ◌+◌, ◌*◌, ◌^◌, ◌<◌, ◌≤◌, ◌≡◌, ◌≢◌, refl, ◌⊎◌, List, [], ◌∷◌, arith, ltb, leb, ◌==◌,
  if◌then◌else◌, length, All, le→leb, lt→ltb, lt→not_leb, dec_lt, sym,
}
use advanced_os.Memory.{
  extra, Vm, SetMemory, deflate, inflate, ask_host, balance, Tally, host_mem_low, grant_all,
  grant_some,
}
use advanced_os.Memory.Calls.{
  lacks, extras, Serves, done, skip, shrink, grow, Serves-counts, grant_all-Serves,
  grant_some-Serves, tally-counts, length-lacks-extras,
}

-- the size of domain `d` after the calls, if it was `old` before
unfoldable pub after : List SetMemory → ℕ → ℕ → ℕ
after [] d old = old
after (c ∷ cs) d old = after cs d (if c.domain == d then c.kib else old)

-- the memory of all domains before and after the calls, in KiB
unfoldable pub total_before : List Vm → ℕ
total_before [] = 0
total_before (x ∷ xs) = 1024 * x.balloon + total_before xs

unfoldable pub total_after : List SetMemory → List Vm → ℕ
unfolding after
total_after cs [] = 0
total_after cs (x ∷ xs) = after cs x.domain (1024 * x.balloon) + total_after cs xs

abbrev pub Fresh : ℕ → List Vm → Type 0
Fresh d xs = All (λ (x : Vm). d ≢ x.domain) xs

-- no domain is listed twice
abbrev pub Distinct : List Vm → Type 0
Distinct [] = Unit {0}
Distinct (x ∷ xs) = Fresh x.domain xs × Distinct xs

-- Sizes fit 64 bits in bytes, and a domain with extra memory holds at least one unit.
pub record IsSane (x : Vm) : Type 0 where
  pub fits : x.balloon + 100 < 2 ^ 54
  pub holds : x.status ≡ extra → 100 ≤ x.balloon

after-Fresh :
    {xs : List Vm} {cs : List SetMemory} {i n : ℕ} (d old : ℕ)
    → Serves xs cs i n
    → Fresh d xs
    → after cs d old ≡ old
unfolding after
after-Fresh d old done f = refl
after-Fresh d old (skip h r) f = after-Fresh d old r f.1
after-Fresh d old (shrink {x} h r) f = ground (arith, f.0, after-Fresh d old r f.1)
after-Fresh d old (grow {x} h r) f = ground (arith, f.0, after-Fresh d old r f.1)

total_after-Fresh :
    (c : SetMemory) (cs : List SetMemory) (xs : List Vm)
    → Fresh c.domain xs
    → total_after (c ∷ cs) xs ≡ total_after cs xs
unfolding total_after
total_after-Fresh c cs [] f = refl
total_after-Fresh c cs (x ∷ xs) f = ground (arith, f.0, total_after-Fresh c cs xs f.1)

-- Each domain that grew has one unit more, each that shrank one unit less, the others the same.
pub Serves-total :
    {xs : List Vm} {cs : List SetMemory} {i d : ℕ}
    → Serves xs cs i d
    → Distinct xs
    → All IsSane xs
    → total_after cs xs + 102400 * d ≡ total_before xs + 102400 * i
unfolding total_after total_before
Serves-total done f s = refl
Serves-total (skip {x} {cs} h r) f s =
    omega (arith, after-Fresh x.domain (1024 * x.balloon) r f.0, Serves-total r f.1 s.1)
Serves-total (shrink {x} {xs} {cs} h r) f s =
    let sane = s.0 in
    let room = sane.holds h in
    let fits = sane.fits in
    ground (
      arith,
      after-Fresh x.domain (deflate x).kib r f.0,
      total_after-Fresh (deflate x) cs xs f.0,
      Serves-total r f.1 s.1,
    )
Serves-total (grow {x} {xs} {cs} h r) f s =
    let fits = s.0.fits in
    ground (
      arith,
      after-Fresh x.domain (inflate x).kib r f.0,
      total_after-Fresh (inflate x) cs xs f.0,
      Serves-total r f.1 s.1,
    )

-- How many domains in need the coordinator serves: all of them if the units released by others cover them,
-- or together with what the host has beyond its reserve; else one for each unit released, even where the
-- host could spare memory for some more.
pub intended : ℕ → ℕ → ℕ → ℕ
intended host l e = if leb l e then l else if leb (100 * l + 200) (100 * e + host) then l else e

-- `balance` over the counts of the first loop
abbrev counts : ℕ → ℕ → Tally
counts l e = record { lack_cnt = l; needed = 100 * l; avail = 100 * e }

balance-counts :
    (host : ℕ) (xs : List Vm)
    → length xs < 2 ^ 31
    → balance host xs ≡ (
        if leb (100 * lacks xs) (ask_host host (counts (lacks xs) (extras xs)))
        then grant_all xs
        else if ltb 0 (lacks xs)
        then grant_some (ask_host host (counts (lacks xs) (extras xs))) xs
        else [])
unfolding balance
balance-counts host xs h = rw (tally-counts xs h)

module _ (host l e : ℕ) where
  intended-le : l ≤ e → intended host l e ≡ l
  unfolding intended
  intended-le h = ground arith

  intended-rich : 100 * l + 200 ≤ 100 * e + host → intended host l e ≡ l
  unfolding intended
  intended-rich h = ground arith

  intended-poor : e < l → 100 * e + host < 100 * l + 200 → intended host l e ≡ e
  unfolding intended
  intended-poor h k = ground arith

  ask_host-le : l ≤ e → ask_host host (counts l e) ≡ 100 * e
  unfolding ask_host
  ask_host-le h = ground arith

  ask_host-rich :
      e < l
      → 100 * l + 200 ≤ 100 * e + host
      → l < 2 ^ 31
      → host < 2 ^ 63
      → ask_host host (counts l e) ≡ 100 * l
  unfolding ask_host
  ask_host-rich h k few small = ground arith

  ask_host-poor :
      e < l
      → 100 * l ≤ 100 * e + host
      → 100 * e + host < 100 * l + 200
      → l < 2 ^ 31
      → ask_host host (counts l e) ≡ 100 * e
  unfolding ask_host
  ask_host-poor h k p few = ground arith

  -- the unsigned difference wraps around
  ask_host-wraps : 100 * e + host < 100 * l → l < 2 ^ 31 → ask_host host (counts l e) ≡ 100 * l
  unfolding ask_host
  ask_host-wraps h few = ground arith

module _ (host : ℕ) (xs : List Vm) (few : length xs < 2 ^ 31) where
  all_granted :
      100 * lacks xs ≤ ask_host host (counts (lacks xs) (extras xs))
      → Serves xs (balance host xs) (lacks xs) (extras xs)
  all_granted h = rw (balance-counts host xs few, le→leb _ _ h) (grant_all-Serves xs)

  some_granted :
      ask_host host (counts (lacks xs) (extras xs)) ≡ 100 * extras xs
      → extras xs < lacks xs
      → Serves xs (balance host xs) (extras xs) (extras xs)
  some_granted e h =
      rw
        (
          balance-counts host xs few,
          e,
          lt→not_leb (100 * lacks xs) (100 * extras xs) (omega arith),
          lt→ltb 0 (lacks xs) (omega arith),
        )
        (Serves-counts (omega arith) refl
          (grant_some-Serves (extras xs) xs (omega (arith, length-lacks-extras xs))))

  -- With fewer than 2^31 domains and less than 2^63 free MiB, unless the host lacks even the difference
  -- between what is needed and what is released: the calls go through the domains in order, at most one
  -- for each. Each domain with extra memory gets the call `deflate`. Of the domains in need, all get
  -- `inflate` if the units released cover them, or do so together with what the host has beyond
  -- 200 MiB; otherwise exactly as many as there are units released. No other domain gets a call.
  pub balance-Serves :
      host < 2 ^ 63
      → 100 * lacks xs ≤ 100 * extras xs + host
      → Serves xs (balance host xs) (intended host (lacks xs) (extras xs)) (extras xs)
  balance-Serves small room =
      let few' = length-lacks-extras xs in
      elim (dec_lt (extras xs) (lacks xs)) [
        | no h ↦
            Serves-counts (sym (intended-le host (lacks xs) (extras xs) (omega arith))) refl
              (all_granted (omega (arith, ask_host-le host (lacks xs) (extras xs))))
        | yes h ↦ elim (dec_lt (100 * extras xs + host) (100 * lacks xs + 200)) [
          | no rich ↦
              Serves-counts (sym (intended-rich host (lacks xs) (extras xs) (omega arith))) refl
                (all_granted (omega (arith, ask_host-rich host (lacks xs) (extras xs) h)))
          | yes poor ↦
              Serves-counts (sym (intended-poor host (lacks xs) (extras xs) h poor)) refl (
                some_granted (ask_host-poor host (lacks xs) (extras xs) h room poor (omega arith))
                  h)
        ]
      ]

  -- With fewer than 2^31 domains, where the host lacks even the difference, the unsigned subtraction wraps
  -- around and all the domains in need grow.
  pub balance-overcommits :
      100 * extras xs + host < 100 * lacks xs → Serves xs (balance host xs) (lacks xs) (extras xs)
  balance-overcommits h =
      let few' = length-lacks-extras xs in
      all_granted (omega (arith, ask_host-wraps host (lacks xs) (extras xs)))

  -- With fewer than 2^31 domains, none listed twice, less than 2^63 free MiB, balloons that fit 64 bits in
  -- bytes with one unit more, and at least one unit in the balloon of each domain with extra memory:
  -- unless the host lacks even the difference between what is needed and what is released, the domains
  -- together do not grow, or by no more than what the host has beyond 200 MiB.
  pub balance-host_reserve :
      host < 2 ^ 63
      → 100 * lacks xs ≤ 100 * extras xs + host
      → Distinct xs
      → All IsSane xs
      → (total_after (balance host xs) xs ≤ total_before xs)
        ⊎ (total_after (balance host xs) xs + 1024 * host_mem_low ≤ total_before xs + 1024 * host)
  unfolding intended
  balance-host_reserve small room apart sane =
      ground (arith, Serves-total (balance-Serves small room) apart sane)
