-- ===== src/Memory/Pass.antt =====
-- A whole pass: when it ends the process, and what each of its calls rests on.
use advanced_os.Prelude.{
  ℕ, suc, ◌+◌, ◌-◌, ltb, if◌then◌else◌, ◌*◌, ◌/◌, ◌^◌, ◌<◌, ◌≤◌, ◌≡◌, ◌↔◌, refl, ap, sym, ◌⊎◌, inl,
  inr, Bool, true, false, none, some, List, [], ◌∷◌, arith, length, All, dec_lt, Option-cases,
  subst, Bool-cases,
}
use mathlib.Core.List.{foldl}
use advanced_os.Memory.{
  extra, lack, Vm, SetMemory, deflate, inflate, Hypervisor, MemStats, no_stats, Stat, Tag, unused,
  available, actual_balloon, other, store_stat, Result, ok, exited, read_stats, get_mem_stats,
  get_host_mem, classify, classify_all, balance, memory_scheduler,
}
use advanced_os.Memory.Calls.{lacks, extras, Serves, done, skip, shrink, grow}
use advanced_os.Memory.Balance.{balance-Serves, balance-overcommits}

Result-cases : {A : Type 0} (r : Result A) → (r ≡ exited) ⊎ ((a : A) × (r ≡ ok a))
Result-cases (ok a) = inr (a, refl)
Result-cases exited = inl refl

ok-injective : {A : Type 0} {a b : A} → ok a ≡ ok b → a ≡ b
ok-injective h = cc

-- some domain of the list has no statistics
unfoldable pub any_fails : Hypervisor → List ℕ → Bool
any_fails v [] = false
any_fails v (d ∷ ds) = elim (v.memory_stats d) [ none ↦ true | some _ ↦ any_fails v ds ]

get_mem_stats-exited :
    (v : Hypervisor) (ds : List ℕ) → any_fails v ds ≡ true → get_mem_stats v ds ≡ exited
unfolding any_fails get_mem_stats
get_mem_stats-exited v [] h = cc
get_mem_stats-exited v (d ∷ ds) h = ground (arith, get_mem_stats-exited v ds)

get_mem_stats-ok :
    (v : Hypervisor) (ds : List ℕ)
    → any_fails v ds ≡ false
    → (ms : List (ℕ × MemStats)) × (get_mem_stats v ds ≡ ok ms)
unfolding any_fails get_mem_stats
get_mem_stats-ok v [] h = ([], refl)
get_mem_stats-ok v (d ∷ ds) h = elim (Option-cases (v.memory_stats d)) [
  | inl e ↦ absurd (ground arith)
  | inr (stats, e) ↦
      let (ms, r) = get_mem_stats-ok v ds (ground arith) in
      ((d, read_stats stats) ∷ ms, ground arith)
]

exits : (v : Hypervisor) → get_mem_stats v v.domains ≡ exited → memory_scheduler v ≡ exited
unfolding memory_scheduler
exits v h = ground arith

module _ (v : Hypervisor) (ms : List (ℕ × MemStats)) (r : get_mem_stats v v.domains ≡ ok ms) where
  host_exits : memory_scheduler v ≡ exited → v.free_memory < 1024 * 1024
  unfolding memory_scheduler get_host_mem
  host_exits h = ground arith

  exits_host : v.free_memory < 1024 * 1024 → memory_scheduler v ≡ exited
  unfolding memory_scheduler get_host_mem
  exits_host h = ground arith

-- A pass ends the process exactly if some active domain gives no statistics, or the host has less
-- than one free MiB.
pub memory_scheduler-exited_iff :
    (v : Hypervisor)
    → (memory_scheduler v ≡ exited)
      ↔ ((any_fails v v.domains ≡ true) ⊎ (v.free_memory < 1024 * 1024))
memory_scheduler-exited_iff v = elim (Bool-cases (any_fails v v.domains)) [
  | inl bad ↦ (λ h. inl bad, λ h. exits v (get_mem_stats-exited v v.domains bad))
  | inr good ↦
      let (ms, r) = get_mem_stats-ok v v.domains good in
      (
        λ h. inr (host_exits v ms r h),
        λ h. elim h [ inl bad ↦ absurd (ground arith) | inr low ↦ exits_host v ms r low ],
      )
]

-- The row of an active domain, as the first loop sees it.
abbrev IsRow : Hypervisor → ℕ → MemStats → Type 0
IsRow v d m = (stats : List Stat) × (v.memory_stats d ≡ some stats) × (m ≡ read_stats stats)

abbrev AllRows : Hypervisor → List (ℕ × MemStats) → Type 0
AllRows v ms = All (λ (r : ℕ × MemStats). IsRow v r.0 r.1) ms

get_mem_stats-cons :
    (v : Hypervisor) (d : ℕ) (ds : List ℕ) (ms : List (ℕ × MemStats))
    → get_mem_stats v (d ∷ ds) ≡ ok ms
    → (m : MemStats) × IsRow v d m
      × ((rest : List (ℕ × MemStats)) × (get_mem_stats v ds ≡ ok rest) × (ms ≡ (d, m) ∷ rest))
unfolding get_mem_stats
get_mem_stats-cons v d ds ms h = elim (Option-cases (v.memory_stats d)) [
  | inl e ↦ absurd (ground arith)
  | inr (stats, e) ↦ elim (Result-cases (get_mem_stats v ds)) [
    | inl gone ↦ absurd (ground arith)
    | inr (rest, r) ↦ (read_stats stats, (stats, e, refl), (rest, r, ground arith))
  ]
]

get_mem_stats-AllRows :
    (v : Hypervisor) (ds : List ℕ) (ms : List (ℕ × MemStats))
    → get_mem_stats v ds ≡ ok ms
    → AllRows v ms × (length ms ≡ length ds)
get_mem_stats-AllRows v [] ms h =
    subst (λ l. AllRows v l × (length l ≡ 0)) {x = []} (unfold get_mem_stats in ok-injective h)
      (tt, refl)
get_mem_stats-AllRows v (d ∷ ds) ms h =
    let (m, row, (rest, r, e)) = get_mem_stats-cons v d ds ms h in
    let (rows, same) = get_mem_stats-AllRows v ds rest r in
    subst (λ l. AllRows v l × (length l ≡ suc (length ds))) (sym e) ((row, rows), ap suc same)

memory_scheduler-ok :
    (v : Hypervisor) (calls : List SetMemory)
    → memory_scheduler v ≡ ok calls
    → (ms : List (ℕ × MemStats)) × (get_mem_stats v v.domains ≡ ok ms)
      × ((host : ℕ) × (host ≡ v.free_memory / 1024 / 1024)
          × (calls ≡ balance host (classify_all v ms)))
unfolding memory_scheduler get_host_mem
memory_scheduler-ok v calls h = elim (Result-cases (get_mem_stats v v.domains)) [
  | inl gone ↦ absurd (ground arith)
  | inr (ms, r) ↦ (ms, r, (v.free_memory / 1024 / 1024, refl, ground arith))
]

-- The types of the answers: `unsigned long long` for the statistics and the free memory, `unsigned long`
-- for a maximum, and `int` for the number of domains.
pub record IsTyped (v : Hypervisor) : Type 0 where
  pub few : length v.domains < 2 ^ 31
  pub stats :
      (d : ℕ) (stats : List Stat)
      → v.memory_stats d ≡ some stats
      → All (λ (s : Stat). s.val < 2 ^ 64) stats
  pub max : (d : ℕ) → v.max_memory d < 2 ^ 64
  pub host : v.free_memory < 2 ^ 64

store_stat_fits :
    (t : Tag) (v : ℕ) (m : MemStats)
    → v < 2 ^ 64
    → m.balloon_mem < 2 ^ 54
    → (store_stat t v m).balloon_mem < 2 ^ 54
unfolding store_stat
store_stat_fits unused v m h b = omega arith
store_stat_fits available v m h b = omega arith
store_stat_fits actual_balloon v m h b = omega arith
store_stat_fits other v m h b = omega arith

foldl_fits :
    (stats : List Stat) (m : MemStats)
    → All (λ (s : Stat). s.val < 2 ^ 64) stats
    → m.balloon_mem < 2 ^ 54
    → (foldl (λ (k : MemStats) (s : Stat). store_stat s.tag s.val k) m stats).balloon_mem < 2 ^ 54
foldl_fits [] m h b = b
foldl_fits (s ∷ stats) m h b =
    foldl_fits stats (store_stat s.tag s.val m) h.1 (store_stat_fits s.tag s.val m h.0 b)

balloon_fits :
    (stats : List Stat)
    → All (λ (s : Stat). s.val < 2 ^ 64) stats
    → (read_stats stats).balloon_mem < 2 ^ 54
unfolding read_stats
balloon_fits stats h = foldl_fits stats no_stats h (omega arith)

-- the size, in KiB, that takes a unit from a balloon of so many MiB: below one unit the unsigned
-- difference wraps around
abbrev pub one_unit_less : ℕ → ℕ
one_unit_less balloon =
    if ltb balloon 100 then 2 ^ 64 - 1024 * (100 - balloon) else 1024 * balloon - 102400

-- A call takes a unit from a domain with more than 300 MiB unused, or gives one to a domain with
-- less than 100 MiB unused, within the domain's maximum.
abbrev pub Justified : Hypervisor → SetMemory → Type 0
Justified v c =
    (stats : List Stat) × (v.memory_stats c.domain ≡ some stats)
    × (((300 < (read_stats stats).unused_mem)
          × (c.kib ≡ one_unit_less (read_stats stats).balloon_mem))
        ⊎ (((read_stats stats).unused_mem < 100)
            × (c.kib ≡ 1024 * (read_stats stats).balloon_mem + 102400)
            × (c.kib ≤ v.max_memory c.domain)))

abbrev IsVm : Hypervisor → Vm → Type 0
IsVm v x =
    (stats : List Stat) × (v.memory_stats x.domain ≡ some stats)
    × (x.balloon ≡ (read_stats stats).balloon_mem)
    × (x.status ≡ classify (v.max_memory x.domain) (read_stats stats))

classify_all-IsVm :
    (v : Hypervisor) (ms : List (ℕ × MemStats))
    → AllRows v ms
    → All (IsVm v) (classify_all v ms) × (length (classify_all v ms) ≡ length ms)
unfolding classify_all
classify_all-IsVm v [] h = (tt, refl)
classify_all-IsVm v ((d, m) ∷ ms) ((stats, e, q), rows) =
    let (vms, same) = classify_all-IsVm v ms rows in
    (
      ((stats, e, ap (λ (r : MemStats). r.balloon_mem) q, ap (classify (v.max_memory d)) q), vms),
      ap suc same,
    )

module _ {v : Hypervisor} (w : IsTyped v) where
  deflate-Justified : (x : Vm) → IsVm v x → x.status ≡ extra → Justified v (deflate x)
  unfolding classify
  deflate-Justified x (stats, e, b, s) h =
      let fits = balloon_fits stats (w.stats x.domain stats e) in
      (stats, e, inl (ground arith, ground arith))

  inflate-Justified : (x : Vm) → IsVm v x → x.status ≡ lack → Justified v (inflate x)
  unfolding classify
  inflate-Justified x (stats, e, b, s) h =
      let fits = balloon_fits stats (w.stats x.domain stats e) in
      let most = w.max x.domain in (stats, e, inr (ground arith, ground arith, ground arith))

  Serves-Justified :
      {xs : List Vm} {cs : List SetMemory} {i d : ℕ}
      → Serves xs cs i d
      → All (IsVm v) xs
      → All (Justified v) cs
  Serves-Justified done h = tt
  Serves-Justified (skip s r) h = Serves-Justified r h.1
  Serves-Justified (shrink {x} s r) h = (deflate-Justified x h.0 s, Serves-Justified r h.1)
  Serves-Justified (grow {x} s r) h = (inflate-Justified x h.0 s, Serves-Justified r h.1)

  balance-Justified :
      (host : ℕ) (xs : List Vm)
      → host < 2 ^ 63
      → length xs < 2 ^ 31
      → All (IsVm v) xs
      → All (Justified v) (balance host xs)
  balance-Justified host xs small few h = elim (dec_lt (100 * extras xs + host) (100 * lacks xs)) [
    | yes over ↦ Serves-Justified (balance-overcommits host xs few over) h
    | no room ↦ Serves-Justified (balance-Serves host xs few small (omega arith)) h
  ]

  -- Whatever libvirt answers within its types, in a pass that does not end the process each call takes one
  -- unit from a domain that reports more than 300 MiB unused, or gives one to a domain that reports less
  -- than 100 MiB unused, and then stays within that domain's maximum. Where the balloon that is reported,
  -- 0 for a missing statistic, is below one unit, the size of the first kind of call wraps around 64 bits.
  pub memory_scheduler-Justified :
      (calls : List SetMemory) → memory_scheduler v ≡ ok calls → All (Justified v) calls
  memory_scheduler-Justified calls h =
      let (ms, r, (host, free, e)) = memory_scheduler-ok v calls h in
      let (rows, same) = get_mem_stats-AllRows v v.domains ms r in
      let (vms, as_long) = classify_all-IsVm v ms rows in
      let few = w.few in
      let small = w.host in
      subst (All (Justified v)) (sym e)
        (balance-Justified host (classify_all v ms) (omega arith) (omega arith) vms)
