-- ===== src/Memory.antt =====
-- project1-1/memory/src/memory_coordinator.c: one pass of the coordinator over the active domains.
-- libvirt is the parameter `Hypervisor`; a pass returns the calls of virDomainSetMemory, in order.
pub mod Calls
pub mod Balance
pub mod Pass
mod Examples
use advanced_os.Prelude.{
  ℕ, ◌+◌, ◌/◌, List, [], ◌∷◌, Option, none, some, ltb, leb, if◌then◌else◌, add_64, sub_64, mul_64,
}
use mathlib.Core.List.{foldl}

abbrev pub unused_mem_low : ℕ
unused_mem_low = 100

abbrev pub unused_mem_high : ℕ
unused_mem_high = 300

abbrev pub mem_alloc_unit : ℕ
mem_alloc_unit = 100

abbrev pub host_mem_low : ℕ
host_mem_low = 200

-- the tags of virDomainMemoryStatStruct that the code tells apart
pub data Tag : Type 0 where
  unused available actual_balloon other : Tag

pub record Stat : Type 0 where
  pub tag : Tag
  pub val : ℕ

-- What libvirt answers: the active domains, and for each its statistics (`none` for a negative
-- length) and its maximum, both in KiB; the host's free memory in bytes.
pub record Hypervisor : Type 0 where
  pub domains : List ℕ
  pub memory_stats : ℕ → Option (List Stat)
  pub max_memory : ℕ → ℕ
  pub free_memory : ℕ

-- `error(str, 1)` ends the process.
pub data Result (A : Type 0) : Type 0 where
  ok : A → Result A
  exited : Result A

infixl 5 ◌>>=◌
abbrev pub ◌>>=◌ : {A B : Type 0} → Result A → (A → Result B) → Result B
ok a >>= f = f a
exited >>= f = exited

-- one row of unused_mems, available_mems and balloon_mems, in MiB
pub record MemStats : Type 0 where
  pub unused_mem : ℕ
  pub available_mem : ℕ
  pub balloon_mem : ℕ

abbrev pub no_stats : MemStats
no_stats = record { unused_mem = 0; available_mem = 0; balloon_mem = 0 }

pub store_stat : Tag → ℕ → MemStats → MemStats
store_stat unused v m = record m { unused_mem = v / 1024 }
store_stat available v m = record m { available_mem = v / 1024 }
store_stat actual_balloon v m = record m { balloon_mem = v / 1024 }
store_stat other v m = m

pub read_stats : List Stat → MemStats
unfolding store_stat
read_stats stats = foldl (λ m s. store_stat s.tag s.val m) no_stats stats

-- each domain with its row
pub get_mem_stats : Hypervisor → List ℕ → Result (List (ℕ × MemStats))
unfolding read_stats
get_mem_stats v [] = ok []
get_mem_stats v (d ∷ ds) = elim (v.memory_stats d) [
  | none ↦ exited
  | some stats ↦ do rest ← get_mem_stats v ds; ok ((d, read_stats stats) ∷ rest)
]

pub get_host_mem : Hypervisor → Result ℕ
get_host_mem v = let ret = v.free_memory / 1024 / 1024 in if leb ret 0 then exited else ok ret

-- 0: have extra memory, 1: lack memory, 2: just enough memory
pub data VmStatus : Type 0 where
  extra lack enough : VmStatus

pub classify : ℕ → MemStats → VmStatus
classify max_memory m =
    if ltb m.unused_mem unused_mem_low
    then if ltb (max_memory / 1024) (add_64 m.balloon_mem mem_alloc_unit) then enough else lack
    else if ltb unused_mem_high m.unused_mem
    then extra
    else enough

-- a domain after the first loop
pub record Vm : Type 0 where
  pub domain : ℕ
  pub balloon : ℕ
  pub status : VmStatus

pub record Tally : Type 0 where
  pub lack_cnt : ℕ
  pub needed : ℕ
  pub avail : ℕ

pub count_vm : VmStatus → Tally → Tally
count_vm extra t = record t { avail = add_64 t.avail mem_alloc_unit }
count_vm lack t = record t { needed = add_64 t.needed mem_alloc_unit; lack_cnt = t.lack_cnt + 1 }
count_vm enough t = t

pub classify_all : Hypervisor → List (ℕ × MemStats) → List Vm
unfolding classify
classify_all v [] = []
classify_all v ((d, m) ∷ ms) =
    record { domain = d; balloon = m.balloon_mem; status = classify (v.max_memory d) m }
    ∷ classify_all v ms

pub tally : List Vm → Tally → Tally
unfolding count_vm
tally [] t = t
tally (x ∷ xs) t = tally xs (count_vm x.status t)

abbrev pub no_tally : Tally
no_tally = record { lack_cnt = 0; needed = 0; avail = 0 }

-- the request to the host: what is available afterwards
pub ask_host : ℕ → Tally → ℕ
ask_host host t =
    if ltb t.avail t.needed
    then if leb host_mem_low (sub_64 host (sub_64 t.needed t.avail)) then t.needed else t.avail
    else t.avail

-- a call of virDomainSetMemory, in KiB
pub record SetMemory : Type 0 where
  pub domain : ℕ
  pub kib : ℕ

abbrev pub deflate : Vm → SetMemory
deflate x = record { domain = x.domain; kib = mul_64 (sub_64 x.balloon mem_alloc_unit) 1024 }

abbrev pub inflate : Vm → SetMemory
inflate x = record { domain = x.domain; kib = mul_64 (add_64 x.balloon mem_alloc_unit) 1024 }

-- One round of the loop when all that is needed is available; `rest` are the later calls.
pub serve : VmStatus → Vm → List SetMemory → List SetMemory
serve extra x rest = deflate x ∷ rest
serve lack x rest = inflate x ∷ rest
serve enough x rest = rest

pub grant_all : List Vm → List SetMemory
unfolding serve
grant_all [] = []
grant_all (x ∷ xs) = serve x.status x (grant_all xs)

-- One round of the loop when it is not: a domain in need is served while `avail` lasts.
pub serve_some : VmStatus → ℕ → Vm → List SetMemory → List SetMemory
serve_some extra avail x rest = deflate x ∷ rest
serve_some lack avail x rest = if ltb 0 avail then inflate x ∷ rest else rest
serve_some enough avail x rest = rest

-- `avail` after the round
pub spend : VmStatus → ℕ → ℕ
spend lack avail = if ltb 0 avail then sub_64 avail mem_alloc_unit else avail
spend _ avail = avail

pub grant_some : ℕ → List Vm → List SetMemory
unfolding serve_some spend
grant_some avail [] = []
grant_some avail (x ∷ xs) = serve_some x.status avail x (grant_some (spend x.status avail) xs)

pub balance : ℕ → List Vm → List SetMemory
unfolding tally ask_host grant_all grant_some
balance host vms =
    let t = tally vms no_tally in
    let avail = ask_host host t in
    if leb t.needed avail
    then grant_all vms
    else if ltb 0 t.lack_cnt
    then grant_some avail vms
    else []

pub memory_scheduler : Hypervisor → Result (List SetMemory)
unfolding get_mem_stats get_host_mem classify_all balance
memory_scheduler v = do
  ms ← get_mem_stats v v.domains
  host ← get_host_mem v
  ok (balance host (classify_all v ms))
