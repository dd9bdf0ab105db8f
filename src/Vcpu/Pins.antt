-- ===== src/Vcpu/Pins.antt =====
-- `pin_vm_to_pcpu` of project1-1/cpu/src/vcpu_scheduler.c: the bit map of a pin.
use advanced_os.Prelude.{
  ℕ, zero, suc, ◌+◌, ◌*◌, ◌/◌, ◌%◌, ◌^◌, ◌<◌, ◌≡◌, refl, sym, ap, ◌∙◌, List, ◌==◌, if◌then◌else◌,
  get_or, set, replicate, arith, length-replicate, get_or-set_self, get_or-set_ne, ==_iff,
  ℕ_discrete, all_below, all_below_lem,
}

-- VIR_CPU_MAPLEN
unfoldable pub cpu_map_len : ℕ → ℕ
cpu_map_len n_host_cpus = (n_host_cpus + 7) / 8

-- The map of `pin_vm_to_pcpu`: one byte for eight pCPUs.
unfoldable pub cpumaps : ℕ → ℕ → List ℕ
unfolding cpu_map_len
cpumaps n_host_cpus p_cpu =
    set (replicate (cpu_map_len n_host_cpus) 0) (p_cpu / 8) (2 ^ (p_cpu % 8))

-- bit `k` of a map of bytes
abbrev pub bit : List ℕ → ℕ → ℕ
bit maps k = get_or maps (k / 8) 0 / 2 ^ (k % 8) % 2

get_or-replicate : (n i : ℕ) → get_or {A = ℕ} (replicate n 0) i 0 ≡ 0
get_or-replicate zero i = refl
get_or-replicate (suc n) zero = refl
get_or-replicate (suc n) (suc i) = get_or-replicate n i

-- bit `b` of two to the power `a`, in a byte
power_bit : (a b : ℕ) → a < 8 → b < 8 → 2 ^ a / 2 ^ b % 2 ≡ (if b == a then 1 else 0)
power_bit a b h k = (==_iff (2 ^ a / 2 ^ b % 2) (if b == a then 1 else 0)).0 (
    all_below_lem 8 (λ y. (2 ^ a / 2 ^ y % 2) == (if y == a then 1 else 0))
      (all_below_lem 8 (λ x. all_below 8 (λ y. (2 ^ x / 2 ^ y % 2) == (if y == x then 1 else 0)))
        refl a h)
      b k)

zero_bit : (b : ℕ) → b < 8 → 0 / 2 ^ b % 2 ≡ 0
zero_bit b h = (==_iff (0 / 2 ^ b % 2) 0).0 (all_below_lem 8 (λ y. (0 / 2 ^ y % 2) == 0) refl b h)

-- Among the bits of all its bytes, the map of a pin to a pCPU that exists has exactly that of the
-- pCPU.
pub cpumaps-bit :
    (n_host_cpus p k : ℕ)
    → p < n_host_cpus
    → k < 8 * cpu_map_len n_host_cpus
    → bit (cpumaps n_host_cpus p) k ≡ (if k == p then 1 else 0)
unfolding cpumaps cpu_map_len
cpumaps-bit n p k h lt = elim (ℕ_discrete (p / 8) (k / 8)) [
  | yes same ↦
      ap (λ i. get_or (cpumaps n p) i 0 / 2 ^ (k % 8) % 2) {x = k / 8} {y = p / 8} (sym same)
      ∙ ap (λ v. v / 2 ^ (k % 8) % 2)
          (get_or-set_self (replicate {A = ℕ} (cpu_map_len n) 0) (p / 8) (2 ^ (p % 8)) 0
            (omega (arith, length-replicate {A = ℕ} (cpu_map_len n) 0)))
      ∙ power_bit (p % 8) (k % 8) (omega arith) (omega arith)
      ∙ ground arith
  | no other ↦
      ap (λ v. v / 2 ^ (k % 8) % 2)
        (get_or-set_ne (replicate {A = ℕ} (cpu_map_len n) 0) (p / 8) (k / 8) (2 ^ (p % 8)) 0 other
          ∙ get_or-replicate (cpu_map_len n) (k / 8))
      ∙ zero_bit (k % 8) (omega arith)
      ∙ ground arith
]
