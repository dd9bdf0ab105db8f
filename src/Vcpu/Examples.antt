-- ===== src/Vcpu/Examples.antt =====
-- The scheduler with whole numbers in place of doubles: tests, and the theorems at their values.
use advanced_os.Prelude.{
  ℕ, zero, suc, ◌+◌, ◌-◌, ◌*◌, ◌/◌, ◌<◌, ◌≡◌, refl, true, some, List, [], ◌∷◌, ltb, if◌then◌else◌,
  replicate, All, arith,
}
use mathlib.Core.List.{Perm}
use advanced_os.Vcpu.Doubles.{Doubles, IsOrdered}
use advanced_os.Vcpu.Usages.{
  Hypervisor, get_vm_cpu_times, get_cpu_mapping, calculate_std_dev, calculate_pcpu_workload,
  calculate_vm_cpu_usages, sort_usages,
}
use advanced_os.Vcpu.Pins.{cpumaps}
use advanced_os.Vcpu.Placement.{Pin, place_few, place_many}
use advanced_os.Vcpu.Placement.Many.{vms}
use advanced_os.Vcpu.Placement.Each.{from}
use advanced_os.Vcpu.Placement.Few.{free_from, each, place_few-collision}
use advanced_os.Vcpu.Pass.{place, cpu_scheduler}
use advanced_os.Vcpu.Pass.Pinning.{place-each_once}

-- the integer part of a square root, by search from `n` down
abbrev root_from : ℕ → ℕ → ℕ
root_from zero x = 0
root_from (suc n) x = let less = root_from n x in if ltb x (suc n * suc n) then less else suc n

abbrev whole : Doubles
whole = record {
  Double = ℕ;
  of_nat = λ n. n;
  neg = λ a. 0;
  add = λ a b. a + b;
  sub = λ a b. if ltb a b then b - a else a - b;
  mul = λ a b. a * b;
  div = λ a b. a / b;
  sqrt = λ a. root_from 100 a;
  max = 1000000;
  lt = ltb;
}

whole-IsOrdered : IsOrdered whole
whole-IsOrdered = record { irrefl = λ a. ground arith; trans = λ a b c h k. ground arith }

-- three VMs, all of them on pCPU 1 of two
abbrev three_vms : Hypervisor
three_vms = record {
  domains = 70 ∷ 71 ∷ 72 ∷ [];
  n_params = λ d. some 1;
  cpu_stats = λ d n. some (some (1000000000 * (d - 68)));
  vcpu_cpu = λ d. some 1;
  pins = λ d maps. true;
}

abbrev earlier : List ℕ
earlier = 1000000000 ∷ 1000000000 ∷ 1000000000 ∷ replicate 29 0

abbrev later : List ℕ
later = 2000000000 ∷ 3000000000 ∷ 4000000000 ∷ []

-- The busiest VM stays on pCPU 1, the next moves to pCPU 0, the last goes where less is done.
cpu_scheduler_lem :
    (cpu_scheduler whole three_vms 2 1 earlier).calls
    ≡ record { domain = 72; maps = 2 ∷ [] }
      ∷ record { domain = 71; maps = 1 ∷ [] }
      ∷ record { domain = 70; maps = 1 ∷ [] }
      ∷ []
unfolding cpu_scheduler get_vm_cpu_times get_cpu_mapping calculate_std_dev calculate_pcpu_workload
    calculate_vm_cpu_usages place_many sort_usages cpumaps
cpu_scheduler_lem = refl

place-each_once_example :
    Perm
      (vms (place whole 2 (1 ∷ 1 ∷ 1 ∷ []) (calculate_vm_cpu_usages whole earlier 1 0 later)))
      (from 0 later)
    × All
        (λ (q : Pin). q.1 < 2)
        (place whole 2 (1 ∷ 1 ∷ 1 ∷ []) (calculate_vm_cpu_usages whole earlier 1 0 later))
place-each_once_example =
    place-each_once whole 2 1 earlier later (1 ∷ 1 ∷ 1 ∷ []) (omega arith) (omega arith)
      (omega arith, (omega arith, (omega arith, tt)))

place_few-collision_example :
    place_few 2 (1 ∷ 3 ∷ []) (0 ∷ 1 ∷ 0 ∷ 0 ∷ []) ≡ each 2 (free_from 0 (0 ∷ 1 ∷ 0 ∷ 0 ∷ []))
place_few-collision_example =
    place_few-collision 2 1 (3 ∷ []) (0 ∷ 1 ∷ 0 ∷ 0 ∷ []) (λ e. omega arith) (λ e. omega arith)
      (omega arith, tt)
