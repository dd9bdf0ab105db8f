-- ===== src/Memory/Examples.antt =====
-- The coordinator on a host with three domains: tests, and the theorems at its values.
use advanced_os.Prelude.{
  ℕ, zero, suc, ◌+◌, ◌*◌, ◌-◌, ◌^◌, subst, ◌≤◌, ◌<◌, ◌≡◌, refl, ◌⊎◌, some, List, [], ◌∷◌, arith,
  All,
}
use mathlib.Core.Option.{some-injective}
use advanced_os.Memory.{
  extra, lack, Vm, SetMemory, Hypervisor, Stat, unused, actual_balloon, other, ok, balance,
  memory_scheduler, host_mem_low,
}
use advanced_os.Memory.Calls.{lacks, extras, Serves}
use advanced_os.Memory.Balance.{
  total_before, total_after, IsSane, intended, balance-Serves, balance-overcommits,
  balance-host_reserve,
}
use advanced_os.Memory.Pass.{IsTyped, Justified, memory_scheduler-Justified}

-- domain 0 has 500 MiB to spare, domain 1 lacks memory, the others have just enough
stats_of : ℕ → List Stat
stats_of zero =
    record { tag = actual_balloon; val = 1024 * 900 }
    ∷ record { tag = other; val = 7 }
    ∷ record { tag = unused; val = 1024 * 500 }
    ∷ []
stats_of (suc zero) =
    record { tag = unused; val = 1024 * 50 }
    ∷ record { tag = actual_balloon; val = 1024 * 512 }
    ∷ []
stats_of (suc (suc d)) =
    record { tag = unused; val = 1024 * 200 }
    ∷ record { tag = actual_balloon; val = 1024 * 512 }
    ∷ []

abbrev three_vms : Hypervisor
three_vms = record {
  domains = 0 ∷ 1 ∷ 2 ∷ [];
  memory_stats = λ d. some (stats_of d);
  max_memory = λ d. 1024 * 2048;
  free_memory = 1024 * 1024 * 1000;
}

abbrev three_calls : List SetMemory
three_calls = record { domain = 0; kib = 1024 * 800 } ∷ record { domain = 1; kib = 1024 * 612 } ∷ []

moves_a_unit : memory_scheduler three_vms ≡ ok three_calls
unfolding memory_scheduler stats_of
moves_a_unit = refl

typed_of : (d : ℕ) → All (λ (s : Stat). s.val < 2 ^ 64) (stats_of d)
unfolding stats_of
typed_of zero = ground arith
typed_of (suc zero) = ground arith
typed_of (suc (suc d)) = ground arith

three_vms-IsTyped : IsTyped three_vms
three_vms-IsTyped = record {
  few = omega arith;
  stats = λ d s e. subst (All (λ (s : Stat). s.val < 2 ^ 64)) (some-injective _ _ e) (typed_of d);
  max = λ d. omega arith;
  host = omega arith;
}

memory_scheduler-Justified_example : All (Justified three_vms) three_calls
memory_scheduler-Justified_example =
    memory_scheduler-Justified three_vms-IsTyped three_calls moves_a_unit

abbrev no_host : Hypervisor
no_host = record three_vms { free_memory = 1024 * 1024 - 1 }

abbrev in_need : ℕ → Vm
in_need d = record { domain = d; balloon = 512; status = lack }

abbrev to_spare : ℕ → Vm
to_spare d = record { domain = d; balloon = 900; status = extra }

-- two in need, one with memory to spare
abbrev short_vms : List Vm
short_vms = in_need 0 ∷ to_spare 1 ∷ in_need 2 ∷ []

one_of_two :
    balance 250 short_vms
    ≡ record { domain = 0; kib = 1024 * 612 } ∷ record { domain = 1; kib = 1024 * 800 } ∷ []
unfolding balance
one_of_two = refl

balance-Serves_example :
    Serves short_vms
      (balance 250 short_vms)
      (intended 250 (lacks short_vms) (extras short_vms))
      (extras short_vms)
unfolding lacks extras
balance-Serves_example = balance-Serves 250 short_vms (omega arith) (omega arith) (omega arith)

balance-host_reserve_example :
    (total_after (balance 250 short_vms) short_vms ≤ total_before short_vms)
    ⊎ (total_after (balance 250 short_vms) short_vms + 1024 * host_mem_low
        ≤ total_before short_vms + 1024 * 250)
unfolding lacks extras
balance-host_reserve_example =
    balance-host_reserve 250 short_vms (omega arith) (omega arith) (omega arith) (omega arith)
      (sane_need 0, (sane_spare 1, (sane_need 2, tt)))
  where
    sane_need : (d : ℕ) → IsSane (in_need d)
    sane_need d = record { fits = omega arith; holds = λ e. cc }

    sane_spare : (d : ℕ) → IsSane (to_spare d)
    sane_spare d = record { fits = omega arith; holds = λ e. omega arith }

-- three in need, one with memory to spare, and 50 MiB free on the host
abbrev poor_vms : List Vm
poor_vms = in_need 0 ∷ in_need 1 ∷ to_spare 2 ∷ in_need 3 ∷ []

balance-overcommits_example :
    Serves poor_vms (balance 50 poor_vms) (lacks poor_vms) (extras poor_vms)
unfolding lacks extras
balance-overcommits_example = balance-overcommits 50 poor_vms (omega arith) (omega arith)
