-- ===== src/Vcpu/Pass.antt =====
-- CPUScheduler of project1-1/cpu/src/vcpu_scheduler.c as a whole: one pass, with the pins it asks
-- of libvirt.
pub mod Times
pub mod Pinning
use advanced_os.Prelude.{
  ℕ, zero, suc, ◌+◌, Bool, true, false, Option, none, some, List, [], ◌∷◌, ◌++◌, ◌==◌, leb,
  if◌then◌else◌, length, get_or, set, replicate,
}
use advanced_os.Vcpu.Doubles.{Doubles}
use advanced_os.Vcpu.Usages.{
  Hypervisor, get_vm_cpu_times, get_cpu_mapping, Usage, calculate_vm_cpu_usages,
  calculate_pcpu_workload, calculate_std_dev, sort_usages,
}
use advanced_os.Vcpu.Pins.{cpumaps}
use advanced_os.Vcpu.Placement.{Pin, place_many, place_few}

-- a call of virDomainPinVcpu
pub record PinVcpu : Type 0 where
  pub domain : ℕ
  pub maps : List ℕ

-- The array of the times behind the pass, the pins asked for, and whether the process goes on.
pub record Pass : Type 0 where
  pub cpu_times : List ℕ
  pub calls : List PinVcpu
  pub exits : Bool

-- The pins in order; one that fails ends the process.
unfoldable pub pin_all : Hypervisor → ℕ → List Pin → List PinVcpu × Bool
pin_all hv n [] = ([], false)
pin_all hv n ((vm, p) ∷ pins) =
    let domain = get_or hv.domains vm 0 in
    let (calls, exits) = pin_all hv n pins in
    let call : PinVcpu = record { domain = domain; maps = cpumaps n p } in
    if hv.pins domain (cpumaps n p) then (call ∷ calls, exits) else (call ∷ [], true)

-- `cpu_times[i] = current_cpu_times[i]` for each VM, from the index `i` on
unfoldable pub store_times : ℕ → List ℕ → List ℕ → List ℕ
store_times i [] cpu_times = cpu_times
store_times i (now ∷ times) cpu_times = store_times (i + 1) times (set cpu_times i now)

module _ (D : Doubles) where
  unfoldable pub place : ℕ → List ℕ → List (Usage D.Double) → List Pin
  place n_host_cpus mapping usages =
      if leb (length mapping) n_host_cpus
      then place_few 0 mapping (replicate n_host_cpus 0)
      else (place_many D n_host_cpus mapping (sort_usages D usages)).pinned

  -- The part behind the usages.
  unfoldable pub rebalance : Hypervisor → ℕ → List (Usage D.Double) → List ℕ → List PinVcpu × Bool
  unfolding place pin_all
  rebalance hv n_host_cpus usages mapping =
      let workloads =
        calculate_pcpu_workload D mapping usages (replicate n_host_cpus (D.of_nat 0)) in
      if D.lt (D.of_nat 5) (calculate_std_dev D workloads)
      then pin_all hv n_host_cpus (place n_host_cpus mapping usages)
      else ([], false)

  -- With the mapping of the VMs to pCPUs, or none where it cannot be got.
  unfoldable pub with_mapping : Hypervisor → ℕ → ℕ → List ℕ → List ℕ → Option (List ℕ) → Pass
  unfolding rebalance store_times
  with_mapping hv n_host_cpus interval cpu_times times none = record {
    cpu_times = store_times 0 times cpu_times;
    calls = [];
    exits = true;
  }
  with_mapping hv n_host_cpus interval cpu_times times (some mapping) =
      let usages = calculate_vm_cpu_usages D cpu_times interval 0 times in
      let (calls, exits) = rebalance hv n_host_cpus usages mapping in
      record { cpu_times = store_times 0 times cpu_times; calls = calls; exits = exits }

  -- With the current times. The first pass, known by a time of 0, only stores them.
  unfoldable pub with_times : Hypervisor → ℕ → ℕ → List ℕ → Option (List ℕ) → Pass
  unfolding with_mapping
  with_times hv n_host_cpus interval cpu_times none = record {
    cpu_times = cpu_times;
    calls = [];
    exits = true;
  }
  with_times hv n_host_cpus interval cpu_times (some times) =
      if get_or cpu_times 0 0 == 0
      then record { cpu_times = store_times 0 times cpu_times; calls = []; exits = false }
      else with_mapping hv n_host_cpus interval cpu_times times (get_cpu_mapping hv hv.domains)

  -- One call of CPUScheduler. The array of times has room for 32 VMs, and no pass checks that.
  unfoldable pub cpu_scheduler : Hypervisor → ℕ → ℕ → List ℕ → Pass
  unfolding with_times
  cpu_scheduler hv n_host_cpus interval cpu_times =
      with_times hv n_host_cpus interval cpu_times (get_vm_cpu_times hv hv.domains)
