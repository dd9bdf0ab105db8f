-- ===== src/Vcpu/Pass/Pinning.antt =====
-- What a pass of CPUScheduler asks of libvirt: each VM's pCPU, and the map of each call.
use advanced_os.Prelude.{
  ℕ, zero, suc, ◌<◌, ◌≡◌, refl, sym, subst, Option, none, some, List, [], ◌∷◌, ◌==◌, leb, length,
  get_or, take, replicate, All, Bool-cases, inl, inr, lt→not_leb, length-replicate,
}
use mathlib.Core.List.{Perm}
use advanced_os.Vcpu.Doubles.{Doubles}
use advanced_os.Vcpu.Usages.{
  Hypervisor, get_vm_cpu_times, get_cpu_mapping, Usage, calculate_vm_cpu_usages,
  calculate_pcpu_workload, calculate_std_dev, sort_usages,
}
use advanced_os.Vcpu.Pins.{cpumaps}
use advanced_os.Vcpu.Placement.{Pin, place_many, place_few}
use advanced_os.Vcpu.Placement.Many.{vms, ids, IsHome, Placed, place_many-Placed}
use advanced_os.Vcpu.Placement.Each.{from, ids-sort_usages, ids-calculate_vm_cpu_usages}
use advanced_os.Vcpu.Placement.Few.{place_few-inside}
use advanced_os.Vcpu.Pass.{
  PinVcpu, pin_all, place, rebalance, with_mapping, with_times, cpu_scheduler,
}
use advanced_os.Vcpu.Pass.Times.{get_cpu_mapping-inside}

get_or-inside :
    (n : ℕ) (mapping : List ℕ) (vm : ℕ)
    → 0 < n
    → All (λ (p : ℕ). p < n) mapping
    → get_or mapping vm 0 < n
get_or-inside n [] vm pos h = pos
get_or-inside n (p ∷ mapping) zero pos h = h.0
get_or-inside n (p ∷ mapping) (suc vm) pos h = get_or-inside n mapping vm pos h.1

All-of {ℓ κ} : {A : Type ℓ} (P : A → Type κ) (xs : List A) → ((a : A) → P a) → All P xs
All-of P [] h = tt
All-of P (x ∷ xs) h = (h x, All-of P xs h)

module _ (D : Doubles) where
  many-Placed :
      (n : ℕ) (mapping : List ℕ) (usages : List (Usage D.Double))
      → 0 < n
      → All (λ (p : ℕ). p < n) mapping
      → Placed D n (place_many D n mapping (sort_usages D usages)) (sort_usages D usages)
  many-Placed n mapping usages pos inside =
      place_many-Placed D n mapping (sort_usages D usages) pos (
        All-of (IsHome D n mapping) (take n (sort_usages D usages))
          (λ u. get_or-inside n mapping u.vm_id pos inside))

  -- With more VMs than pCPUs, of which there is one at least, and a mapping to pCPUs that exist, each
  -- VM is pinned exactly once, and to a pCPU that exists.
  pub place-each_once :
      (n_host_cpus interval : ℕ) (before times mapping : List ℕ)
      → 0 < n_host_cpus
      → n_host_cpus < length mapping
      → All (λ (p : ℕ). p < n_host_cpus) mapping
      → let pins =
          place D n_host_cpus mapping (calculate_vm_cpu_usages D before interval 0 times) in
        Perm (vms pins) (from 0 times) × All (λ (q : Pin). q.1 < n_host_cpus) pins
  unfolding place
  place-each_once n interval before times mapping pos more inside =
      let us = calculate_vm_cpu_usages D before interval 0 times in
      let h = many-Placed n mapping us pos inside in
      rw (lt→not_leb (length mapping) n more) (
        subst (λ l. Perm l (from 0 times)) (sym h.pinned_vms)
            (subst (Perm (ids D (sort_usages D us)))
              (ids-calculate_vm_cpu_usages D before interval 0 times) (ids-sort_usages D us)),
        h.inside,
      )

  place-inside :
      (n : ℕ) (mapping : List ℕ) (usages : List (Usage D.Double))
      → 0 < n
      → All (λ (p : ℕ). p < n) mapping
      → All (λ (q : Pin). q.1 < n) (place D n mapping usages)
  unfolding place
  place-inside n mapping usages pos inside = elim (Bool-cases (leb (length mapping) n)) [
    | inl few ↦ rw few (
        subst (λ m. All (λ (q : Pin). q.1 < m) (place_few 0 mapping (replicate n 0)))
          (length-replicate n 0) (place_few-inside 0 mapping (replicate n 0)))
    | inr many ↦ rw many (many-Placed n mapping usages pos inside).inside
  ]

  -- a call that names a pCPU that exists, by the map with its bit alone
  abbrev pub OnePcpu : ℕ → PinVcpu → Type 0
  OnePcpu n c = (p : ℕ) × (p < n) × (c.maps ≡ cpumaps n p)

  pin_all-OnePcpu :
      (hv : Hypervisor) (n : ℕ) (pins : List Pin)
      → All (λ (q : Pin). q.1 < n) pins
      → All (OnePcpu n) (pin_all hv n pins).0
  unfolding pin_all
  pin_all-OnePcpu hv n [] h = tt
  pin_all-OnePcpu hv n ((vm, p) ∷ pins) h =
      elim (Bool-cases (hv.pins (get_or hv.domains vm 0) (cpumaps n p))) [
        | inl good ↦ rw good ((p, h.0, refl), pin_all-OnePcpu hv n pins h.1)
        | inr bad ↦ rw bad ((p, h.0, refl), tt)
      ]

  rebalance-OnePcpu :
      (hv : Hypervisor) (n : ℕ) (usages : List (Usage D.Double)) (mapping : List ℕ)
      → 0 < n
      → All (λ (p : ℕ). p < n) mapping
      → All (OnePcpu n) (rebalance D hv n usages mapping).0
  unfolding rebalance
  rebalance-OnePcpu hv n usages mapping pos inside =
      elim (Bool-cases (
        D.lt (D.of_nat 5) (
          calculate_std_dev D
            (calculate_pcpu_workload D mapping usages (replicate n (D.of_nat 0)))))) [
              | inl off ↦ rw off (
                  pin_all-OnePcpu hv n (place D n mapping usages)
                    (place-inside n mapping usages pos inside))
              | inr even ↦ rw even tt
            ]

  module _ (hv : Hypervisor) (n interval : ℕ) (cpu_times : List ℕ) (pos : 0 < n)
      (known : (d p : ℕ) → hv.vcpu_cpu d ≡ some p → p < n) where
    mapped-OnePcpu :
        (times : List ℕ) (m : Option (List ℕ))
        → ((mapping : List ℕ) → m ≡ some mapping → All (λ (p : ℕ). p < n) mapping)
        → All (OnePcpu n) (with_mapping D hv n interval cpu_times times m).calls
    unfolding with_mapping
    mapped-OnePcpu times none h = tt
    mapped-OnePcpu times (some mapping) h =
        rebalance-OnePcpu hv n (calculate_vm_cpu_usages D cpu_times interval 0 times) mapping pos
          (h mapping refl)

    timed-OnePcpu :
        (times : Option (List ℕ))
        → All (OnePcpu n) (with_times D hv n interval cpu_times times).calls
    unfolding with_times
    timed-OnePcpu none = tt
    timed-OnePcpu (some times) = elim (Bool-cases (get_or cpu_times 0 0 == 0)) [
      | inl first ↦ rw first tt
      | inr later ↦ rw later (
          mapped-OnePcpu times (get_cpu_mapping hv hv.domains)
            (λ mapping e. (get_cpu_mapping-inside hv n hv.domains mapping known e).0))
    ]

    -- Where there is a pCPU and libvirt reports only pCPUs that exist, each pin that a pass asks for
    -- names one of them alone.
    pub cpu_scheduler-OnePcpu : All (OnePcpu n) (cpu_scheduler D hv n interval cpu_times).calls
    unfolding cpu_scheduler
    cpu_scheduler-OnePcpu = timed-OnePcpu (get_vm_cpu_times hv hv.domains)
