-- ===== src/Vcpu/Pass/Times.antt =====
-- The array of CPU times over a pass of CPUScheduler, and what libvirt's answers have in common.
use advanced_os.Prelude.{
  ℕ, zero, suc, ◌+◌, ◌<◌, ◌≤◌, ◌≡◌, refl, ap, sym, subst, ◌∙◌, Option, none, some, List, [], ◌∷◌,
  ◌==◌, length, get_or, set, All, arith, Bool-cases, Option-cases, inl, inr, length-set,
  get_or-set_self, get_or-set_ne,
}
use mathlib.Core.Option.{some-injective}
use advanced_os.Vcpu.Doubles.{Doubles}
use advanced_os.Vcpu.Usages.{Hypervisor, get_vm_cpu_times, get_cpu_mapping}
use advanced_os.Vcpu.Pass.{store_times, with_mapping, with_times, cpu_scheduler}

store_times-before :
    (i k : ℕ) (times cpu_times : List ℕ)
    → k < i
    → get_or (store_times i times cpu_times) k 0 ≡ get_or cpu_times k 0
unfolding store_times
store_times-before i k [] ts h = refl
store_times-before i k (t ∷ times) ts h =
    store_times-before (i + 1) k times (set ts i t) (omega arith)
    ∙ get_or-set_ne ts i k t 0 (λ e. omega arith)

store_times-at :
    (i k : ℕ) (times cpu_times : List ℕ)
    → k < length times
    → i + length times ≤ length cpu_times
    → get_or (store_times i times cpu_times) (i + k) 0 ≡ get_or times k 0
unfolding store_times
store_times-at i k [] ts h le = absurd (omega arith)
store_times-at i zero (t ∷ times) ts h le =
    ap (λ j. get_or (store_times (i + 1) times (set ts i t)) j 0) {x = i + 0} {y = i} (omega arith)
    ∙ store_times-before (i + 1) i times (set ts i t) (omega arith)
    ∙ get_or-set_self ts i t 0 (omega arith)
store_times-at i (suc k) (t ∷ times) ts h le =
    ap (λ j. get_or (store_times (i + 1) times (set ts i t)) j 0) {x = i + suc k} {y = i + 1 + k}
      (omega arith)
    ∙ store_times-at (i + 1) k times (set ts i t) (omega arith) (omega (arith, length-set ts i t))

module _ (D : Doubles) (hv : Hypervisor) (n_host_cpus interval : ℕ) (cpu_times : List ℕ) where
  stored_mapping :
      (times : List ℕ) (m : Option (List ℕ))
      → (with_mapping D hv n_host_cpus interval cpu_times times m).cpu_times
        ≡ store_times 0 times cpu_times
  unfolding with_mapping
  stored_mapping times none = refl
  stored_mapping times (some mapping) = refl

  stored :
      (times : List ℕ)
      → get_vm_cpu_times hv hv.domains ≡ some times
      → (cpu_scheduler D hv n_host_cpus interval cpu_times).cpu_times
        ≡ store_times 0 times cpu_times
  unfolding cpu_scheduler with_times
  stored times e =
      ap (λ t. (with_times D hv n_host_cpus interval cpu_times t).cpu_times) e
      ∙ elim (Bool-cases (get_or cpu_times 0 0 == 0)) [
        | inl first ↦ rw first refl
        | inr later ↦ rw later (stored_mapping times (get_cpu_mapping hv hv.domains))
      ]

  -- Once the CPU times have been got, the pass leaves each VM's current time in the array, whether
  -- it pins or not, as long as the array has room for the VMs.
  pub cpu_scheduler-records :
      (times : List ℕ) (vm : ℕ)
      → get_vm_cpu_times hv hv.domains ≡ some times
      → length times ≤ length cpu_times
      → vm < length times
      → get_or (cpu_scheduler D hv n_host_cpus interval cpu_times).cpu_times vm 0
        ≡ get_or times vm 0
  cpu_scheduler-records times vm e room lt =
      ap (λ l. get_or l vm 0) (stored times e)
      ∙ ap (λ j. get_or (store_times 0 times cpu_times) j 0) {x = vm} {y = 0 + vm} (omega arith)
      ∙ store_times-at 0 vm times cpu_times lt (omega arith)

pub get_cpu_mapping-inside :
    (hv : Hypervisor) (n : ℕ) (ds mapping : List ℕ)
    → ((d p : ℕ) → hv.vcpu_cpu d ≡ some p → p < n)
    → get_cpu_mapping hv ds ≡ some mapping
    → All (λ (p : ℕ). p < n) mapping × (length mapping ≡ length ds)
unfolding get_cpu_mapping
get_cpu_mapping-inside hv n [] mapping h e =
    subst (λ m. All (λ (p : ℕ). p < n) m × (length m ≡ 0)) (some-injective _ _ e) (tt, refl)
get_cpu_mapping-inside hv n (d ∷ ds) mapping h e = elim (Option-cases (hv.vcpu_cpu d)) [
  | inl bad ↦ absurd (ground arith)
  | inr (p, at_p) ↦ elim (Option-cases (get_cpu_mapping hv ds)) [
    | inl bad ↦ absurd (ground arith)
    | inr (ps, at_ps) ↦
        let (inside, size) = get_cpu_mapping-inside hv n ds ps h at_ps in
        subst (λ m. All (λ (q : ℕ). q < n) m × (length m ≡ suc (length ds))) {x = p ∷ ps}
          {y = mapping} (some-injective _ _ (sym (rw (at_p, at_ps) refl) ∙ e))
          ((h d p at_p, inside), ap suc size)
  ]
]
