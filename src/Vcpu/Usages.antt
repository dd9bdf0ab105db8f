-- ===== src/Vcpu/Usages.antt =====
-- project1-1/cpu/src/vcpu_scheduler.c: CPU usages and workloads, and their deviation. The arrays
-- over the VMs and over the pCPUs are lists.
use advanced_os.Prelude.{
  ℕ, ◌+◌, ◌*◌, ◌%◌, ◌^◌, Bool, Option, none, some, List, [], ◌∷◌, if◌then◌else◌, ◌>>=◌, length,
  get_or, set, sub_64, mul_64,
}
use advanced_os.Vcpu.Doubles.{Doubles, of_int}

-- libvirt's answers, by domain; `none` where a call fails
pub record Hypervisor : Type 0 where
  pub domains : List ℕ
  pub n_params : ℕ → Option ℕ
  pub cpu_stats : ℕ → ℕ → Option (Option ℕ)  -- the time in the parameters, if it is there
  pub vcpu_cpu : ℕ → Option ℕ  -- the pCPU on which vCPU 0 runs
  pub pins : ℕ → List ℕ → Bool  -- whether virDomainPinVcpu succeeds

-- `error(..., 1)` ends the process; `none` stands for that.
unfoldable pub get_vm_cpu_time : Hypervisor → ℕ → Option ℕ
get_vm_cpu_time hv d = do
  n ← hv.n_params d
  time ← hv.cpu_stats d n
  some (elim time [ none ↦ 0 | some t ↦ t ])

unfoldable pub get_vm_cpu_times : Hypervisor → List ℕ → Option (List ℕ)
unfolding get_vm_cpu_time
get_vm_cpu_times hv [] = some []
get_vm_cpu_times hv (d ∷ ds) = do
  t ← get_vm_cpu_time hv d
  ts ← get_vm_cpu_times hv ds
  some (t ∷ ts)

unfoldable pub get_cpu_mapping : Hypervisor → List ℕ → Option (List ℕ)
get_cpu_mapping hv [] = some []
get_cpu_mapping hv (d ∷ ds) = do p ← hv.vcpu_cpu d; ps ← get_cpu_mapping hv ds; some (p ∷ ps)

-- `VM_CPU_Usage`
pub record Usage (A : Type 0) : Type 0 where
  pub cpu_usage : A
  pub vm_id : ℕ

module _ (D : Doubles) where
  -- The difference and its product wrap around as unsigned long long does; the product of the
  -- interval is an `int`, taken to wrap around too.
  unfoldable pub usage_of : ℕ → ℕ → ℕ → D.Double
  usage_of interval before now =
      D.div (D.of_nat (mul_64 100 (sub_64 now before))) (of_int D (interval * 1000000000 % 2 ^ 32))

  -- `i` is the index of the first of the current times
  unfoldable pub calculate_vm_cpu_usages : List ℕ → ℕ → ℕ → List ℕ → List (Usage D.Double)
  unfolding usage_of
  calculate_vm_cpu_usages cpu_times interval i [] = []
  calculate_vm_cpu_usages cpu_times interval i (now ∷ times) =
      record { cpu_usage = usage_of interval (get_or cpu_times i 0) now; vm_id = i }
      ∷ calculate_vm_cpu_usages cpu_times interval (i + 1) times

  unfoldable pub calculate_pcpu_workload :
      List ℕ → List (Usage D.Double) → List D.Double → List D.Double
  calculate_pcpu_workload mapping [] workloads = workloads
  calculate_pcpu_workload mapping (u ∷ us) workloads =
      let p = get_or mapping u.vm_id 0 in
      calculate_pcpu_workload mapping us
        (set workloads p (D.add (get_or workloads p (D.of_nat 0)) u.cpu_usage))

  unfoldable pub sum_from : D.Double → List D.Double → D.Double
  sum_from sum [] = sum
  sum_from sum (w ∷ ws) = sum_from (D.add sum w) ws

  unfoldable pub squares_from : D.Double → D.Double → List D.Double → D.Double
  squares_from mean sum [] = sum
  squares_from mean sum (w ∷ ws) =
      let diff = D.sub w mean in squares_from mean (D.add sum (D.mul diff diff)) ws

  unfoldable pub calculate_std_dev : List D.Double → D.Double
  unfolding sum_from squares_from
  calculate_std_dev workloads =
      let n = D.of_nat (length workloads) in
      let mean = D.div (sum_from (D.of_nat 0) workloads) n in
      D.sqrt (D.div (squares_from mean (D.of_nat 0) workloads) n)

  -- `qsort` with `cmp_vm_usage`: the greatest usage first, equal ones in their order, as the merge
  -- sort of the C library leaves them.
  unfoldable pub insert_usage : Usage D.Double → List (Usage D.Double) → List (Usage D.Double)
  insert_usage u [] = u ∷ []
  insert_usage u (v ∷ vs) =
      if D.lt u.cpu_usage v.cpu_usage then v ∷ insert_usage u vs else u ∷ v ∷ vs

  unfoldable pub sort_usages : List (Usage D.Double) → List (Usage D.Double)
  unfolding insert_usage
  sort_usages [] = []
  sort_usages (u ∷ us) = insert_usage u (sort_usages us)
