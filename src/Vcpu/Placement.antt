-- ===== src/Vcpu/Placement.antt =====
-- CPUScheduler of project1-1/cpu/src/vcpu_scheduler.c: which VM is pinned to which pCPU.
pub mod Minimum
pub mod Many
pub mod Each
pub mod Few
use advanced_os.Prelude.{
  ℕ, zero, suc, ◌+◌, Bool, true, false, Option, none, some, List, [], ◌∷◌, ◌++◌, ◌==◌,
  if◌then◌else◌, length, get_or, set, replicate, take, drop,
}
use mathlib.Core.List.{foldl}
use advanced_os.Vcpu.Doubles.{Doubles}
use advanced_os.Vcpu.Usages.{Usage}

-- a VM, by its index, and the pCPU it is pinned to
abbrev pub Pin : Type 0
Pin = ℕ × ℕ

-- the first pCPU to which no VM is mapped; 0 stands for none
unfoldable pub first_free : List ℕ → Option ℕ
first_free [] = none
first_free (v ∷ vs) =
    let rest = first_free vs in
    if v == 0 then some 0 else elim rest [ none ↦ none | some j ↦ some (suc j) ]

module _ (D : Doubles) where
  -- the variables of the branch for more VMs than pCPUs
  pub record Placing : Type 0 where
    pub new_mapping : List ℕ
    pub workloads : List D.Double
    pub pinned : List Pin

  unfoldable pub put : Usage D.Double → ℕ → Placing → Placing
  put u p s = record {
    new_mapping = set s.new_mapping p u.vm_id;
    workloads = set s.workloads p u.cpu_usage;
    pinned = s.pinned ++ (u.vm_id, p) ∷ [];
  }

  -- One of the first `n_host_cpus` VMs: it stays on its pCPU, or moves to the first free one.
  unfoldable pub place_one : List ℕ → Placing → Usage D.Double → Placing
  unfolding put first_free
  place_one mapping s u =
      let home = get_or mapping u.vm_id 0 in
      if get_or s.new_mapping home 0 == 0
      then put u home s
      else elim (first_free s.new_mapping) [ none ↦ s | some j ↦ put u j s ]

  -- `j` is the index of the first of the workloads
  unfoldable pub min_from : ℕ → List D.Double → D.Double → ℕ → ℕ
  min_from j [] min_wl min_wl_p_cpu = min_wl_p_cpu
  min_from j (w ∷ ws) min_wl min_wl_p_cpu =
      let (least, p) = if D.lt w min_wl then (w, j) else (min_wl, min_wl_p_cpu) in
      min_from (j + 1) ws least p

  unfoldable pub find_min : List D.Double → ℕ
  unfolding min_from
  find_min workloads = min_from 0 workloads D.max 0

  -- One of the others: it goes to the pCPU with the least workload.
  unfoldable pub place_min : Placing → Usage D.Double → Placing
  unfolding find_min
  place_min s u =
      let p = find_min s.workloads in
      record s {
        workloads = set s.workloads p (D.add (get_or s.workloads p (D.of_nat 0)) u.cpu_usage);
        pinned = s.pinned ++ (u.vm_id, p) ∷ [];
      }

  abbrev pub no_placing : ℕ → Placing
  no_placing n = record {
    new_mapping = replicate n 0;
    workloads = replicate n (D.of_nat 0);
    pinned = [];
  }

  -- `n_vms > n_host_cpus`, for the sorted usages
  unfoldable pub place_many : ℕ → List ℕ → List (Usage D.Double) → Placing
  unfolding place_one place_min
  place_many n_host_cpus mapping usages =
      foldl place_min (foldl (place_one mapping) (no_placing n_host_cpus) (take n_host_cpus usages))
        (drop n_host_cpus usages)

-- `n_vms <= n_host_cpus`. The inner loop has no `break`: it goes on behind the first free pCPU.
-- `j` is the index of the first entry.
unfoldable pub fill : ℕ → ℕ → List ℕ → List ℕ × List Pin
fill i j [] = ([], [])
fill i j (v ∷ vs) =
    let (vs', pins) = fill i (j + 1) vs in
    if v == 0 then (i ∷ vs', (i, j) ∷ pins) else (v ∷ vs', pins)

-- `i` is the index of the VM whose pCPU comes first
unfoldable pub place_few : ℕ → List ℕ → List ℕ → List Pin
unfolding fill
place_few i [] new_mapping = []
place_few i (home ∷ mapping) new_mapping =
    let (next, pins) =
      if get_or new_mapping home 0 == 0
      then (set new_mapping home i, [])
      else fill i 0 new_mapping in
    pins ++ place_few (i + 1) mapping next
