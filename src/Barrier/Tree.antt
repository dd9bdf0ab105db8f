-- ===== src/Barrier/Tree.antt =====
-- project2/omp/gtmp2.c: the tree barrier, for `n` threads that use it again and again. A step of a
-- thread ends at each access to a field that other threads use.
pub mod Invariant
pub mod Chains
pub mod Arrivals
pub mod Wakeups
pub mod Stores
pub mod Safety
pub mod Progress
mod Examples
use advanced_os.Prelude.{
  ℕ, zero, suc, ◌+◌, ◌-◌, ◌*◌, ◌/◌, ◌%◌, ◌<◌, Bool, true, false, not, ◌||◌, ltb, ◌==◌,
  if◌then◌else◌,
}
use advanced_os.Prelude.Family.{at}
use advanced_os.Barrier.Sense.{same}

-- where a thread is in gtmp_barrier
pub data Pc : Type 0 where
  gathering : Pc  -- in the loop on `cn.value`
  resetting : Pc  -- before the store to `cn.value`
  reporting : Pc  -- before the store to the parent's `cn`
  awaiting : Pc  -- in the loop on `parent_sense`
  waking_first : Pc
  waking_second : Pc
  turning : Pc  -- before `sense` is turned
  outside : Pc

-- A node of the barrier with the place of its thread; `entered` and `passed` count the calls of
-- gtmp_barrier begun and ended. A byte of `cn.array` is a Bool.
pub record Node : Type 0 where
  pub sense : Bool
  pub parent_sense : Bool
  pub cn : ℕ → Bool
  pub pc : Pc
  pub entered : ℕ
  pub passed : ℕ

-- a byte of `hc.array`: whether thread `i` has a child with number `k`
abbrev pub hc : ℕ → ℕ → ℕ → Bool
hc n i k = ltb (i * 4 + 1 + k) n

unfoldable pub gtmp_init : ℕ → ℕ → Node
gtmp_init num_threads i = record {
  sense = true;
  parent_sense = false;
  cn = hc num_threads i;
  pc = outside;
  entered = 0;
  passed = 0;
}

-- `cn.value`, which is not 0 when one of its four bytes is not
abbrev pub some_child : (ℕ → Bool) → Bool
some_child cn = cn 0 || cn 1 || cn 2 || cn 3

-- `*(node->parent_ptr) = 0` by thread `i`
unfoldable pub report : ℕ → (ℕ → Node) → ℕ → Node
report i f =
    let parent = f ((i - 1) / 4) in
    at f ((i - 1) / 4) (record parent { cn = at parent.cn ((i - 1) % 4) false })

-- `*(node->wakeup_ptrs[j]) = sense` for the thread `child`, if there is one
unfoldable pub wake : ℕ → ℕ → Bool → (ℕ → Node) → ℕ → Node
wake n child sense f =
    if ltb child n then at f child (record (f child) { parent_sense = sense }) else f

-- The step of thread `i` from the place `pc`.
unfoldable pub step_at : ℕ → ℕ → (ℕ → Node) → Pc → ℕ → Node
unfolding report wake
step_at n i f outside = at f i (record (f i) { pc = gathering; entered = (f i).entered + 1 })
step_at n i f gathering =
    if some_child (f i).cn then f else at f i (record (f i) { pc = resetting })
step_at n i f resetting =
    at f i (record (f i) { cn = hc n i; pc = if i == 0 then waking_first else reporting })
step_at n i f reporting = report i (at f i (record (f i) { pc = awaiting }))
step_at n i f awaiting =
    if same (f i).parent_sense (f i).sense then at f i (record (f i) { pc = waking_first }) else f
step_at n i f waking_first =
    wake n (i * 2 + 1) (f i).sense (at f i (record (f i) { pc = waking_second }))
step_at n i f waking_second =
    wake n (i * 2 + 2) (f i).sense (at f i (record (f i) { pc = turning }))
step_at n i f turning =
    at f i (record (f i) { sense = not (f i).sense; pc = outside; passed = (f i).passed + 1 })

unfoldable pub gtmp_barrier : ℕ → ℕ → (ℕ → Node) → ℕ → Node
unfolding step_at
gtmp_barrier n i f = step_at n i f (f i).pc

-- what `n` threads do in any order
pub data Reach (n : ℕ) : (ℕ → Node) → Type 0 where
  begin : Reach n (gtmp_init n)
  next : {f : ℕ → Node} (i : ℕ) → i < n → Reach n f → Reach n (gtmp_barrier n i f)
