-- ===== src/Barrier/Sense.antt =====
-- project2/omp/gtmp1.c: the sense-reversing barrier, for `n` threads that use it again and again.
-- A step of a thread ends at each access to the shared variables.
pub mod Invariant
pub mod Moves
pub mod Steps
pub mod Safety
use advanced_os.Prelude.{ℕ, zero, suc, ◌+◌, ◌-◌, ◌<◌, Bool, true, false, not, ◌==◌, if◌then◌else◌}
use advanced_os.Prelude.Family.{at}

-- where a thread is, with its `my_sense`
pub data Pc : Type 0 where
  outside : Pc
  sensed : Bool → Pc  -- before the fetch-and-sub
  last : Bool → Pc  -- it was the last, before the store to `count`
  reset : Bool → Pc  -- before the store to `sense`
  waiting : Bool → Pc

-- `entered` and `passed` count the calls of gtmp_barrier begun and ended.
pub record Thread : Type 0 where
  pub pc : Pc
  pub entered : ℕ
  pub passed : ℕ

pub record Shared : Type 0 where
  pub count : ℕ
  pub sense : Bool

-- `a == b` of `bool`
abbrev pub same : Bool → Bool → Bool
same true b = b
same false b = not b

-- The step from the place `pc`. That `count` is 0 at a fetch-and-sub, where it would become
-- negative, does not happen.
unfoldable pub step_at : ℕ → Shared → Thread → Pc → Shared × Thread
step_at num_threads b t outside =
    (b, record t { pc = sensed (not b.sense); entered = t.entered + 1 })
step_at num_threads b t (sensed my_sense) = (
  record b { count = b.count - 1 },
  record t { pc = if b.count == 1 then last my_sense else waiting my_sense },
)
step_at num_threads b t (last my_sense) =
    (record b { count = num_threads }, record t { pc = reset my_sense })
step_at num_threads b t (reset my_sense) =
    (record b { sense = my_sense }, record t { pc = outside; passed = t.passed + 1 })
step_at num_threads b t (waiting my_sense) =
    (b, if same b.sense my_sense then record t { pc = outside; passed = t.passed + 1 } else t)

unfoldable pub gtmp_barrier : ℕ → Shared → Thread → Shared × Thread
unfolding step_at
gtmp_barrier num_threads b t = step_at num_threads b t t.pc

pub record System : Type 0 where
  pub shared : Shared
  pub threads : ℕ → Thread

abbrev pub gtmp_init : ℕ → System
gtmp_init num_threads = record {
  shared = record { count = num_threads; sense = false };
  threads = λ i. record { pc = outside; entered = 0; passed = 0 };
}

-- Thread `i` goes on.
unfoldable pub move : ℕ → ℕ → System → System
unfolding gtmp_barrier
move num_threads i s =
    let (b, t) = gtmp_barrier num_threads s.shared (s.threads i) in
    record { shared = b; threads = at s.threads i t }

-- what `n` threads do in any order
pub data Reach (n : ℕ) : System → Type 0 where
  begin : Reach n (gtmp_init n)
  next : {s : System} (i : ℕ) → i < n → Reach n s → Reach n (move n i s)
