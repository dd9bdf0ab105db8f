-- ===== src/Barrier/Relay.antt =====
-- project2/mpi/gtmpi2.c: the tree barrier over messages, for `n` processes that use it again and
-- again. A step of a process is one call of MPI. All messages have the same tag and no data, so that
-- their number is what is pending between two processes.
pub mod Invariant
pub mod Counts
pub mod Arrivals
pub mod Reports
pub mod Wakeups
pub mod Safety
pub mod Progress
mod Examples
use advanced_os.Prelude.{
  ℕ, ◌+◌, ◌-◌, ◌*◌, ◌/◌, ◌<◌, ◌≡◌, Bool, true, false, ◌&&◌, Option, none, some, ltb, leb, ◌==◌,
  if◌then◌else◌,
}
use advanced_os.Prelude.Family.{at}

pub data Place : Type 0 where
  outside : Place
  gathering : ℕ → Place  -- in the loop, with its number of finished children
  aborted : Place  -- the assertion does not hold
  reporting : Place  -- before MPI_Isend to the parent
  awaiting : Place  -- in MPI_Recv from the process that wakes
  waking_first : Place
  waking_second : Place

-- `entered` counts the calls of gtmpi_barrier begun.
pub record Process : Type 0 where
  pub place : Place
  pub entered : ℕ

-- messages sent from one process to another and not yet received
abbrev pub Pending : Type 0
Pending = ℕ → ℕ → ℕ

pub record System : Type 0 where
  pub pending : Pending
  pub processes : ℕ → Process

abbrev pub idle : System
idle = record { pending = λ q p. 0; processes = λ p. record { place = outside; entered = 0 } }

abbrev pub first_child : ℕ → ℕ
first_child rank = rank * 4 + 1

-- The difference is negative in the first case, and no int is too small for it.
abbrev pub num_children : ℕ → ℕ → ℕ
num_children n rank =
    if ltb n (first_child rank)
    then 0
    else (if ltb 4 (n - first_child rank) then 4 else n - first_child rank)

unfoldable pub send : Pending → ℕ → ℕ → ℕ → ℕ → ℕ
send m q p = at m q (at (m q) p (m q p + 1))

unfoldable pub take : Pending → ℕ → ℕ → ℕ → ℕ → ℕ
take m q p = at m q (at (m q) p (m q p - 1))

-- the bounds that the code asserts for the source of a message
abbrev pub asserted : ℕ → ℕ → ℕ → Bool
asserted n rank source =
    leb (first_child rank) source && leb source (first_child rank + num_children n rank)

-- A wakeup is sent if there is a process to wake.
abbrev pub wake : ℕ → Pending → ℕ → ℕ → Pending
wake n m rank child = if ltb child n then send m rank child else m

-- The step of the process `rank`, `none` where it waits for a message; MPI picks the source of a
-- message that may come from any.
unfoldable pub gtmpi_barrier : ℕ → ℕ → ℕ → Pending → ℕ → Place → Option (Pending × Process)
unfolding send take
gtmpi_barrier n rank source m entered outside =
    some (m, record { place = gathering 0; entered = entered + 1 })
gtmpi_barrier n rank source m entered (gathering finished) =
    if ltb finished (num_children n rank)
    then (if ltb 0 (m source rank)
        then some (
          take m source rank,
          record {
            place = if asserted n rank source then gathering (finished + 1) else aborted;
            entered = entered;
          },
        )
        else none)
    else some
        (m, record { place = if rank == 0 then waking_first else reporting; entered = entered })
gtmpi_barrier n rank source m entered aborted = none
gtmpi_barrier n rank source m entered reporting =
    some (send m rank ((rank - 1) / 4), record { place = awaiting; entered = entered })
gtmpi_barrier n rank source m entered awaiting =
    if ltb 0 (m ((rank - 1) / 2) rank)
    then some (take m ((rank - 1) / 2) rank, record { place = waking_first; entered = entered })
    else none
gtmpi_barrier n rank source m entered waking_first =
    some (wake n m rank (rank * 2 + 1), record { place = waking_second; entered = entered })
gtmpi_barrier n rank source m entered waking_second =
    some (wake n m rank (rank * 2 + 2), record { place = outside; entered = entered })

-- what `n` processes do in any order
pub data Reach (n : ℕ) : System → Type 0 where
  begin : Reach n idle
  next :
      {s : System} (p source : ℕ) (m : Pending) (t : Process)
      → p < n
      → Reach n s
      → gtmpi_barrier n p source s.pending (s.processes p).entered (s.processes p).place
        ≡ some (m, t)
      → Reach n (record { pending = m; processes = at s.processes p t })
