-- ===== src/Barrier/Dissemination.antt =====
-- project2/mpi/gtmpi1.c: the dissemination barrier, for `n` processes that use it again and again.
-- MPI keeps the messages of a pair of processes in order; all have the same tag and no data, so that
-- their number is what is pending between the two.
pub mod Rounds
pub mod Messages
pub mod Invariant
pub mod Counts
pub mod Steps
pub mod Safety
pub mod Progress
use advanced_os.Prelude.{
  ℕ, zero, suc, ◌+◌, ◌-◌, ◌%◌, ◌^◌, ◌<◌, ◌≡◌, Bool, true, false, Option, none, some, ltb, leb, ◌==◌,
  if◌then◌else◌,
}
use advanced_os.Prelude.Family.{at}

-- the least `k`, from the given one on, whose power of two is not below `n`
unfoldable pub log2_from : ℕ → ℕ → ℕ → ℕ
log2_from zero k n = k
log2_from (suc fuel) k n = let more = log2_from fuel (k + 1) n in if leb n (2 ^ k) then k else more

-- `ceil(log2(num_processes))`; a number is below its power of two, so it is fuel enough.
unfoldable pub num_rounds : ℕ → ℕ
unfolding log2_from
num_rounds n = log2_from n 0 n

unfoldable pub send_to : ℕ → ℕ → ℕ → ℕ
send_to n rank round = (rank + 2 ^ round) % n

-- The power is below `n`, so the number is not negative.
unfoldable pub recv_from : ℕ → ℕ → ℕ → ℕ
recv_from n rank round = (rank + n - 2 ^ round) % n

pub data Place : Type 0 where
  outside : Place
  receiving : ℕ → Place  -- in MPI_Recv of this round; its message has been sent

-- `entered` counts the calls of gtmpi_barrier begun.
pub record Process : Type 0 where
  pub place : Place
  pub entered : ℕ

-- messages sent from one process to another and not yet received
abbrev pub Pending : Type 0
Pending = ℕ → ℕ → ℕ

pub record System : Type 0 where
  pub pending : Pending
  pub processes : ℕ → Process

abbrev pub idle : System
idle = record { pending = λ q p. 0; processes = λ p. record { place = outside; entered = 0 } }

-- The top of the loop: the message of the round is sent, or the loop is over.
unfoldable pub begin_round : ℕ → ℕ → ℕ → ℕ → Pending → Pending × Place
unfolding send_to
begin_round n rank round left m =
    if ltb round left
    then (
      at m rank (at (m rank) (send_to n rank round) (m rank (send_to n rank round) + 1)),
      receiving round,
    )
    else (m, outside)

-- A step of the process `rank`, `none` where it waits for a message.
unfoldable pub gtmpi_barrier : ℕ → ℕ → Pending → ℕ → Place → Option (Pending × Process)
unfolding begin_round num_rounds recv_from
gtmpi_barrier n rank m entered outside =
    let (m', place) = begin_round n rank 0 (num_rounds n) m in
    some (m', record { place = place; entered = entered + 1 })
gtmpi_barrier n rank m entered (receiving round) =
    let q = recv_from n rank round in
    let received = at m q (at (m q) rank (m q rank - 1)) in
    let (m', place) = begin_round n rank (round + 1) (num_rounds n) received in
    if ltb 0 (m q rank) then some (m', record { place = place; entered = entered }) else none

-- what `n` processes do in any order
pub data Reach (n : ℕ) : System → Type 0 where
  begin : Reach n idle
  next :
      {s : System} (p : ℕ) (m : Pending) (t : Process)
      → p < n
      → Reach n s
      → gtmpi_barrier n p s.pending (s.processes p).entered (s.processes p).place ≡ some (m, t)
      → Reach n (record { pending = m; processes = at s.processes p t })
