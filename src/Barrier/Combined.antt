-- ===== src/Barrier/Combined.antt =====
-- project2/combined/combined.c: a sense-reversing barrier between the threads of each process, whose
-- last thread goes through a dissemination barrier with the other processes. The two parts are the
-- code of gtmp1.c and gtmpi1.c, and the models of these.
pub mod Links
pub mod Safety
pub mod Progress
mod Examples
use advanced_os.Prelude.{
  ℕ, zero, suc, ◌<◌, ◌≡◌, Bool, true, false, not, ◌&&◌, Option, none, some, if◌then◌else◌,
}
use advanced_os.Prelude.Family.{at}
use advanced_os.Barrier.Sense as Sense
use advanced_os.Barrier.Dissemination as Dissemination

-- A process: its threads with their `count` and `sense`, and whether the last thread is behind the
-- loop over the rounds, or in it.
pub record Node : Type 0 where
  pub team : Sense.System
  pub disseminated : Bool

pub record System : Type 0 where
  pub nodes : ℕ → Node
  pub mpi : Dissemination.System

abbrev pub combined_init : ℕ → System
combined_init num_threads = record {
  nodes = λ p. record { team = Sense.gtmp_init num_threads; disseminated = false };
  mpi = Dissemination.idle;
}

-- the last thread has gone through all rounds
abbrev pub rounds_left : Dissemination.Place → Bool → Bool
rounds_left Dissemination.outside disseminated = not disseminated
rounds_left (Dissemination.receiving r) disseminated = true

-- a thread between the fetch-and-sub that made it the last, and its store to `count`
abbrev pub is_last : Sense.Pc → Bool
is_last (Sense.last m) = true
is_last _ = false

-- The last thread of the process `p` begins the rounds, or receives a message.
unfoldable pub disseminate :
    ℕ → System → Option (Dissemination.Pending × Dissemination.Process) → Option System
disseminate p s none = none
disseminate p s (some r) = some (record {
  nodes = at s.nodes p (record (s.nodes p) { disseminated = true });
  mpi = record { pending = r.0; processes = at s.mpi.processes p r.1 };
})

-- Any other step of the thread `i` of the process `p`.
unfoldable pub go_on : ℕ → ℕ → ℕ → System → System
go_on num_threads p i s =
    let node = s.nodes p in
    record s {
      nodes = at s.nodes p (record {
        team = Sense.move num_threads i node.team;
        disseminated = if is_last (node.team.threads i).pc then false else node.disseminated;
      });
    }

-- A step of the thread `i` of the process `p`, `none` where it waits for a message.
unfoldable pub combined_barrier : ℕ → ℕ → ℕ → ℕ → System → Option System
unfolding disseminate go_on
combined_barrier num_processes num_threads p i s =
    let node = s.nodes p in
    let t = s.mpi.processes p in
    if is_last (node.team.threads i).pc && rounds_left t.place node.disseminated
    then disseminate p s
        (Dissemination.gtmpi_barrier num_processes p s.mpi.pending t.entered t.place)
    else some (go_on num_threads p i s)

-- what `n` processes of `w` threads do in any order
pub data Reach (n w : ℕ) : System → Type 0 where
  begin : Reach n w (combined_init w)
  next :
      {s : System} (p i : ℕ) (s' : System)
      → p < n
      → i < w
      → Reach n w s
      → combined_barrier n w p i s ≡ some s'
      → Reach n w s'
