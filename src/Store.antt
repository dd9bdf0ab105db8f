-- ===== src/Store.antt =====
-- project3/src: the product store. Requests come through gRPC, whose completion queue gives back the
-- tags of instances of CallData; the environment chooses when a client's request arrives, when a
-- reply has been sent, which tag comes next, and which thread goes on.
pub mod Invariant
pub mod Steps
pub mod Threads
pub mod Safety
pub mod Bids
mod Examples
use advanced_os.Prelude.{
  ℕ, zero, suc, ◌+◌, ◌≡◌, ◌<◌, Bool, true, false, Option, none, some, List, [], ◌∷◌, ◌++◌, leb,
  if◌then◌else◌,
}
use advanced_os.Prelude.Family.{at}
use advanced_os.MapReduce.Text.{Text, FileSystem, all_lines, newline}

pub data CallStatus : Type 0 where
  create process finish : CallStatus

-- What gRPC does for the tag of an instance: nothing, wait for a client's request, send the reply, or
-- hold the tag on the completion queue.
pub data Operation : Type 0 where
  idle requested answering completed : Operation

-- `answers` counts the calls of `Finish`, and `deleted` is set by `delete this`.
pub record CallData : Type 0 where
  pub status : CallStatus
  pub operation : Operation
  pub deleted : Bool
  pub answers : ℕ

-- a thread of the pool: before the queue, with a job, or behind the job's `new CallData`
pub data Worker : Type 0 where
  waiting : Worker
  job : ℕ → Worker
  bidding : ℕ → Worker

-- The instances by their number, in the order in which they are allocated.
pub record Server : Type 0 where
  pub calls : ℕ → CallData
  pub allocated : ℕ
  pub event_queue : List ℕ
  pub threads : ℕ → Worker

abbrev pub new_call_data : CallData
new_call_data = record { status = create; operation = idle; deleted = false; answers = 0 }

-- `event_queue.push`
unfoldable pub add_job : ℕ → Server → Server
add_job i s = record s { event_queue = s.event_queue ++ i ∷ [] }

-- `CallData::Proceed`, by the instance's status
unfoldable pub proceed_from : ℕ → CallStatus → Server → Server
unfolding add_job
proceed_from i create s = record s {
  calls = at s.calls i (record (s.calls i) { status = process; operation = requested });
}
proceed_from i process s = add_job i s
proceed_from i finish s = record s { calls = at s.calls i (record (s.calls i) { deleted = true }) }

-- `none` where the instance has been deleted.
unfoldable pub proceed : ℕ → Server → Option Server
unfolding proceed_from
proceed i s = if (s.calls i).deleted then none else some (proceed_from i (s.calls i).status s)

-- `new CallData`, whose constructor calls `Proceed`
unfoldable pub new_call : Server → Server
new_call s = record s {
  calls = at s.calls s.allocated (record new_call_data { status = process; operation = requested });
  allocated = suc s.allocated;
}

-- A round of `HandleRpcs` that gets the tag `i`.
unfoldable pub handle_rpc : ℕ → Server → Option Server
unfolding proceed
handle_rpc i s =
    proceed i (record s { calls = at s.calls i (record (s.calls i) { operation = idle }) })

-- The end of a job: the bids have been got, and `Finish` is called.
unfoldable pub finish_job : ℕ → CallData → CallData
finish_job i c = record c { status = finish; operation = answering; answers = c.answers + 1 }

-- The step of a thread of the pool from where it is: `ThreadLoop`, and the job of `Proceed`.
unfoldable pub thread_step : ℕ → Worker → List ℕ → Server → Server
unfolding new_call finish_job
thread_step w waiting [] s = s
thread_step w waiting (i ∷ queue) s = record s {
  event_queue = queue;
  threads = at s.threads w (job i);
}
thread_step w (job i) queue s =
    let t = new_call s in record t { threads = at t.threads w (bidding i) }
thread_step w (bidding i) queue s = record s {
  calls = at s.calls i (finish_job i (s.calls i));
  threads = at s.threads w waiting;
}

unfoldable pub thread_loop : ℕ → Server → Server
unfolding thread_step
thread_loop w s = thread_step w (s.threads w) s.event_queue s

-- The start of `HandleRpcs`.
unfoldable pub start : Server
unfolding new_call
start =
    new_call (record {
      calls = λ _. new_call_data;
      allocated = 0;
      event_queue = [];
      threads = λ _. waiting;
    })

-- `max(hardware_concurrency(), num_threads)` of the pool's constructor
unfoldable pub pool_size : ℕ → ℕ → ℕ
pool_size hardware num_threads = if leb hardware num_threads then num_threads else hardware

-- `get_vendor_ips`: a file that cannot be opened leaves the addresses as they are
unfoldable pub read_vendor_ips : Option Text → List Text → List Text
read_vendor_ips none ips = ips
read_vendor_ips (some text) ips = ips ++ all_lines newline text

unfoldable pub get_vendor_ips : FileSystem → Text → List Text → List Text
unfolding read_vendor_ips
get_vendor_ips fs filename ips = read_vendor_ips (fs filename) ips

-- What happens in a store whose pool has `n` threads.
pub data Step (n : ℕ) (s s' : Server) : Type 0 where
  arrive :
      (i : ℕ)
      → i < s.allocated
      → (s.calls i).operation ≡ requested
      → s' ≡ record s { calls = at s.calls i (record (s.calls i) { operation = completed }) }
      → Step n s s'
  sent :
      (i : ℕ)
      → i < s.allocated
      → (s.calls i).operation ≡ answering
      → s' ≡ record s { calls = at s.calls i (record (s.calls i) { operation = completed }) }
      → Step n s s'
  rpc :
      (i : ℕ)
      → i < s.allocated
      → (s.calls i).operation ≡ completed
      → handle_rpc i s ≡ some s'
      → Step n s s'
  thread : (w : ℕ) → w < n → s' ≡ thread_loop w s → Step n s s'

pub data Reach (n : ℕ) : Server → Type 0 where
  begin : Reach n start
  next : {s s' : Server} → Reach n s → Step n s s' → Reach n s'
