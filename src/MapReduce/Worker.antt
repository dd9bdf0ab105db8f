-- ===== src/MapReduce/Worker.antt =====
-- project4/src/worker.cc and the requests of worker_request.cc: a worker as gRPC runs it. Its two
-- loops share no request; each round is one step. The environment chooses when a query arrives, when
-- a reply has been sent and which tag comes next.
pub mod Invariant
pub mod Steps
pub mod Service
mod Examples
use advanced_os.Prelude.{
  ℕ, zero, suc, ◌+◌, ◌≡◌, ◌<◌, Bool, true, false, Option, none, some, List, [], ◌∷◌, ◌++◌, ◌==◌,
  if◌then◌else◌,
}
use advanced_os.Prelude.Family.{at}
use advanced_os.MapReduce.Text.{Text, FileSystem}
use advanced_os.MapReduce.Mapper.{Pair, MapQuery, handle_map_job}
use advanced_os.MapReduce.Reducer.{ReduceQuery, handle_reduce_job}

pub data RequestStatus : Type 0 where
  create process finish : RequestStatus

-- What gRPC does for the tag of a request: nothing, wait for a query, send the reply, or hold the
-- tag on a completion queue.
pub data Operation : Type 0 where
  idle requested answering completed : Operation

-- `MapRequest`, `ReduceRequest` and `PingRequest`
pub data Kind : Type 0 where
  mapping reducing pinging : Kind

pub data Query : Type 0 where
  map_query : MapQuery → Query
  reduce_query : ReduceQuery → Query
  ping_query : Query

pub data Reply : Type 0 where
  map_result : List Text → Reply
  reduce_result : Text → Reply
  ping_result : Text → Reply

unfoldable pub kind_of : Query → Kind
kind_of (map_query q) = mapping
kind_of (reduce_query q) = reducing
kind_of ping_query = pinging

-- the query of a request that has none yet
unfoldable pub blank : Kind → Query
blank mapping = map_query (record { n_partitions = 0; partitions = [] })
blank reducing = reduce_query (record { partition_id = 0; output_dir = []; files = [] })
blank pinging = ping_query

-- `replies` are the arguments of the calls of `Finish`, and `deleted` is set by `delete this`.
pub record Request : Type 0 where
  pub status : RequestStatus
  pub operation : Operation
  pub deleted : Bool
  pub query : Query
  pub replies : List Reply

-- The requests by their number, in the order in which they are allocated.
pub record Server : Type 0 where
  pub requests : ℕ → Request
  pub allocated : ℕ
  pub files : FileSystem

-- What a round of a loop comes to: an exception of a job ends the worker, and `dangling` is the tag of
-- a request that has been deleted.
pub data Outcome : Type 0 where
  goes : Server → Outcome
  crashed : Outcome
  dangling : Outcome

-- the address behind the colon
unfoldable pub behind_colon : Text → Option Text
behind_colon [] = none
behind_colon (c ∷ t) = let rest = behind_colon t in if c == b':' then some t else rest

-- `substr(find_first_of(":") + 1)`: the sum is 0 where there is no colon
unfoldable pub port_num : Text → Text
unfolding behind_colon
port_num addr = elim (behind_colon addr) [ none ↦ addr | some port ↦ port ]

abbrev map_job :
    (Text → ℕ) → (Text → List Pair) → Text → MapQuery → FileSystem → Option (Reply × FileSystem)
map_job hash mapper port q fs =
    let (files, fs') = handle_map_job hash mapper port q fs in some (map_result files, fs')

abbrev reduced : Option (Text × FileSystem) → Option (Reply × FileSystem)
reduced none = none
reduced (some (file, fs)) = some (reduce_result file, fs)

abbrev reduce_job :
    (Text → List Text → List Pair) → ReduceQuery → FileSystem → Option (Reply × FileSystem)
reduce_job reducer q fs = reduced (handle_reduce_job reducer q fs)

abbrev ping_job : Text → FileSystem → Option (Reply × FileSystem)
ping_job addr fs = some (ping_result addr, fs)

-- The job of a query, by the class of its request.
unfoldable pub job :
    (Text → ℕ)
    → (Text → List Pair)
    → (Text → List Text → List Pair)
    → Text
    → Query
    → FileSystem
    → Option (Reply × FileSystem)
unfolding port_num
job hash mapper reducer addr (map_query q) fs = map_job hash mapper (port_num addr) q fs
job hash mapper reducer addr (reduce_query q) fs = reduce_job reducer q fs
job hash mapper reducer addr ping_query fs = ping_job addr fs

abbrev pub new_request : Kind → Request
new_request kind = record {
  status = create;
  operation = idle;
  deleted = false;
  query = blank kind;
  replies = [];
}

-- `Proceed` in the status CREATE
abbrev pub listen : Request → Request
listen r = record r { status = process; operation = requested }

-- `new`, whose constructor calls `Proceed`
unfoldable pub allocate : Kind → Server → Server
allocate kind s = record s {
  requests = at s.requests s.allocated (listen (new_request kind));
  allocated = suc s.allocated;
}

-- `Finish` with what the job has come to
unfoldable pub answer : ℕ → Option (Reply × FileSystem) → Server → Outcome
answer i none s = crashed
answer i (some (reply, fs)) s = goes (record s {
  requests = at s.requests i (record (s.requests i) {
    status = finish;
    operation = answering;
    replies = (s.requests i).replies ++ reply ∷ [];
  });
  files = fs;
})

module _ (job : Query → FileSystem → Option (Reply × FileSystem)) where
  -- `Proceed` of the request `i`, by its status
  unfoldable pub proceed_from : ℕ → RequestStatus → Server → Outcome
  unfolding allocate answer
  proceed_from i create s = goes (record s { requests = at s.requests i (listen (s.requests i)) })
  proceed_from i process s =
      answer i (job (s.requests i).query s.files) (allocate (kind_of (s.requests i).query) s)
  proceed_from i finish s =
      goes (record s { requests = at s.requests i (record (s.requests i) { deleted = true }) })

  unfoldable pub proceed : ℕ → Server → Outcome
  unfolding proceed_from
  proceed i s = if (s.requests i).deleted then dangling else proceed_from i (s.requests i).status s

  -- A round of process_map_reduce_request or process_ping_request that gets the tag `i`.
  unfoldable pub process_request : ℕ → Server → Outcome
  unfolding proceed
  process_request i s =
      proceed i
        (record s { requests = at s.requests i (record (s.requests i) { operation = idle }) })

  -- The start of both loops.
  unfoldable pub start : FileSystem → Server
  unfolding allocate
  start fs = allocate pinging (
      allocate reducing (
        allocate mapping
          (record { requests = λ _. new_request pinging; allocated = 0; files = fs })))

  -- What happens between two rounds: a query of the request's kind arrives, or a reply has been sent.
  pub data Event (s s' : Server) : Type 0 where
    arrive :
        (i : ℕ) (q : Query)
        → i < s.allocated
        → (s.requests i).operation ≡ requested
        → kind_of q ≡ kind_of (s.requests i).query
        → s' ≡ record s {
          requests = at s.requests i (record (s.requests i) { operation = completed; query = q });
        }
        → Event s s'
    sent :
        (i : ℕ)
        → i < s.allocated
        → (s.requests i).operation ≡ answering
        → s' ≡ record s {
          requests = at s.requests i (record (s.requests i) { operation = completed });
        }
        → Event s s'

  -- the queries that a round serves, before those it has served
  abbrev pub served : ℕ → RequestStatus → Query → List (ℕ × Query) → List (ℕ × Query)
  served i create q l = l
  served i process q l = (i, q) ∷ l
  served i finish q l = l

  -- What a worker that starts with the files `fs` may come to, with the queries that it has served, the
  -- last one first.
  pub data Reach (fs : FileSystem) : List (ℕ × Query) → Server → Type 0 where
    begin : Reach fs [] (start fs)
    event : {l : List (ℕ × Query)} {s s' : Server} → Reach fs l s → Event s s' → Reach fs l s'
    round :
        {l : List (ℕ × Query)} {s s' : Server} (i : ℕ)
        → Reach fs l s
        → i < s.allocated
        → (s.requests i).operation ≡ completed
        → process_request i s ≡ goes s'
        → Reach fs (served i (s.requests i).status (s.requests i).query l) s'
