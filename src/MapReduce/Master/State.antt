-- ===== src/MapReduce/Master/State.antt =====
-- The state of project4/src/master.h and worker_client.h, and the constructor of master.cc.
use advanced_os.Prelude.{
  ℕ, Bool, false, ◌||◌, Option, none, some, List, [], ◌∷◌, if◌then◌else◌, length,
}
use advanced_os.Prelude.Int.{ℤ, pos, negsuc}
use advanced_os.MapReduce.Text.{Text, text_eq}
use advanced_os.MapReduce.Shards.{FileShard}
use advanced_os.MapReduce.Spec.{MapReduceSpec}

pub record WorkerClient : Type 0 where
  pub map_shards : List FileShard
  pub reduce_partitions : List ℤ
  pub completed_map_jobs : ℕ
  pub completed_reduce_jobs : ℕ

unfoldable pub new_client : WorkerClient
new_client = record {
  map_shards = [];
  reduce_partitions = [];
  completed_map_jobs = 0;
  completed_reduce_jobs = 0;
}

-- a `std::unordered_map` with a worker's address as its key
module _ {A : Type 0} where
  unfoldable pub find : Text → List (Text × A) → Option A
  find u [] = none
  find u ((v, a) ∷ m) = let rest = find u m in if text_eq v u then some a else rest

  -- `map[u] = a`
  unfoldable pub put : Text → A → List (Text × A) → List (Text × A)
  put u a [] = (u, a) ∷ []
  put u a ((v, b) ∷ m) = let rest = put u a m in if text_eq v u then (v, a) ∷ m else (v, b) ∷ rest

  unfoldable pub erase : Text → List (Text × A) → List (Text × A)
  erase u [] = []
  erase u ((v, a) ∷ m) = let rest = erase u m in if text_eq v u then m else (v, a) ∷ rest

-- `std::find(l.begin(), l.end(), u) != l.end()`
unfoldable pub is_in : Text → List Text → Bool
is_in u [] = false
is_in u (v ∷ l) = text_eq v u || is_in u l

-- the loop that erases the first such element
unfoldable pub erase_first : Text → List Text → List Text
erase_first u [] = []
erase_first u (v ∷ l) = let rest = erase_first u l in if text_eq v u then l else v ∷ rest

-- The counters are ints, which only grow by one or by another counter and are taken not to overflow.
-- A client that is not in the map is a null pointer.
pub record Master : Type 0 where
  pub user_id : Text
  pub output_dir : Text
  pub num_workers : ℕ
  pub num_dropped_workers : ℕ
  pub num_dropped_map_jobs : ℕ
  pub num_dropped_reduce_jobs : ℕ
  pub num_map_msgs : ℕ
  pub num_reduce_msgs : ℕ
  pub num_shards : ℕ
  pub num_partitions : ℕ
  pub map_complete : Bool
  pub reduce_complete : Bool
  pub worker_ips : List Text
  pub dropped_worker_ips : List Text
  pub ip_addr2worker : List (Text × WorkerClient)
  pub ready_queue : List Text
  pub shards : List FileShard
  pub unfinished_shards : List FileShard
  pub partitions : List ℤ
  pub unfinished_partitions : List ℤ
  pub worker2job : List (Text × ℤ)
  pub intermediate_files : List Text
  pub output_files : List Text
  pub index : ℕ  -- the variable `i` of the loops of `run`
  pub claimed : Option Text  -- `worker_ip` of these loops, from the end of the lock to the sending of a job
  pub removed : List Text  -- what `std::remove` was called with

-- an `int` of the specification that is positive where it is used
abbrev pub positive : ℤ → ℕ
positive (pos n) = n
positive (negsuc n) = 0

-- The loop of the constructor over the addresses.
unfoldable pub new_clients : List Text → List (Text × WorkerClient) → List (Text × WorkerClient)
unfolding put new_client
new_clients [] m = m
new_clients (u ∷ us) m = new_clients us (put u new_client m)

-- `Master::Master`, for a valid specification, which has as many addresses as workers
unfoldable pub new_master : MapReduceSpec → List FileShard → Master
unfolding new_clients
new_master s file_shards = record {
  user_id = s.user_id;
  output_dir = s.output_dir;
  num_workers = positive s.n_workers;
  num_dropped_workers = 0;
  num_dropped_map_jobs = 0;
  num_dropped_reduce_jobs = 0;
  num_map_msgs = 0;
  num_reduce_msgs = 0;
  num_shards = length file_shards;
  num_partitions = positive s.n_output_files;
  map_complete = false;
  reduce_complete = false;
  worker_ips = s.worker_ipaddr_ports;
  dropped_worker_ips = [];
  ip_addr2worker = new_clients s.worker_ipaddr_ports [];
  ready_queue = s.worker_ipaddr_ports;
  shards = file_shards;
  unfinished_shards = [];
  partitions = [];
  unfinished_partitions = [];
  worker2job = [];
  intermediate_files = [];
  output_files = [];
  index = 0;
  claimed = none;
  removed = [];
}
