-- ===== src/MapReduce/Worker/Examples.antt =====
-- A run of a worker of project4/src/worker.cc: a map query arrives and is served, and its reply is sent.
use advanced_os.Prelude.{
  ℕ, ◌≡◌, ◌≢◌, ◌≤◌, ◌⊎◌, refl, Option, none, some, List, [], ◌∷◌, arith, length,
}
use advanced_os.Prelude.Family.{at, total}
use advanced_os.MapReduce.Text.{Text, FileSystem}
use advanced_os.MapReduce.Mapper.{handle_map_job, names_from}
use advanced_os.MapReduce.Worker.{
  completed, finish, mapping, Query, map_query, Reply, Server, Outcome, goes, crashed, dangling,
  kind_of, job, port_num, process_request, start, Event, Reach, blank,
}
use advanced_os.MapReduce.Worker.Invariant.{listening, run_jobs, replies_to}
use advanced_os.MapReduce.Worker.Service.{one_request_listens, jobs_in_order}

abbrev address : Text
address = b'a' ∷ b':' ∷ b'5' ∷ b'0' ∷ []

port_num_lem : port_num address ≡ b'5' ∷ b'0' ∷ []
unfolding port_num
port_num_lem = refl

port_num_whole : port_num (b'5' ∷ []) ≡ b'5' ∷ []
unfolding port_num
port_num_whole = refl

abbrev empty_disk : FileSystem
empty_disk f = none

abbrev do_job : Query → FileSystem → Option (Reply × FileSystem)
do_job = job (λ t. 0) (λ line. (line, []) ∷ []) (λ k vs. []) address

abbrev query : Query
query = map_query (record { n_partitions = 0; partitions = [] })

abbrev s0 : Server
s0 = start do_job empty_disk

abbrev s1 : Server
s1 = record s0 {
  requests = at s0.requests 0 (record (s0.requests 0) { operation = completed; query = query });
}

abbrev behind : Outcome → Server
behind (goes s) = s
behind crashed = s1
behind dangling = s1

abbrev s2 : Server
s2 = behind (process_request do_job 0 s1)

s2-Reach : Reach do_job empty_disk ((0, query) ∷ []) s2
unfolding start process_request job handle_map_job names_from kind_of blank
s2-Reach =
    Reach.round 0 (Reach.event Reach.begin (Event.arrive 0 query (omega arith) refl refl refl))
      (omega arith) refl refl

s2_finish : (s2.requests 0).status ≡ finish
unfolding start process_request job handle_map_job names_from kind_of blank
s2_finish = refl

one_request_listens_example : total (listening mapping) s2.allocated s2.requests ≡ 1
one_request_listens_example =
    one_request_listens do_job empty_disk ((0, query) ∷ []) s2 mapping s2-Reach

jobs_in_order_example :
    (results : List (ℕ × Reply)) × (run_jobs do_job empty_disk ((0, query) ∷ [])
      ≡ some (results, s2.files))
    × ((s2.requests 0).replies ≡ replies_to do_job empty_disk 0 results)
    × (length (s2.requests 0).replies ≤ 1)
    × (((s2.requests 0).operation ≢ completed) ⊎ (process_request do_job 0 s2 ≢ dangling))
jobs_in_order_example = jobs_in_order do_job empty_disk ((0, query) ∷ []) s2 0 s2-Reach
