-- ===== src/Lib.antt =====
-- Verification of the programs of an advanced operating systems course: a memory coordinator and
-- a vCPU scheduler over libvirt (project1-1), barriers over OpenMP and MPI (project2), a product
-- store over gRPC (project3), a MapReduce framework (project4), and a producer and consumer
-- warm-up (prelab). The programs share no code; each is a component of its own below, and Prelude
-- holds what the models share: Boolean tests and 64-bit arithmetic, lists over the native
-- numbers, sums over families.
--
-- Components, with the file that models each:
--   Memory: project1-1/memory/src/memory_coordinator.c. MemoryScheduler is memory_scheduler, made
--     of get_mem_stats, get_host_mem, the first loop (classify_all and tally), the request to the
--     host (ask_host) and the two balancing loops (grant_all, grant_some). libvirt's answers are
--     the record Hypervisor, and a pass returns the calls of virDomainSetMemory in order. Sums,
--     differences and products wrap around at 64 bits, as unsigned long long does. Not modelled:
--     the main loop, signals, debug output, and a failed listing of the domains.
--   ProducerConsumer: prelab/producer_consumer.c. Queue has the operations of queue_t on an
--     explicit heap; Threads has the routines of the producer and of n consumers (main has n = 2)
--     as steps that end at each access to a lock or to the heap, and its children prove who holds
--     a lock, what the queue holds, what has been printed, and that some thread can always go on.
--     Not modelled: the creation and joining of threads, and failures of malloc and of the
--     pthread calls.
--   Vcpu: project1-1/cpu/src/vcpu_scheduler.c. One call of CPUScheduler is cpu_scheduler of
--     Vcpu.Pass, in the steps of the source: get_vm_cpu_times, calculate_vm_cpu_usages,
--     get_cpu_mapping, calculate_pcpu_workload and calculate_std_dev in Vcpu.Usages, the two
--     branches that pin (place_few and place_many) in Vcpu.Placement, and the bit map of
--     pin_vm_to_pcpu in Vcpu.Pins. libvirt's answers are the record Hypervisor; doubles are the
--     interface Vcpu.Doubles, so that no theorem depends on their rounding. The loops are over
--     the lists of VMs and pCPUs. Not modelled: main's loop, signals, printed output, and
--     check_balance, which nothing calls.
--   MapReduce: project4. MapReduce.Text has texts as lists of bytes, std::getline, and a file
--     system as a function from names to contents; MapReduce.Shards is file_shard.h, with
--     shard_loop on fuel: each round takes at least one byte, so the size of the file is enough.
--     MapReduce.Mapper is handle_map_job of worker_request.cc with the buffer of mr_tasks.cc;
--     MapReduce.Reducer is its handle_reduce_job; the user's mapper and reducer and std::hash are
--     parameters. MapReduce.Spec is mapreduce_spec.h: the reader with std::stoi, and
--     validate_mr_spec; MapReduce.Run is MapReduceImpl of mapreduce_impl.cc, made of the reader,
--     the validation and the sharding; MapReduce.Factory is mr_task_factory.cc. MapReduce.Worker
--     is worker.cc with the three classes of requests of worker_request.cc: process_request is a
--     round of either loop, Event what gRPC does between two rounds, and Reach also keeps the
--     queries served, for the comparison with jobs that run one after another.
--   MapReduce.Master: project4/src/master.cc with worker_client.cc and client_call.h. State has
--     the fields of master.h and the constructor; Failures has handle_worker_failure and the loop
--     that reads the answers to pings, Responses what poll_workers does with a call, Jobs and
--     Reduce the loops of run, the test of schedule_monitor and the grouping of the intermediate
--     files by partition. Steps makes them steps of one state: run goes through its rounds in
--     order, with one step for the part of a loop's body under the lock (claim_map, claim_reduce)
--     and one for the part behind it (send_map, send_reduce), and responses and failures come at
--     any time. The other children prove what holds of the states that are reached. Not modelled:
--     the waiting of the threads for each other, data races between their handlers, deadlines,
--     and the pings' timing.
--   Barrier: project2. Barrier.Sense is omp/gtmp1.c: gtmp_barrier as one step for each access to
--     count or sense, and its children prove the invariant of the episodes. Barrier.Dissemination
--     is mpi/gtmpi1.c: gtmpi_barrier as one step for each call of the barrier and each message
--     received, with the numbers of pending messages between each two processes; the logarithm of
--     gtmpi_init is a search whose fuel is the number of processes. Threads and processes may
--     come back at once, and any number of times. Barrier.Combined is combined/combined.c, which
--     is made of the two: Node is a process with its threads, and combined_barrier lets the last
--     thread go through the rounds with the other processes before it stores the count.
--     Barrier.Tree is omp/gtmp2.c, with one step for each access to a field of a node that other
--     threads use; its invariant counts, for each thread, the places it has gone past.
--     Barrier.Relay is mpi/gtmpi2.c, with one step for each call of MPI and any choice of the
--     source of a message taken from any. Barrier.Trees has what the two tree barriers share:
--     counts that grow towards the leaves and those that grow towards the root.
--   Store: project3/src. Store has an instance of CallData with its status, what gRPC does for
--     its tag, and the threads of threadpool.h with their queue: proceed is CallData::Proceed,
--     handle_rpc a round of HandleRpcs, thread_loop a step of ThreadLoop or of the job it runs;
--     its children prove what holds in every interleaving of these with gRPC. Store.Bids is
--     getProductBid of vendor_client.cc, where the calls end in any order among the rounds of the
--     loop that reads them, and Next fills the reply and the status that all calls share with
--     what the call of its tag has ended with. Not modelled: the set-up of server and channels,
--     and main.
pub mod Prelude
pub mod Barrier
pub mod MapReduce
pub mod Memory
pub mod ProducerConsumer
pub mod Store
pub mod Vcpu
