-- ===== src/MapReduce/Master.antt =====
-- project4/src/master.cc, worker_client.cc and client_call.h: the master's bookkeeping of workers and
-- jobs. gRPC is the environment, which chooses what each call answers and when.
pub mod State
pub mod Failures
pub mod Responses
pub mod Jobs
pub mod Reduce
pub mod Steps
pub mod Clients
pub mod Entries
pub mod Outstanding
pub mod Kept
pub mod Accounts
pub mod Completion
pub mod Backing
pub mod Pointers
pub mod Pongs
pub mod Requeued
pub mod Partitions
mod Examples
