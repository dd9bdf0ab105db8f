-- ===== src/ProducerConsumer.antt =====
-- prelab/producer_consumer.c: the shared queue on an explicit heap, and the threads that use it.
pub mod Queue
pub mod Threads
mod Examples
