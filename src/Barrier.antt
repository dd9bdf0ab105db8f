-- ===== src/Barrier.antt =====
-- project2: barriers between threads (OpenMP) and between processes (MPI).
pub mod Sense
pub mod Tree
pub mod Trees
pub mod Relay
pub mod Dissemination
pub mod Combined
mod Examples
