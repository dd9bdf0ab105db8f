-- ===== src/Vcpu.antt =====
-- project1-1/cpu/src/vcpu_scheduler.c: the scheduler that pins virtual machines to physical CPUs.
pub mod Doubles
pub mod Usages
pub mod Pins
pub mod Placement
pub mod Pass
mod Examples
