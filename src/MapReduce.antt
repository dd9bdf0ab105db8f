-- ===== src/MapReduce.antt =====
-- project4: the MapReduce framework.
pub mod Text
pub mod Shards
pub mod Mapper
pub mod Reducer
pub mod Spec
pub mod Run
pub mod Factory
pub mod Master
pub mod Worker
mod Examples
