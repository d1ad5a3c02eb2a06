-- ===== src/Streams.antt =====
-- aiolab/streams.py: what consumes, maps, merges, stops and paces async iterators.
pub mod Source
pub mod Collecting
pub mod Amap
pub mod Rounds
pub mod InOrder
pub mod AnyOrder
pub mod EachOnce
pub mod InFlight
pub mod Break
pub mod Breaking
pub mod Window
pub mod Chain
pub mod Stranded
pub mod Merge
pub mod Lanes
pub mod Until
pub mod Throttle
pub mod Pacing
mod Tests
