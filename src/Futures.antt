-- ===== src/Futures.antt =====
-- aiolab/futures.py: futures settled by callbacks, and fan-outs.
pub mod Bridge
pub mod Settling
pub mod Fanout
pub mod Waiting
pub mod Reports
mod Tests
