-- ===== src/Retry.antt =====
-- aiolab/retry.py: backoff policy, retry loop and the circuit breaker.
pub mod Policy
pub mod Loop
pub mod Backoff
pub mod Script
pub mod Outcome
pub mod Breaker
pub mod Tripping
pub mod Calls
pub mod Machine
pub mod Refines
pub mod Deadline
pub mod Hung
mod Tests
