-- ===== src/Sync.antt =====
-- aiolab/sync.py: counters, one-time initialisation, a resource pool, a token bucket and a
-- readers-writer lock.
pub mod Bucket
pub mod Refill
pub mod Rate
pub mod Sharing
pub mod Acquire
pub mod Keeping
pub mod RwLock
pub mod Exclusion
pub mod Wakeups
pub mod Counters
pub mod Waiting
pub mod Updates
mod Tests
pub mod Resources
pub mod Lending
pub mod Semaphore
