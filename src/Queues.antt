-- ===== src/Queues.antt =====
-- aiolab/queues.py: the worker pool, and what drains and batches a queue.
pub mod Pool
pub mod Events
pub mod Accounting
pub mod Leak
pub mod Joining
pub mod Order
pub mod Holding
pub mod Outcomes
pub mod Closing
pub mod Quiet
pub mod Final
pub mod Stranded
mod Tests
mod Endings
pub mod Bounded
pub mod Exchange
pub mod Batching
pub mod Batches
pub mod Partial
