-- ===== src/Lib.antt =====
-- aiolab (src/aiolab): a library of asyncio building blocks in seven levels. This development
-- models coroutines run in turn and side by side (basics.py), groups, races and the registry of
-- tasks (tasks.py), the token bucket, the readers-writer lock, the counters, Once and ResourcePool
-- (sync.py), the worker pool, batched, produce and drain_now (queues.py), settled futures and fan-
-- outs (futures.py), streams (streams.py), retries, backoff, deadlines and the circuit breaker
-- (retry.py), the choice of demonstrations with the exit code and what each prints (cli.py), and
-- the pipeline of examples/pipeline_demo.py, which puts the bucket, the retries, the streams and
-- the worker pool together. The modules have no shared state; they meet in the exceptions of
-- errors.py and in asyncio, throttle of streams.py uses the token bucket of sync.py, and
-- futures.py tells how tasks end as tasks.py does.
--
-- How concurrency is modelled. A coroutine runs alone between two `await`s. Each such stretch is
-- one function on the object's state, and an interleaving is a sequence of events, each of which
-- runs one stretch of one task, so that whatever order the event loop chooses is some sequence.
-- Where a single call is followed through its awaits (`retry`, `CircuitBreaker.call`,
-- `TokenBucket.acquire`), what it awaits is an argument that may change the shared object, and the
-- state of the outside world is threaded through. What `asyncio.wait` hands over is an argument
-- too: a list of batches, a schedule or a choice. An exception is a value of the result, and keeps
-- the state.
--
-- Files. Base has library names, Boolean tests and lemmas on lists. Errors has exceptions and
-- coroutines, Errors/Message the message of ConcurrencyError. Float is the interface of Python's
-- floats, with laws that IEEE doubles keep; Whole is its instance at whole numbers, at which tests
-- run. Basics models basics.py. Retry/Policy, Retry/Loop, Retry/Deadline and Retry/Breaker model
-- RetryPolicy, retry, the deadlines and CircuitBreaker of retry.py; Retry/Script runs `retry`
-- against a scripted service, and Retry/Machine is an abstract view of CircuitBreaker.
-- Sync/Bucket, Sync/RwLock, Sync/Counters and Sync/Resources model TokenBucket, ReadWriteLock, the
-- two counters, ResourcePool and Once of sync.py; Sync/Semaphore is an abstract view of
-- ResourcePool. Queues/Pool has the methods of WorkerPool of queues.py and Queues/Events their
-- interleavings; Queues/Closing has aclose and the context manager; Queues/Bounded models produce
-- and drain_now, and Queues/Batching batched. Tasks/Group has cancel_and_wait, run_all and
-- run_all_settled, Tasks/Race first_result, and Tasks/Registry TaskRegistry, all of tasks.py, with
-- its scope in Tasks/Scope; the children of a group are a list of tasks in input order.
-- Futures/Bridge models settle and CallbackBridge, and Futures/Fanout as_completed_results and
-- gather_with_index, of futures.py; Futures/Waiting and Sync/Waiting have wait_any, shielded and
-- wait_for_event. Streams/Source, Streams/Amap, Streams/Merge, Streams/Until and Streams/Throttle
-- model collect, amap, merge, take_until and throttle of streams.py, each consumed to its end, and
-- Streams/Break a consumer of amap that breaks off, and Streams/Chain collect and take_until over
-- amap; Streams/Rounds is a rule for the rounds of amap. Cli models main and _run of cli.py,
-- Cli/Demos and Cli/Pool its demonstrations. Pipeline has FlakyServer, fetch and parse of
-- examples/pipeline_demo.py, Pipeline/Traffic its requests side by side, Pipeline/Batching the
-- streams of its main, and Pipeline/Writing what follows in it. Sync/Keeping is a rule for what a
-- call of acquire leaves as it is. The other modules beside them are proofs, and each Tests is
-- tests and instances.
--
-- Bounds and fuel. Integers are natural numbers: every count of the program starts at 0 and an
-- integer argument below 1 is refused by the code as 0 is. The retry loop recurs on the attempts
-- left. The loop of `TokenBucket.acquire` runs on fuel, of which two rounds are enough if the
-- sleep does what the theorem on it asks. The loop of `batched` runs on fuel too: one round for
-- each timeout, each item and the end. `amap` runs on a schedule, with one entry for each round,
-- and `merge` on fuel for each item and the end of each source. `drain` runs on the rounds in
-- which it waits for tasks. Nothing else loops.
--
-- Not modelled: make_future of futures.py; consumers that break off a merge, a take_until, a
-- throttle or a batched before its end. The wording of messages is left out, and the count that
-- produce returns; the end of a registered task and its callback are one event.
pub mod Base
pub mod Errors
pub mod Float
pub mod Retry
pub mod Sync
pub mod Queues
pub mod Tasks
pub mod Futures
pub mod Streams
pub mod Basics
pub mod Cli
pub mod Pipeline
pub mod Whole
