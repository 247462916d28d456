-- ===== src/Lib.antt =====
-- parking_lot: locks of one byte, whose waiting threads are parked in queues in a global table.
--
-- The crate has two layers. core/src/parking_lot.rs keeps a table of buckets; a bucket has a linked
-- queue of parked threads, each with the key (an address) on which it waits. A lock (src/raw_mutex.rs)
-- is one byte of atomic state: its fast paths are one compare-exchange, and its slow paths call `park`
-- and `unpark_one` with closures that run while the bucket is locked.
--
--   Prelude          shared names, Boolean tests, lists, families of values, bits
--   Core.FairTimeout FairTimeout of core/src/parking_lot.rs: when an unlock has to be fair
--   Core.SpinWait    core/src/spinwait.rs
--   Core.Hash        `hash` and the sizes in `HashTable::new`
--   Core.Locking     lock_bucket, lock_bucket_checked, lock_bucket_pair and the locks of grow_hashtable
--   Core.Queue       ThreadData, Bucket and the loops over the linked queue of a bucket
--   Core.Lot         `park` (up to the sleep, and after it), `unpark_one` and `unpark_all` on the table of
--                    buckets; its children Filter, Requeue and Grow are `unpark_filter`,
--                    `unpark_requeue` and `grow_hashtable`
--   Sync.RawMutex    src/raw_mutex.rs, one shared access at a time, and any number of threads over it;
--                    its child RawFairMutex is src/raw_fair_mutex.rs
--   Sync.Once        src/once.rs, in the same way; a closure that panics is a closure that ends badly
--   Sync.RawRwLock   src/raw_rwlock.rs, in the same way
--   Sync.RawCondvar  src/raw_condvar.rs, a critical section at a time
--   LockApi.Remutex  RawReentrantMutex of lock_api/src/remutex.rs over the threads of Sync.RawMutex
--
-- The table. A thread's data is named by a number, its address; 0 is the null pointer. `Lot` is the
-- memory of all threads' data, the buckets and the number of hash bits. An operation runs while it
-- holds the lock of its bucket, so it is one function on `Lot`, and what its closures capture is a
-- state that they take and return. `IsLot` says which threads stand in which bucket, and `view` is
-- the abstract table: for each key the threads that wait for it, oldest first. The loops over a queue
-- take fuel, and the theorems give enough: more than the threads of the bucket.
--
-- The mutex. `step` is one shared access of one thread, from the program counter `Pc`; what the
-- thread does between its shared accesses is part of the step. `Sync.RawMutex.System` interleaves any
-- number of threads in any order; a weak compare-exchange may fail, a deadline may pass and a bucket's
-- timer may answer anything, each by a choice in `Action`. The mutex's queue is the list of the
-- threads parked at its address, and Sync.RawMutex.Refinement relates it to the table.
--
-- `Once` is modelled as the mutex is. Its `unpark_all` empties the queue in one step under the bucket's
-- lock, which Sync.Once.Refinement relates to the table. A system counts the closures that have returned,
-- and the `Once` that the threads share comes from `Once::new` or from `Once::new_completed`.
--
-- The reader-writer lock has two queues: the main one and that of the thread which has set the writer
-- bit and waits for the readers to leave. Its word is kept as its bits and its reader count, which
-- Sync.RawRwLock.Usize relates to the `usize`. `hold` reads off a thread's place in the code what it
-- holds of the lock; the invariant is that the word agrees with what all threads hold. Each step is of
-- one of the kinds of Sync.RawRwLock.System.Moves: it changes the hold of its own thread (`Swap`), or
-- hands its lock over to the threads that the filter of `wake_parked_threads` takes out (`Grant`). The
-- callback's loops of compare-exchanges are one step, and lock elision is a compare-exchange.
-- Sync.RawRwLock.Refinement relates the step that wakes threads to `unpark_filter` on the table.
--
-- The condition variable is modelled by its critical sections: the start of a wait, with the unlock of
-- the mutex in `before_sleep` right behind it, as if no other thread's step came between, the end of
-- one whose deadline has passed, and the two notifications, each a function on the table, on the variable's
-- `state` and on the words of the mutexes, which are named by their addresses. `state` is read before
-- the buckets are locked; that value is an argument of the slow paths, so that it may be out of date.
-- The loop of `mark_parked_if_locked` is `mark_loop` of Sync.RawMutex.Marking, and in the closures it is
-- one step. `unpark_requeue` takes threads out of one bucket and appends them to another, or to the
-- same one; `requeued` writes the first back before it reads the second. Growing moves all threads to
-- a new table in one step, under the locks of all buckets. That the locks are held is the subject of
-- Core.Locking, a step relation of its own: a table is a number there, a bucket's lock is its owner, and of
-- the threads' data it keeps the keys, which a requeue changes.
--
-- The reentrant mutex is generic in its inner mutex; here that is `RawMutex`, and its state contains
-- a whole system of Sync.RawMutex: a call of the inner mutex begins and ends in steps of the outer
-- one, and runs by its own steps between them. The thread identifiers are a function `id`; that they
-- are distinct and not 0 is what `GetThreadId` documents.
--
-- Not modelled: memory orderings (atomics are sequentially consistent), the deadlock detector and its
-- hooks, spurious returns of the system's wait (its loop is one step), the first
-- allocation of the table, `is_locked`, which only reads, the queue inside the lock of a bucket
-- (core/src/word_lock.rs), and the guards of lock_api, which call the raw locks. Numbers are natural
-- numbers with the wrap-around written out where a word can wrap; the shift of `hash` counts modulo 64,
-- as in a release build, and is used for 1 to 64 bits.
pub mod Prelude
pub mod Core
pub mod Sync
pub mod LockApi
