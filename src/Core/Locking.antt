-- ===== src/Core/Locking.antt =====
-- core/src/parking_lot.rs: how the buckets are locked while the table may grow: `lock_bucket`,
-- `lock_bucket_checked`, `lock_bucket_pair`, `unlock_bucket_pair` and `grow_hashtable`.
-- Tables are numbered in the order of their publication. A thread's step is one access of HASHTABLE
-- or of a thread's key, or one operation on a bucket's lock.
pub mod System
mod Tests
use parking_lot.Prelude.{
  ℕ, zero, suc, ◌+◌, ◌*◌, ◌^◌, Bool, true, false, not, ◌&&◌, ◌||◌, Option, none, some, ◌==◌, ltb,
  leb, if◌then◌else◌, update,
}
use parking_lot.Core.Hash.{hash, load_factor}

-- Where a thread stands. `own`: with the key of its own data, in `lock_bucket_checked`.
pub data Pc : Type 0 where
  idle : Pc
  reading : (key : ℕ) → Pc  -- `lock_bucket`, the top of the loop
  locking : (key table : ℕ) → Pc
  checking : (key table : ℕ) → Pc  -- the bucket locked
  inside : (key table : ℕ) → Pc  -- returned
  reading_own : Pc
  reading_key : (table : ℕ) → Pc
  locking_own : (key table : ℕ) → Pc
  checking_own : (key table : ℕ) → Pc
  comparing_own : (key table : ℕ) → Pc  -- the table current
  inside_own : (key table : ℕ) → Pc
  reading_pair : (key1 key2 : ℕ) → Pc
  locking_pair : (key1 key2 table : ℕ) → Pc
  checking_pair : (key1 key2 table : ℕ) → Pc  -- the lower bucket locked
  locking_second : (key1 key2 table : ℕ) → Pc
  inside_pair : (key1 key2 table : ℕ) → Pc
  leaving_pair : (key1 key2 table : ℕ) → Pc  -- `unlock_bucket_pair`, the first bucket unlocked
  growing : (num_threads : ℕ) → Pc  -- `grow_hashtable`, the top of the loop
  sweeping : (num_threads table locked : ℕ) → Pc  -- so many buckets locked
  backing : (num_threads table unlocked : ℕ) → Pc  -- not current: so many buckets unlocked
  moving : (table : ℕ) → Pc  -- all buckets locked, the table current
  finishing : (table unlocked : ℕ) → Pc  -- the new table published

-- The calls, and what a thread does to the keys in its critical section.
pub data Action : Type 0 where
  call_lock : (key : ℕ) → Action
  call_own : Action
  call_pair : (key1 key2 : ℕ) → Action
  call_grow : (num_threads : ℕ) → Action
  store_key : Action
  requeue : (thread : ℕ) → Action
  run : Action

-- `table`: HASHTABLE. `owner`: 0 where a bucket is not locked, else the number of the thread that
-- has locked it, plus one. `keys`: the key in each thread's data.
pub record Shared : Type 0 where
  pub table : ℕ
  pub owner : (table bucket : ℕ) → ℕ
  pub keys : ℕ → ℕ

abbrev pub goes : Shared → Pc → Option (Shared × Pc)
goes m p = some (m, p)

abbrev pub set_owner : (table bucket owner : ℕ) → Shared → Shared
set_owner t b o m = record m { owner = λ u c. if u == t && c == b then o else m.owner u c }

-- `bucket.mutex.lock()`, which waits while the bucket is locked, and `bucket.mutex.unlock()`.
abbrev pub lock : (me table bucket : ℕ) → Shared → Pc → Option (Shared × Pc)
lock me t b m p = if m.owner t b == 0 then goes (set_owner t b (suc me) m) p else none

abbrev pub unlock : (table bucket : ℕ) → Shared → Pc → Option (Shared × Pc)
unlock t b m p = goes (set_owner t b 0 m) p

-- `bits`: the `hash_bits` of each table.
module _ (bits : ℕ → ℕ) where
  abbrev pub len : ℕ → ℕ
  len t = 2 ^ bits t

  abbrev pub index : (key table : ℕ) → ℕ
  index key t = hash key (bits t)

  abbrev pub lower : (key1 key2 table : ℕ) → ℕ
  lower key1 key2 t = if leb (index key1 t) (index key2 t) then index key1 t else index key2 t

  abbrev pub higher : (key1 key2 table : ℕ) → ℕ
  higher key1 key2 t = if leb (index key1 t) (index key2 t) then index key2 t else index key1 t

  abbrev pub call_step : Action → Shared → Option (Shared × Pc)
  call_step (call_lock key) m = goes m (reading key)
  call_step call_own m = goes m reading_own
  call_step (call_pair key1 key2) m = goes m (reading_pair key1 key2)
  call_step (call_grow num_threads) m = goes m (growing num_threads)
  call_step _ m = none

  -- In the section of `park`, a thread stores its key.
  abbrev pub inside_step : (me key table : ℕ) → Action → Shared → Option (Shared × Pc)
  inside_step me key t store_key m = goes (record m { keys = update m.keys me key }) (inside key t)
  inside_step me key t run m = unlock t (index key t) m idle
  inside_step me key t _ m = none

  -- In the section of `unpark_requeue`, a thread that waits for `key1` may get the key `key2`.
  abbrev pub pair_step : (key1 key2 table : ℕ) → Action → Shared → Option (Shared × Pc)
  pair_step key1 key2 t (requeue x) m =
      if m.keys x == key1
      then goes (record m { keys = update m.keys x key2 }) (inside_pair key1 key2 t)
      else none
  pair_step key1 key2 t run m = unlock t (index key1 t) m (leaving_pair key1 key2 t)
  pair_step key1 key2 t _ m = none

  pub step : (me : ℕ) → Action → Shared → Pc → Option (Shared × Pc)
  step me a m idle = call_step a m
  step me a m (reading key) = goes m (locking key m.table)
  step me a m (locking key t) = lock me t (index key t) m (checking key t)
  step me a m (checking key t) =
      if m.table == t then goes m (inside key t) else unlock t (index key t) m (reading key)
  step me a m (inside key t) = inside_step me key t a m
  step me a m reading_own = goes m (reading_key m.table)
  step me a m (reading_key t) = goes m (locking_own (m.keys me) t)
  step me a m (locking_own key t) = lock me t (index key t) m (checking_own key t)
  step me a m (checking_own key t) =
      if m.table == t then goes m (comparing_own key t) else unlock t (index key t) m reading_own
  step me a m (comparing_own key t) =
      if m.keys me == key then goes m (inside_own key t) else unlock t (index key t) m reading_own
  step me a m (inside_own key t) = unlock t (index key t) m idle
  step me a m (reading_pair key1 key2) = goes m (locking_pair key1 key2 m.table)
  step me a m (locking_pair key1 key2 t) =
      lock me t (lower key1 key2 t) m (checking_pair key1 key2 t)
  step me a m (checking_pair key1 key2 t) =
      if not (m.table == t)
      then unlock t (lower key1 key2 t) m (reading_pair key1 key2)
      else if index key1 t == index key2 t
      then goes m (inside_pair key1 key2 t)
      else goes m (locking_second key1 key2 t)
  step me a m (locking_second key1 key2 t) =
      lock me t (higher key1 key2 t) m (inside_pair key1 key2 t)
  step me a m (inside_pair key1 key2 t) = pair_step key1 key2 t a m
  step me a m (leaving_pair key1 key2 t) =
      if index key1 t == index key2 t then goes m idle else unlock t (index key2 t) m idle
  step me a m (growing num_threads) =
      if leb (load_factor * num_threads) (len m.table)
      then goes m idle
      else goes m (sweeping num_threads m.table 0)
  step me a m (sweeping num_threads t i) =
      if ltb i (len t)
      then lock me t i m (sweeping num_threads t (suc i))
      else if m.table == t
      then goes m (moving t)
      else goes m (backing num_threads t 0)
  step me a m (backing num_threads t i) =
      if ltb i (len t)
      then unlock t i m (backing num_threads t (suc i))
      else goes m (growing num_threads)
  step me a m (moving t) = goes (record m { table = suc m.table }) (finishing t 0)
  step me a m (finishing t i) =
      if ltb i (len t) then unlock t i m (finishing t (suc i)) else goes m idle
