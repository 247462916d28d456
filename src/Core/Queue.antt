-- ===== src/Core/Queue.antt =====
-- core/src/parking_lot.rs: the buckets' linked queues of parked threads.
-- A thread's data is named by its address, 0 is the null pointer, and a memory maps addresses to
-- what they hold.
pub mod Cursor
pub mod Frames
use parking_lot.Prelude.{
  ℕ, zero, suc, Bool, true, false, Option, none, some, ◌==◌, if◌then◌else◌, update,
}
use parking_lot.Core.FairTimeout.{FairTimeout}

abbrev pub Ptr : Type 0
Ptr = ℕ

abbrev pub null : Ptr
null = 0

-- `parker` is the futex word of core/src/thread_parker/linux.rs.
pub record ThreadData : Type 0 where
  pub parker : ℕ
  pub key : ℕ
  pub next_in_queue : Ptr
  pub unpark_token : ℕ
  pub park_token : ℕ
  pub parked_with_timeout : Bool

abbrev pub Memory : Type 0
Memory = Ptr → ThreadData

abbrev pub next_of : Memory → Ptr → Ptr
next_of m p = (m p).next_in_queue

abbrev pub key_of : Memory → Ptr → ℕ
key_of m p = (m p).key

pub record Bucket : Type 0 where
  pub queue_head : Ptr
  pub queue_tail : Ptr
  pub fair_timeout : FairTimeout

-- A locked bucket and the memory.
pub record Locked : Type 0 where
  pub memory : Memory
  pub bucket : Bucket

-- `link`: the cell that holds the pointer to the current thread.
pub data Link : Type 0 where
  at_head : Link
  at_next : Ptr → Link

abbrev pub set_next : Ptr → Ptr → Memory → Memory
set_next p q m = update m p (record (m p) { next_in_queue = q })

abbrev pub set_link : Link → Ptr → Locked → Locked
set_link at_head q s = record s { bucket = record s.bucket { queue_head = q } }
set_link (at_next p) q s = record s { memory = set_next p q s.memory }

-- The removal that each loop makes: `link.set(next)`, and the tail if it was the last thread.
pub unlink : Link → (previous current next : Ptr) → Locked → Locked
unlink link previous current next s =
    let s' = set_link link next s in
    if s'.bucket.queue_tail == current
    then record s' { bucket = record s'.bucket { queue_tail = previous } }
    else s'

-- Whether a thread from `p` on waits for `key`; `none` where the fuel runs out.
pub scan : ℕ → (key : ℕ) → Memory → Ptr → Option Bool
scan zero key m p = none
scan (suc f) key m p =
    let rest = scan f key m (next_of m p) in
    if p == null then some false else if key_of m p == key then some true else rest
