-- ===== src/Core/Lot/Requeue.antt =====
-- core/src/parking_lot.rs: `unpark_requeue`, with the buckets of both keys locked.
pub mod Parts
pub mod Fates
pub mod Chain
pub mod Rounds
pub mod Round
pub mod Loop
pub mod Append
pub mod Buckets
pub mod Finish
pub mod Laws
mod Tests
use parking_lot.Prelude.{
  ℕ, zero, suc, ◌+◌, Bool, true, false, not, ◌&&◌, Option, none, some, ◌==◌, if◌then◌else◌, ◌>>=◌,
  update,
}
use parking_lot.Core.FairTimeout.{should_timeout}
use parking_lot.Core.Queue.{
  Ptr, null, Memory, next_of, key_of, Bucket, Locked, Link, at_head, at_next, set_next, unlink,
  scan,
}
use parking_lot.Core.Lot.{
  Lot, home, lock_bucket, unlock_bucket, UnparkResult, default_result, RequeueOp, abort,
  unpark_one_requeue_rest, requeue_all, unpark_one, requeue_one, wake, draw_fair,
}

abbrev pub is_none : {A : Type 0} → Option A → Bool
is_none none = true
is_none (some a) = false

abbrev pub is_abort : RequeueOp → Bool
is_abort abort = true
is_abort _ = false

-- `op == RequeueOp::UnparkOneRequeueRest || op == RequeueOp::UnparkOne`
abbrev pub unparks : RequeueOp → Bool
unparks unpark_one_requeue_rest = true
unparks unpark_one = true
unparks _ = false

-- `op == RequeueOp::UnparkOne || op == RequeueOp::RequeueOne`
abbrev pub takes_one : RequeueOp → Bool
takes_one unpark_one = true
takes_one requeue_one = true
takes_one _ = false

-- The variables of the loop, with `bucket_from` locked.
pub record Moving : Type 0 where
  pub locked : Locked
  pub wakeup_thread : Option Ptr
  pub requeue_threads : Ptr
  pub requeue_threads_tail : Ptr
  pub result : UnparkResult

abbrev pub start_moving : Locked → Moving
start_moving l = record {
  locked = l;
  wakeup_thread = none;
  requeue_threads = null;
  requeue_threads_tail = null;
  result = default_result;
}

-- `requeue_threads` grows by the current thread, which takes the new key.
pub push_requeued : (key_to : ℕ) → Ptr → Moving → Moving
push_requeued key_to current st =
    let m =
      if st.requeue_threads == null
      then st.locked.memory
      else set_next st.requeue_threads_tail current st.locked.memory in
    record st {
      locked = record st.locked { memory = update m current (record (m current) { key = key_to }) };
      requeue_threads = if st.requeue_threads == null then current else st.requeue_threads;
      requeue_threads_tail = current;
      result = record st.result { requeued_threads = st.result.requeued_threads + 1 };
    }

module _ (op : RequeueOp) (key_from key_to : ℕ) where
  -- The current thread waits for `key_from`.
  pub take_current : Link → (current previous : Ptr) → Moving → Moving
  take_current link current previous st =
      let l = unlink link previous current (next_of st.locked.memory current) st.locked in
      if unparks op && is_none st.wakeup_thread
      then record st {
        locked = l;
        wakeup_thread = some current;
        result = record st.result { unparked_threads = 1 };
      }
      else push_requeued key_to current (record st { locked = l })

  pub requeue_loop : ℕ → Link → (current previous : Ptr) → Moving → Option Moving
  requeue_loop zero link current previous st = none
  requeue_loop (suc f) link current previous st =
      let next = next_of st.locked.memory current in
      let here = key_of st.locked.memory current == key_from in
      let taken = take_current link current previous st in
      let more = scan f key_from taken.locked.memory next in
      let rest =
        requeue_loop f (if here then link else at_next current) next
          (if here then previous else current) (if here then taken else st) in
      if current == null
      then some st
      else if here && takes_one op
      then (more >>= λ b. some (
          if b
          then record taken { result = record taken.result { have_more_threads = true } }
          else taken))
      else rest

-- `bucket_to` takes the requeued threads behind its own.
pub append_requeued : (threads tail : Ptr) → Locked → Locked
append_requeued threads tail l =
    let m = set_next tail null l.memory in
    if threads == null
    then l
    else if l.bucket.queue_head == null
    then record { memory = m; bucket = record l.bucket { queue_head = threads; queue_tail = tail } }
    else (record {
      memory = set_next l.bucket.queue_tail threads m;
      bucket = record l.bucket { queue_tail = tail };
    })

-- The first half of the writes: out of `bucket_from`, then into `bucket_to`, which may be the same.
pub requeued : (from to : ℕ) → Moving → Lot → Lot
requeued from to st s =
    let s' = unlock_bucket s from st.locked in
    unlock_bucket s' to
      (append_requeued st.requeue_threads st.requeue_threads_tail (lock_bucket s' to))

abbrev pub wake_chosen : Option Ptr → ℕ → Memory → Memory
wake_chosen none token m = m
wake_chosen (some p) token m = wake p token m

module _ {S : Type 0} (now : ℕ) (callback : RequeueOp → UnparkResult → S → ℕ × S) where
  -- The rest of `unpark_requeue`: the fairness, the callback, the token and the wake-up.
  pub finish_requeue : RequeueOp → (from : ℕ) → Moving → Lot × S → Lot × S × UnparkResult
  finish_requeue op from st (s, c) =
      let (fair, l) = draw_fair now (lock_bucket s from) in
      let drawn = not (st.result.unparked_threads == 0) in
      let s' = if drawn then unlock_bucket s from l else s in
      let result = if drawn then record st.result { be_fair = fair } else st.result in
      let (token, c') = callback op result c in
      (record s' { memory = wake_chosen st.wakeup_thread token s'.memory }, c', result)

  pub unpark_requeue_at :
      (validate : S → RequeueOp × S)
      → (fuel key_from key_to : ℕ) → Lot × S
      → Option (Lot × S × UnparkResult)
  unpark_requeue_at validate fuel key_from key_to (s, c) =
      let (op, c') = validate c in
      let from = home s key_from in
      let run =
        requeue_loop op key_from key_to fuel at_head (s.entries from).queue_head null
          (start_moving (lock_bucket s from)) in
      if is_abort op
      then some (s, c', default_result)
      else (run >>= λ st. some (finish_requeue op from st (requeued from (home s key_to) st s, c')))
