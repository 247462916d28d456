-- ===== src/Core/Lot/Timeout.antt =====
-- core/src/parking_lot.rs, the second half of `park`: a thread whose deadline has passed.
pub mod Laws
mod Tests
use parking_lot.Prelude.{
  ℕ, zero, suc, Bool, true, false, not, ◌&&◌, Option, none, some, ◌==◌, if◌then◌else◌, ◌>>=◌,
}
use parking_lot.Core.Queue.{
  Ptr, null, next_of, key_of, Locked, Link, at_head, at_next, unlink, scan,
}
use parking_lot.Core.Lot.{Lot, home, lock_bucket, unlock_bucket, ParkResult, unparked, timed_out}

-- The loop that removes the thread `me`, and what it tells the callback: whether no other thread
-- waits for the key. `some (l, none)`: the queue ends before the thread is met.
pub timeout_loop :
    ℕ
    → (me key : ℕ) → Link
    → (current previous : Ptr) → (was_last_thread : Bool) → Locked
    → Option (Locked × Option Bool)
timeout_loop zero me key link current previous was_last_thread l = none
timeout_loop (suc f) me key link current previous was_last_thread l =
    let next = next_of l.memory current in
    let was_last_thread' = if key_of l.memory current == key then false else was_last_thread in
    let rest = timeout_loop f me key (at_next current) next current was_last_thread' l in
    let l' = unlink link previous current next l in
    let more = if l.bucket.queue_tail == current then some false else scan f key l'.memory next in
    if current == null
    then some (l, none)
    else if current == me
    then (more >>= λ b. some (l', some (was_last_thread && not b)))
    else rest

module _ {S : Type 0} (timed_out_callback : (key : ℕ) → (was_last_thread : Bool) → S → S) where
  called : (key : ℕ) → Option Bool → S → S
  called key none c = c
  called key (some was_last_thread) c = timed_out_callback key was_last_thread c

  -- `park` after `park_until` has answered that the deadline has passed. The key is read again, for
  -- the thread may have been requeued.
  pub park_timeout_at : (fuel me : ℕ) → Lot × S → Option (Lot × S × ParkResult)
  park_timeout_at fuel me (s, c) =
      let key = key_of s.memory me in
      let b = home s key in
      let run =
        timeout_loop fuel me key at_head (s.entries b).queue_head null true (lock_bucket s b) in
      if (s.memory me).parker == 0
      then some (s, c, unparked (s.memory me).unpark_token)
      else (run >>= λ r. some (unlock_bucket s b r.0, called key r.1 c, timed_out))
