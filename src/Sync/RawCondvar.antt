-- ===== src/Sync/RawCondvar.antt =====
-- src/raw_condvar.rs: `RawCondvar` over the parking lot.
-- A mutex is named by its address. The `before_sleep` closure of a wait runs `RawMutex::unlock` on
-- the table; the `RawMutex::lock` behind the sleep is that of Sync.RawMutex.
pub mod Invariant
pub mod Unlock
pub mod Begin
pub mod Expire
pub mod Notify
pub mod NotifyOne
pub mod NotifyAll
mod Tests
use parking_lot.Prelude.{
  ℕ, ◌+◌, Bool, true, false, not, ◌&&◌, ◌||◌, Option, none, some, ◌==◌, if◌then◌else◌, ◌>>=◌,
  update,
}
use parking_lot.Core.Queue.{Ptr, null}
use parking_lot.Core.Lot.{
  Lot, UnparkResult, ParkResult, unparked, invalid, timed_out, RequeueOp, abort,
  unpark_one_requeue_rest, requeue_all, unpark_one, requeue_one, park_start, unpark_one_at,
}
use parking_lot.Core.Lot.Timeout.{park_timeout_at}
use parking_lot.Core.Lot.Requeue.{unpark_requeue_at}
use parking_lot.Sync.RawMutex.{token_normal, token_handoff, locked_bit, unlock_callback}
use parking_lot.Sync.RawMutex.Marking.{mark_parked_if_locked, mark_parked}

-- What the closures capture: the condition variable's `state`, a pointer to a mutex, and the words
-- of the mutexes.
pub record Shared : Type 0 where
  pub state : Ptr
  pub words : Ptr → ℕ

-- The variables of `wait_until_internal`.
pub record Waiting : Type 0 where
  pub shared : Shared
  pub bad_mutex : Bool
  pub requeued : Bool

abbrev pub park_token : ℕ
park_token = 0

unfoldable pub wait_validate : (mutex : Ptr) → Waiting → Bool × Waiting
wait_validate mutex w =
    if w.shared.state == null
    then (true, record w { shared = record w.shared { state = mutex } })
    else if not (w.shared.state == mutex)
    then (false, record w { bad_mutex = true })
    else (true, w)

unfoldable pub wait_timed_out : (addr key : ℕ) → (was_last_thread : Bool) → Waiting → Waiting
wait_timed_out addr key was_last_thread w =
    let requeued = not (key == addr) in
    record w {
      requeued = requeued;
      shared =
          if not requeued && was_last_thread then record w.shared { state = null } else w.shared;
    }

-- How `wait_until_internal` goes on from `park`.
pub data Wait : Type 0 where
  panics : Wait
  returns : (relocks : Bool) → (timed_out : Bool) → Wait

abbrev pub is_unparked : ParkResult → Bool
is_unparked (unparked token) = true
is_unparked _ = false

-- `result == ParkResult::Unparked(TOKEN_HANDOFF)`
abbrev pub handed_off : ParkResult → Bool
handed_off (unparked token) = token == token_handoff
handed_off _ = false

pub wait_end : ParkResult → Waiting → Wait
wait_end result w =
    if w.bad_mutex
    then panics
    else returns (not (handed_off result)) (not (is_unparked result || w.requeued))

abbrev pub start_waiting : Shared → Waiting
start_waiting c = record { shared = c; bad_mutex = false; requeued = false }

-- The closure of `RawMutex::unlock_slow(false)` on the word of the mutex at `mutex`.
unfoldable pub mutex_callback : (mutex : Ptr) → UnparkResult → Shared → ℕ × Shared
mutex_callback mutex result c =
    let (token, word) = unlock_callback false result (c.words mutex) in
    (token, record c { words = update c.words mutex word })

-- `RawMutex::unlock` of the mutex at `mutex`.
unfoldable pub mutex_unlock : (now fuel : ℕ) (mutex : Ptr) → Lot × Shared → Option (Lot × Shared)
mutex_unlock now fuel mutex (s, c) =
    if c.words mutex == locked_bit
    then some (s, record c { words = update c.words mutex 0 })
    else unpark_one_at now (mutex_callback mutex) fuel mutex (s, c) >>= λ r. some (r.0, r.1)

-- A call of `wait`, up to the sleep or the end of the call.
pub data Begun : Type 0 where
  sleeps : Lot → Waiting → Begun
  ends : Lot → Shared → Wait → Begun

-- `before_sleep` unlocks the mutex, if the thread was put into the queue. If it was not, `park` has
-- left the table as it was `before`.
pub begun : (now fuel mutex : ℕ) → Lot → Option Lot × Waiting → Option Begun
begun now fuel mutex before (some s, w) =
    mutex_unlock now fuel mutex (s, w.shared) >>= λ r. some (sleeps r.0 (record w { shared = r.1 }))
begun now fuel mutex before (none, w) = some (ends before w.shared (wait_end invalid w))

pub wait_begin : (now fuel me addr mutex : ℕ) (timeout : Bool) → Lot × Shared → Option Begun
wait_begin now fuel me addr mutex timeout (s, c) =
    begun now fuel mutex s
      (park_start me addr park_token timeout (wait_validate mutex) (s, start_waiting c))

-- The end of a wait whose deadline has passed.
pub wait_expire : (fuel me addr : ℕ) → Lot × Waiting → Option (Lot × Shared × Wait)
wait_expire fuel me addr (s, w) = park_timeout_at (wait_timed_out addr) fuel me (s, w) >>= λ r.
    some (r.0, r.1.shared, wait_end r.2 r.1)

unfoldable pub notify_one_validate : (mutex : Ptr) → Shared → RequeueOp × Shared
notify_one_validate mutex c =
    let (locked, word) = mark_parked_if_locked (c.words mutex) in
    if not (c.state == mutex)
    then (abort, c)
    else if locked
    then (requeue_one, record c { words = update c.words mutex word })
    else (unpark_one, c)

unfoldable pub notify_one_callback : RequeueOp → UnparkResult → Shared → ℕ × Shared
notify_one_callback op result c =
    (token_normal, if not result.have_more_threads then record c { state = null } else c)

unfoldable pub notify_all_validate : (mutex : Ptr) → Shared → RequeueOp × Shared
notify_all_validate mutex c =
    let (locked, word) = mark_parked_if_locked (c.words mutex) in
    let c' = record c { state = null } in
    if not (c.state == mutex)
    then (abort, c)
    else if locked
    then (requeue_all, record c' { words = update c.words mutex word })
    else (unpark_one_requeue_rest, c')

-- `op == RequeueOp::UnparkOneRequeueRest`
abbrev pub is_rest : RequeueOp → Bool
is_rest unpark_one_requeue_rest = true
is_rest _ = false

unfoldable pub notify_all_callback : (mutex : Ptr) → RequeueOp → UnparkResult → Shared → ℕ × Shared
notify_all_callback mutex op result c = (
  token_normal,
  if is_rest op && not (result.requeued_threads == 0)
      then record c { words = update c.words mutex (mark_parked (c.words mutex)) }
      else c,
)

module _ (now fuel addr : ℕ) where
  -- `mutex` is the state as it was read before the buckets were locked.
  pub notify_one_slow : (mutex : Ptr) → Lot × Shared → Option (Lot × Shared × Bool)
  notify_one_slow mutex (s, c) =
      unpark_requeue_at now notify_one_callback (notify_one_validate mutex) fuel addr mutex (s, c)
      >>= λ r. some (r.0, r.1, not (r.2.unparked_threads + r.2.requeued_threads == 0))

  pub notify_all_slow : (mutex : Ptr) → Lot × Shared → Option (Lot × Shared × ℕ)
  notify_all_slow mutex (s, c) =
      unpark_requeue_at now (notify_all_callback mutex) (notify_all_validate mutex) fuel addr mutex
        (s, c)
      >>= λ r. some (r.0, r.1, r.2.unparked_threads + r.2.requeued_threads)

  pub notify_one : Lot × Shared → Option (Lot × Shared × Bool)
  notify_one (s, c) = if c.state == null then some (s, c, false) else notify_one_slow c.state (s, c)

  pub notify_all : Lot × Shared → Option (Lot × Shared × ℕ)
  notify_all (s, c) = if c.state == null then some (s, c, 0) else notify_all_slow c.state (s, c)
