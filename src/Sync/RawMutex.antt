-- ===== src/Sync/RawMutex.antt =====
-- src/raw_mutex.rs: one thread of `RawMutex`, a shared access at a time.
-- Atomics are sequentially consistent. `word` is the mutex's `state`, a `u8` of which two bits are
-- used; `bucket` says which thread holds the lock of the mutex's bucket, and `queue` the threads
-- parked at the mutex's address, oldest first: what core/src/parking_lot.rs keeps under that lock.
-- A compare-exchange whose failure is not looked at and the load behind it are one step: since the
-- exchange is weak, the step that fails can be taken when the load is.
pub mod System
pub mod Refinement
pub mod Marking
pub mod RawFairMutex
mod Tests
use parking_lot.Prelude.{
  ℕ, zero, suc, ◌+◌, Bool, true, false, not, ◌&&◌, ◌||◌, Option, none, some, List, [], ◌∷◌, ◌++◌,
  ◌==◌, if◌then◌else◌, is_empty, keep, has_bit, set_bit, clear_bit, has,
}
use parking_lot.Core.SpinWait
use parking_lot.Core.SpinWait.{SpinWait}
use parking_lot.Core.Lot.{UnparkResult, default_result}

abbrev pub token_normal : ℕ
token_normal = 0

abbrev pub token_handoff : ℕ
token_handoff = 1

abbrev pub locked_bit : ℕ
locked_bit = 1

abbrev pub parked_bit : ℕ
parked_bit = 2

-- Where a thread stands. `timeout`: it calls with a deadline. `relock`: it is in `bump`.
pub data Pc : Type 0 where
  idle : Pc
  start : (timeout : Bool) → Pc  -- `lock`, before its compare-exchange
  slow : (timeout : Bool) (state : ℕ) (spinwait : SpinWait) → Pc  -- the loop of `lock_slow`
  parking : (timeout : Bool) → Pc  -- `park`, before it locks the bucket
  validating : (timeout : Bool) → Pc  -- the bucket locked
  enqueuing : (timeout : Bool) → Pc  -- validated, the bucket locked
  abandoning : (timeout : Bool) → Pc  -- not valid, the bucket locked
  asleep : (timeout : Bool) → Pc  -- in `parker.park`
  timing : Pc  -- the deadline has passed, before `lock_bucket_checked`
  timed : Pc  -- the bucket locked
  reload : (timeout : Bool) → Pc  -- the end of the loop's body
  trying : (state : ℕ) → Pc  -- the loop of `try_lock`
  held : Pc
  unlocking : (force_fair relock : Bool) → Pc  -- `unlock_slow`, before `unpark_one` locks the bucket
  unparking : (force_fair relock : Bool) → Pc  -- the bucket locked

-- The calls that a thread may make, and the choices that are not the thread's own. `lucky` is
-- false where a weak compare-exchange fails for no reason.
pub data Action : Type 0 where
  call_lock : (timeout : Bool) → Action
  call_try_lock : Action
  call_unlock : (fair : Bool) → Action
  call_bump : Action
  run : (lucky : Bool) → Action
  expire : Action
  unpark : (be_fair : Bool) → Action

-- What the threads share, but for the tokens, which each thread keeps.
pub record Shared : Type 0 where
  pub word : ℕ
  pub bucket : Option ℕ
  pub queue : List ℕ

-- A thread: where it stands, and the token that an unparker has left it.
pub record Thread : Type 0 where
  pub pc : Pc
  pub mail : Option ℕ

-- The outcome of a step: the shared state, the thread, and a token for another thread.
pub record Effect : Type 0 where
  pub shared : Shared
  pub self : Thread
  pub sent : Option (ℕ × ℕ)

abbrev pub goes : Shared → Pc → Option Effect
goes m p = some (record { shared = m; self = record { pc = p; mail = none }; sent = none })

-- The closure of `unlock_slow`: the token, and the new state.
unfoldable pub unlock_callback : (force_fair : Bool) → UnparkResult → ℕ → ℕ × ℕ
unlock_callback force_fair result word =
    if not (result.unparked_threads == 0) && (force_fair || result.be_fair)
    then (token_handoff, if result.have_more_threads then word else locked_bit)
    else (token_normal, if result.have_more_threads then parked_bit else 0)

-- The closure of `park` that removes a parked bit that no thread needs.
pub timed_out_callback : (was_last_thread : Bool) → ℕ → ℕ
timed_out_callback was_last_thread word =
    if was_last_thread then clear_bit parked_bit word else word

-- One round of the loop of `lock_slow`, up to its shared access.
pub slow_step : (lucky timeout : Bool) (state : ℕ) → SpinWait → Shared → Option Effect
slow_step lucky timeout state spinwait m =
    let (spinwait', pauses, spun) = SpinWait.spin spinwait in
    if not (has_bit locked_bit state)
    then (if lucky && (m.word == state)
        then goes (record m { word = set_bit locked_bit state }) held
        else goes m (slow timeout m.word spinwait))
    else if not (has_bit parked_bit state) && spun
    then goes m (slow timeout m.word spinwait')
    else if not (has_bit parked_bit state)
    then (if lucky && (m.word == state)
        then goes (record m { word = set_bit parked_bit state }) (parking timeout)
        else goes m (slow timeout m.word spinwait'))
    else goes m (parking timeout)

-- `ParkResult::Unparked(token)`, in `lock_slow`.
abbrev pub unparked : (timeout : Bool) → ℕ → Pc
unparked timeout token = if token == token_handoff then held else reload timeout

-- What the thread does when it is woken; without a token it sleeps on.
pub wake_step : (timeout : Bool) → Option ℕ → Shared → Option Effect
wake_step timeout none m = none
wake_step timeout (some token) m = goes m (unparked timeout token)

-- The second half of a `park` with a deadline, under the bucket's lock.
pub timed_step : ℕ → Option ℕ → Shared → Option Effect
unfolding timed_out_callback
timed_step me (some token) m = goes (record m { bucket = none }) (unparked true token)
timed_step me none m =
    let others = keep (λ i. not (i == me)) m.queue in
    goes
      (record { word = timed_out_callback (is_empty others) m.word; bucket = none; queue = others })
      idle

-- `unpark_one` under the bucket's lock, with the closure of `unlock_slow`.
pub unpark_step : (force_fair relock be_fair : Bool) → Shared → List ℕ → Option Effect
unpark_step force_fair relock be_fair m [] =
    let (token, word) = unlock_callback force_fair default_result m.word in
    goes (record { word = word; bucket = none; queue = [] }) (if relock then start false else idle)
unpark_step force_fair relock be_fair m (x ∷ others) =
    let (token, word) =
      unlock_callback force_fair
        (record {
          unparked_threads = 1;
          requeued_threads = 0;
          have_more_threads = not (is_empty others);
          be_fair = be_fair;
        })
        m.word in
    some (record {
      shared = record { word = word; bucket = none; queue = others };
      self = record { pc = if relock then start false else idle; mail = none };
      sent = some (x, token);
    })

-- `lock_bucket`, which waits while another thread holds the bucket.
pub lock_bucket : ℕ → Option ℕ → Shared → Pc → Option Effect
lock_bucket me none m p = goes (record m { bucket = some me }) p
lock_bucket me (some _) m p = none

-- One step of thread `me`: `none` if it cannot take that step now.
unfoldable pub step : ℕ → Action → Shared → Pc → Option ℕ → Option Effect
step me (call_lock timeout) m idle mail = goes m (start timeout)
step me call_try_lock m idle mail = goes m (trying m.word)
step me (call_unlock fair) m held mail =
    if m.word == locked_bit
    then goes (record m { word = 0 }) idle
    else goes m (unlocking fair false)
step me call_bump m held mail =
    if has_bit parked_bit m.word then goes m (unlocking true true) else goes m held
step me (run lucky) m (start timeout) mail =
    if lucky && (m.word == 0)
    then goes (record m { word = locked_bit }) held
    else goes m (slow timeout m.word SpinWait.new)
step me (run lucky) m (slow timeout state spinwait) mail = slow_step lucky timeout state spinwait m
step me (run lucky) m (parking timeout) mail = lock_bucket me m.bucket m (validating timeout)
step me (run lucky) m (validating timeout) mail =
    if m.word == set_bit parked_bit locked_bit
    then goes m (enqueuing timeout)
    else goes m (abandoning timeout)
step me (run lucky) m (enqueuing timeout) mail =
    goes (record m { queue = m.queue ++ me ∷ []; bucket = none }) (asleep timeout)
step me (run lucky) m (abandoning timeout) mail = goes (record m { bucket = none }) (reload timeout)
step me (run lucky) m (asleep timeout) mail = wake_step timeout mail m
step me expire m (asleep true) mail =
    some (record { shared = m; self = record { pc = timing; mail = mail }; sent = none })
step me (run lucky) m timing mail = elim m.bucket [
  | none ↦ some (record {
    shared = record m { bucket = some me };
    self = record { pc = timed; mail = mail };
    sent = none;
  })
  | some _ ↦ none
]
step me (run lucky) m timed mail = timed_step me mail m
step me (run lucky) m (reload timeout) mail = goes m (slow timeout m.word SpinWait.new)
step me (run lucky) m (trying state) mail =
    if has_bit locked_bit state
    then goes m idle
    else if lucky && (m.word == state)
    then goes (record m { word = set_bit locked_bit state }) held
    else goes m (trying m.word)
step me (run lucky) m (unlocking force_fair relock) mail =
    lock_bucket me m.bucket m (unparking force_fair relock)
step me (unpark be_fair) m (unparking force_fair relock) mail =
    unpark_step force_fair relock be_fair m m.queue
step me _ m _ mail = none
