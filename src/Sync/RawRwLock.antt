-- ===== src/Sync/RawRwLock.antt =====
-- src/raw_rwlock.rs: the word of a `RawRwLock`, where a thread stands, and what the threads share.
-- The `usize` is kept as its four bits and its reader count; Sync.RawRwLock.Usize relates these to
-- the source's arithmetic on it. There are two queues: the main one, at the lock's address, and that
-- of the thread which has set the writer bit and waits for the readers to leave, at the address
-- plus one. Each is kept under the lock of its own bucket.
pub mod Usize
pub mod Lock
pub mod Drain
pub mod Wake
pub mod Handoff
pub mod Refinement
mod Tests
pub mod Step
pub mod System
use parking_lot.Prelude.{
  ℕ, ◌+◌, ◌-◌, ◌^◌, Bool, true, false, not, ◌&&◌, ◌||◌, Option, none, some, List, [], ◌==◌, ltb,
  if◌then◌else◌,
}
use parking_lot.Core.SpinWait.{SpinWait}

pub record Word : Type 0 where
  pub parked : Bool
  pub writer_parked : Bool
  pub upgradable : Bool
  pub writer : Bool
  pub readers : ℕ

abbrev pub free : Word
free = record {
  parked = false;
  writer_parked = false;
  upgradable = false;
  writer = false;
  readers = 0;
}

-- A compare-exchange succeeds where the words are equal.
abbrev pub same_bit : Bool → Bool → Bool
same_bit a b = if a then b else not b

abbrev pub same_word : Word → Word → Bool
same_word a b =
    same_bit a.parked b.parked
    && same_bit a.writer_parked b.writer_parked
    && same_bit a.upgradable b.upgradable
    && same_bit a.writer b.writer
    && (a.readers == b.readers)

-- `TOKEN_SHARED`, `TOKEN_UPGRADABLE` and `TOKEN_EXCLUSIVE`: what a thread asks for.
pub data ParkToken : Type 0 where
  token_shared token_upgradable token_exclusive : ParkToken

-- `recursive`: a shared lock that may overtake a waiting writer.
pub data Want : Type 0 where
  shared : (recursive : Bool) → Want
  upgradable exclusive : Want

abbrev pub token_of : Want → ParkToken
token_of (shared recursive) = token_shared
token_of upgradable = token_upgradable
token_of exclusive = token_exclusive

abbrev pub max_readers : ℕ
max_readers = 2 ^ 60

-- `state.checked_add(token)` has a value.
abbrev pub fits : ParkToken → Word → Bool
fits token_exclusive s = true
fits _ s = ltb (s.readers + 1) max_readers

-- `state + token`, and for the exclusive token `state | WRITER_BIT`.
abbrev pub add_token : ParkToken → Word → Word
add_token token_shared s = record s { readers = s.readers + 1 }
add_token token_upgradable s = record s { readers = s.readers + 1; upgradable = true }
add_token token_exclusive s = record s { writer = true }

-- `state - token`
abbrev pub remove_token : ParkToken → Word → Word
remove_token token_shared s = record s { readers = s.readers - 1 }
remove_token token_upgradable s = record s { readers = s.readers - 1; upgradable = false }
remove_token token_exclusive s = record s { writer = false }

-- The condition under which an attempt gives up.
abbrev pub blocked : Want → Word → Bool
blocked (shared recursive) s = s.writer && (not recursive || (s.readers == 0))
blocked _ s = s.writer || s.upgradable

-- `state & validate_flags != 0`
abbrev pub flagged : Want → Word → Bool
flagged (shared recursive) s = s.writer
flagged _ s = s.writer || s.upgradable

-- Why a thread wakes parked threads. `relock`: it is in a bump.
pub data WakeReason : Type 0 where
  unlocks_exclusive : (force_fair relock : Bool) → WakeReason
  unlocks_upgradable : (force_fair relock : Bool) → WakeReason
  downgrades : WakeReason  -- `downgrade` and `downgrade_upgradable`
  downgrades_to_upgradable : WakeReason
  reverts : (upgrading : Bool) → WakeReason  -- a writer whose deadline has passed

-- Where a thread stands. `timeout`: it calls with a deadline. In `wait_for_readers`, `upgrading`: it
-- holds an upgradable lock if it fails.
pub data Pc : Type 0 where
  idle : Pc
  panicked : Pc
  start : (want : Want) (timeout : Bool) → Pc  -- the fast path of a lock
  trying : (want : Want) → Pc  -- the fast path of a `try_lock`
  probing : (want : Want) → Pc  -- before the load in the slow path of a `try_lock`
  probe : (want : Want) (state : Word) → Pc  -- its loop
  loading : (want : Want) (timeout : Bool) → Pc  -- `lock_common`, before it loads the word
  attempt : (want : Want) (timeout : Bool) (state : Word) (spinwait : SpinWait) → Pc  -- its loop
  parking : (want : Want) (timeout : Bool) → Pc  -- `park`, before it locks the bucket
  validating : (want : Want) (timeout : Bool) → Pc  -- the bucket locked
  enqueuing : (want : Want) (timeout : Bool) → Pc  -- validated, the bucket locked
  abandoning : (want : Want) (timeout : Bool) → Pc  -- not valid, the bucket locked
  asleep : (want : Want) (timeout : Bool) → Pc  -- in `parker.park`
  timing : (want : Want) → Pc  -- the deadline has passed, before it locks the bucket
  timed : (want : Want) → Pc  -- the bucket locked
  drain_loading : (upgrading timeout : Bool) (spinwait : SpinWait) → Pc  -- `wait_for_readers`
  draining : (upgrading timeout : Bool) (state : Word) (spinwait : SpinWait) → Pc  -- its loop
  drain_parking : (upgrading timeout : Bool) (spinwait : SpinWait) → Pc
  drain_validating : (upgrading timeout : Bool) (spinwait : SpinWait) → Pc
  drain_enqueuing : (upgrading timeout : Bool) (spinwait : SpinWait) → Pc
  drain_abandoning : (upgrading timeout : Bool) (spinwait : SpinWait) → Pc
  drain_asleep : (upgrading timeout : Bool) (spinwait : SpinWait) → Pc
  drain_timing : (upgrading : Bool) (spinwait : SpinWait) → Pc
  drain_timed : (upgrading : Bool) (spinwait : SpinWait) → Pc
  reverting : (upgrading : Bool) → Pc  -- timed out, before it gives the writer bit back
  held_shared held_upgradable held_exclusive : Pc
  dropping : (relock : Bool) → Pc  -- `unlock_shared`, before it subtracts its reader
  leaving : (relock : Bool) → Pc  -- `unlock_shared_slow`, before it locks the bucket
  signalling : (relock : Bool) → Pc  -- the bucket locked
  freeing : Pc  -- the fast path of `unlock_upgradable` and `unlock_upgradable_fair`
  releasing : (force_fair relock : Bool) → Pc  -- `unlock_upgradable_slow`, before its load
  release : (force_fair relock : Bool) (state : Word) → Pc  -- its first loop
  waking : (why : WakeReason) → Pc  -- `unpark_filter`, before it locks the bucket
  filtering : (why : WakeReason) → Pc  -- the bucket locked
  converting : Pc  -- `try_upgrade_slow`, before its load
  convert : (state : Word) → Pc  -- its loop

pub data Action : Type 0 where
  call_lock : (want : Want) (timeout : Bool) → Action
  call_try_lock : (want : Want) → Action
  call_unlock : (fair : Bool) → Action
  call_bump : Action
  call_upgrade : (timeout : Bool) → Action
  call_try_upgrade : (lucky : Bool) → Action
  call_downgrade : Action
  call_downgrade_to_upgradable : Action
  run : (lucky : Bool) → Action
  expire : Action
  unpark : (be_fair gives_up : Bool) → Action

pub record Shared : Type 0 where
  pub word : Word
  pub bucket : Option ℕ
  pub queue : List ℕ
  pub writer_bucket : Option ℕ
  pub writer_queue : List ℕ
  pub park_token : ℕ → ParkToken

pub record Thread : Type 0 where
  pub pc : Pc
  pub mail : Option ℕ

-- The outcome of a step: the shared state, the thread, and a token for other threads.
pub record Effect : Type 0 where
  pub shared_state : Shared
  pub self : Thread
  pub sent : List ℕ
  pub token : ℕ

abbrev pub effect : Shared → Pc → Option ℕ → Effect
effect m p mail = record {
  shared_state = m;
  self = record { pc = p; mail = mail };
  sent = [];
  token = 0;
}

abbrev pub goes : Shared → Pc → Option Effect
goes m p = some (effect m p none)

-- The word is replaced.
abbrev pub sets : Shared → Word → Pc → Option Effect
sets m s p = goes (record m { word = s }) p

-- `got`: a lock was acquired; a writer then waits for the readers.
abbrev pub got : Want → Bool → Pc
got (shared recursive) timeout = held_shared
got upgradable timeout = held_upgradable
got exclusive timeout = drain_loading false timeout (record { counter = 0 })
