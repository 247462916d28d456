-- ===== src/LockApi/Remutex.antt =====
-- lock_api/src/remutex.rs: `RawReentrantMutex` over the `RawMutex` of src/raw_mutex.rs, one shared
-- access at a time. `id` is the number that `GetThreadId` answers for each thread. A call of the
-- inner mutex is its own steps, which Sync.RawMutex models.
pub mod Invariant
pub mod Steps
pub mod Calls
pub mod Preserve
pub mod Safety
mod Tests
use parking_lot.Prelude.{
  ℕ, ◌+◌, ◌-◌, ◌^◌, ◌≡◌, Bool, true, false, Option, none, some, ◌==◌, ltb, if◌then◌else◌, update,
}
use parking_lot.Sync.RawMutex
use parking_lot.Sync.RawMutex.System.{System, apply}
use parking_lot.Sync.RawMutex.System

-- `lock`, `try_lock`, and `try_lock_until` or `try_lock_for`.
pub data How : Type 0 where
  by_lock by_try by_deadline : How

abbrev pub call_of : How → RawMutex.Action
call_of by_lock = RawMutex.call_lock false
call_of by_try = RawMutex.call_try_lock
call_of by_deadline = RawMutex.call_lock true

pub data Pc : Type 0 where
  out : Pc
  panicked : Pc
  entering : (how : How) → Pc  -- `lock_internal`, before it loads the owner
  nesting : Pc  -- it is the owner, before it adds to the count
  locking : Pc  -- in the call of the inner mutex
  claiming : Pc  -- the inner mutex is locked, before the owner is stored
  counting : Pc  -- before the count is set to 1
  unlocking : (fair : Bool) → Pc  -- before it subtracts from the count
  clearing : (fair : Bool) → Pc  -- the count is 0, before the owner is cleared
  releasing : (fair : Bool) → Pc  -- before it unlocks the inner mutex
  leaving : Pc  -- in the unlock of the inner mutex
  forgetting : Pc  -- `bump`, before it takes the owner out
  zeroing : (saved : ℕ) → Pc  -- before the count is set to 0
  yielding : (saved : ℕ) → Pc  -- before it bumps the inner mutex
  bumping : (saved : ℕ) → Pc  -- in `bump` of the inner mutex
  restoring : (saved : ℕ) → Pc  -- before the owner is stored again
  recounting : Pc  -- before the count is set to 1 again

-- What the inner mutex does within a call.
pub data Inner : Type 0 where
  advance : (lucky : Bool) → Inner
  expire : Inner
  unpark : (be_fair : Bool) → Inner

abbrev pub action_of : Inner → RawMutex.Action
action_of (advance lucky) = RawMutex.run lucky
action_of expire = RawMutex.expire
action_of (unpark be_fair) = RawMutex.unpark be_fair

pub data Action : Type 0 where
  call_lock : (how : How) → Action
  call_unlock : (fair : Bool) → Action
  call_bump : Action
  run : Action
  in_mutex : (a : Inner) → Action

-- `depth`: how many times the thread has the lock, by the calls that have returned.
pub record Thread : Type 0 where
  pub pc : Pc
  pub depth : ℕ

pub record State : Type 0 where
  pub inner : System
  pub owner : ℕ
  pub lock_count : ℕ
  pub threads : ℕ → Thread

abbrev pub init : State
init = record {
  inner = RawMutex.System.init;
  owner = 0;
  lock_count = 0;
  threads = λ _. record { pc = out; depth = 0 };
}

-- The thread goes on to `p`.
abbrev pub goes : ℕ → Pc → State → Option State
goes i p s = some (record s { threads = update s.threads i (record (s.threads i) { pc = p }) })

-- The inner mutex takes a step, or cannot.
abbrev pub joined : ℕ → Pc → State → Option RawMutex.Effect → Option State
joined i p s none = none
joined i p s (some e) = some (record s {
  inner = apply i e s.inner;
  threads = update s.threads i (record (s.threads i) { pc = p });
})

unfoldable pub with_inner : ℕ → RawMutex.Action → Pc → State → Option State
with_inner i a p s =
    joined i p s (RawMutex.step i a s.inner.shared (s.inner.threads i).pc (s.inner.threads i).mail)

-- The result of `try_lock` in `lock_internal`, once the call has returned.
unfoldable pub lock_step : ℕ → State → RawMutex.Pc → Option State
lock_step i s RawMutex.held = goes i claiming s
lock_step i s RawMutex.idle = goes i out s
lock_step i s _ = none

-- The return of `unlock` of the inner mutex.
unfoldable pub leave_step : ℕ → State → RawMutex.Pc → Option State
leave_step i s RawMutex.idle = goes i out s
leave_step i s _ = none

-- The return of `bump` of the inner mutex.
unfoldable pub bump_step : ℕ → (saved : ℕ) → State → RawMutex.Pc → Option State
bump_step i saved s RawMutex.held = goes i (restoring saved) s
bump_step i saved s _ = none

-- The owner, the count and the thread change, and not the inner mutex.
abbrev pub writes : ℕ → (owner lock_count : ℕ) → Thread → State → Option State
writes i owner lock_count t s =
    some (record s { owner = owner; lock_count = lock_count; threads = update s.threads i t })

-- One step of thread `i`. `unlock` and `bump` are called only by a thread that has the lock.
unfoldable pub step : (ℕ → ℕ) → ℕ → Action → State → Pc → Option State
step id i (call_lock how) s out = goes i (entering how) s
step id i (call_unlock fair) s out =
    if (s.threads i).depth == 0 then none else goes i (unlocking fair) s
step id i call_bump s out =
    if (s.threads i).depth == 0
    then none
    else if s.lock_count == 1
    then goes i forgetting s
    else goes i out s
step id i run s (entering how) =
    if s.owner == id i then goes i nesting s else with_inner i (call_of how) locking s
step id i run s nesting =
    if ltb (s.lock_count + 1) (2 ^ 64)
    then writes i s.owner (s.lock_count + 1) (record { pc = out; depth = (s.threads i).depth + 1 })
        s
    else goes i panicked s
step id i run s locking = lock_step i s (s.inner.threads i).pc
step id i run s claiming = writes i (id i) s.lock_count (record (s.threads i) { pc = counting }) s
step id i run s counting = writes i s.owner 1 (record { pc = out; depth = 1 }) s
step id i run s (unlocking fair) =
    writes i s.owner (s.lock_count - 1)
      (record {
        pc = if s.lock_count - 1 == 0 then clearing fair else out;
        depth = (s.threads i).depth - 1;
      })
      s
step id i run s (clearing fair) =
    writes i 0 s.lock_count (record (s.threads i) { pc = releasing fair }) s
step id i run s (releasing fair) = with_inner i (RawMutex.call_unlock fair) leaving s
step id i run s leaving = leave_step i s (s.inner.threads i).pc
step id i run s forgetting =
    writes i 0 s.lock_count (record (s.threads i) { pc = zeroing s.owner }) s
step id i run s (zeroing saved) =
    writes i s.owner 0 (record (s.threads i) { pc = yielding saved }) s
step id i run s (yielding saved) = with_inner i RawMutex.call_bump (bumping saved) s
step id i run s (bumping saved) = bump_step i saved s (s.inner.threads i).pc
step id i run s (restoring saved) =
    writes i saved s.lock_count (record (s.threads i) { pc = recounting }) s
step id i run s recounting = writes i s.owner 1 (record (s.threads i) { pc = out }) s
step id i (in_mutex a) s p = with_inner i (action_of a) p s
step id i _ s _ = none

pub data Reach (id : ℕ → ℕ) : State → Type 0 where
  initial : Reach id init
  later :
      {s t : State} (i : ℕ) (a : Action)
      → Reach id s
      → step id i a s (s.threads i).pc ≡ some t
      → Reach id t
