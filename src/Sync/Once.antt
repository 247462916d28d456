-- ===== src/Sync/Once.antt =====
-- src/once.rs: one thread of `Once`, a shared access at a time.
-- Atomics are sequentially consistent. `word` is the `Once`'s `u8`, of which four bits are used;
-- `bucket` says which thread holds the lock of its bucket, and `queue` the threads parked at its
-- address, oldest first: what core/src/parking_lot.rs keeps under that lock.
pub mod System
pub mod Refinement
mod Tests
use parking_lot.Prelude.{
  ℕ, ◌+◌, Bool, true, false, not, ◌&&◌, ◌||◌, Option, none, some, List, [], ◌∷◌, ◌++◌, ◌==◌,
  if◌then◌else◌, has_bit, set_bit, clear_bit,
}
use parking_lot.Core.SpinWait
use parking_lot.Core.SpinWait.{SpinWait}

abbrev pub done_bit : ℕ
done_bit = 1

abbrev pub poison_bit : ℕ
poison_bit = 2

abbrev pub locked_bit : ℕ
locked_bit = 4

abbrev pub parked_bit : ℕ
parked_bit = 8

pub data OnceState : Type 0 where
  fresh poisoned in_progress done : OnceState

-- The word of `Once::new`.
abbrev pub new : ℕ
new = 0

-- The word of `Once::new_completed`.
abbrev pub new_completed : ℕ
new_completed = done_bit

-- `Once::state`
unfoldable pub state : ℕ → OnceState
state word =
    if has_bit done_bit word
    then done
    else if has_bit locked_bit word
    then in_progress
    else if has_bit poison_bit word
    then poisoned
    else fresh

-- Where a thread stands. `force`: it called `call_once_force`.
pub data Pc : Type 0 where
  idle : Pc
  start : (force : Bool) → Pc  -- before the first load
  reload : (force : Bool) → Pc  -- before the load ahead of the loop, and at the end of its body
  slow : (force : Bool) (state : ℕ) (spinwait : SpinWait) → Pc  -- the loop of `call_once_slow`
  parking : (force : Bool) → Pc  -- `park`, before it locks the bucket
  validating : (force : Bool) → Pc  -- the bucket locked
  enqueuing : (force : Bool) → Pc  -- validated, the bucket locked
  abandoning : (force : Bool) → Pc  -- not valid, the bucket locked
  asleep : (force : Bool) → Pc  -- in `parker.park`
  running : (was : OnceState) → Pc  -- the closure, with the state it is given
  waking : (ok : Bool) → Pc  -- after the swap, before `unpark_all` locks the bucket
  emptying : (ok : Bool) → Pc  -- the bucket locked
  returned : Pc
  panicked : Pc

pub data Action : Type 0 where
  call : (force : Bool) → Action
  run : (lucky : Bool) → Action
  finish : (ok : Bool) → Action  -- the closure returns, or panics

pub record Shared : Type 0 where
  pub word : ℕ
  pub bucket : Option ℕ
  pub queue : List ℕ

pub record Thread : Type 0 where
  pub pc : Pc
  pub woken : Bool

-- The outcome of a step: the shared state, the thread's place, and the threads that it wakes.
pub record Effect : Type 0 where
  pub shared : Shared
  pub pc : Pc
  pub woken : List ℕ

abbrev pub goes : Shared → Pc → Option Effect
goes m p = some (record { shared = m; pc = p; woken = [] })

abbrev pub ends : Bool → Pc
ends ok = if ok then returned else panicked

-- One round of the loop of `call_once_slow`, up to its shared access.
pub slow_step : (lucky force : Bool) (state : ℕ) → SpinWait → Shared → Option Effect
slow_step lucky force state spinwait m =
    let (spinwait', pauses, spun) = SpinWait.spin spinwait in
    if has_bit done_bit state
    then goes m returned
    else if has_bit poison_bit state && not force
    then goes m panicked
    else if not (has_bit locked_bit state)
    then (if lucky && (m.word == state)
        then goes (record m { word = clear_bit poison_bit (set_bit locked_bit state) })
            (running (if has_bit poison_bit state then poisoned else fresh))
        else goes m (slow force m.word spinwait))
    else if not (has_bit parked_bit state) && spun
    then goes m (slow force m.word spinwait')
    else if not (has_bit parked_bit state)
    then (if lucky && (m.word == state)
        then goes (record m { word = set_bit parked_bit state }) (parking force)
        else goes m (slow force m.word spinwait'))
    else goes m (parking force)

-- The closure is over: the swap that ends `call_once_slow`, or that of `PanicGuard`.
pub finish_step : (ok : Bool) → Shared → Option Effect
finish_step ok m =
    goes (record m { word = if ok then done_bit else poison_bit })
      (if has_bit parked_bit m.word then waking ok else ends ok)

-- `lock_bucket`, which waits while another thread holds the bucket.
pub lock_bucket : ℕ → Option ℕ → Shared → Pc → Option Effect
lock_bucket me none m p = goes (record m { bucket = some me }) p
lock_bucket me (some _) m p = none

-- `unpark_all` under the bucket's lock.
pub unpark_all_step : (ok : Bool) → Shared → Option Effect
unpark_all_step ok m =
    some (record { shared = record m { bucket = none; queue = [] }; pc = ends ok; woken = m.queue })

-- A parked thread goes on when it has been woken.
pub wake_step : (force woken : Bool) → Shared → Option Effect
wake_step force true m = goes m (reload force)
wake_step force false m = none

-- One step of thread `me`: `none` if it cannot take that step now.
pub step : ℕ → Action → Shared → Pc → Bool → Option Effect
step me (call force) m idle woken = goes m (start force)
step me (call force) m returned woken = goes m (start force)
step me (call force) m panicked woken = goes m (start force)
step me (run lucky) m (start force) woken =
    if m.word == done_bit then goes m returned else goes m (reload force)
step me (run lucky) m (reload force) woken = goes m (slow force m.word SpinWait.new)
step me (run lucky) m (slow force state spinwait) woken = slow_step lucky force state spinwait m
step me (run lucky) m (parking force) woken = lock_bucket me m.bucket m (validating force)
step me (run lucky) m (validating force) woken =
    if m.word == set_bit parked_bit locked_bit
    then goes m (enqueuing force)
    else goes m (abandoning force)
step me (run lucky) m (enqueuing force) woken =
    goes (record m { queue = m.queue ++ me ∷ []; bucket = none }) (asleep force)
step me (run lucky) m (abandoning force) woken = goes (record m { bucket = none }) (reload force)
step me (run lucky) m (asleep force) woken = wake_step force woken m
step me (finish ok) m (running was) woken = finish_step ok m
step me (run lucky) m (waking ok) woken = lock_bucket me m.bucket m (emptying ok)
step me (run lucky) m (emptying ok) woken = unpark_all_step ok m
step me _ m _ woken = none
