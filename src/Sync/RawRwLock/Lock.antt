-- ===== src/Sync/RawRwLock/Lock.antt =====
-- src/raw_rwlock.rs: `try_lock_shared_fast` and the other fast paths, the slow paths of `try_lock`,
-- and `lock_common` with the closures that it is given.
-- A compare-exchange whose failure is not looked at and the load behind it are one step. Lock
-- elision is a compare-exchange like the others.
use parking_lot.Prelude.{
  ℕ, Bool, true, false, not, ◌&&◌, ◌||◌, Option, none, some, [], ◌∷◌, ◌++◌, ◌==◌, if◌then◌else◌,
  is_empty, keep, update,
}
use parking_lot.Core.SpinWait
use parking_lot.Core.SpinWait.{SpinWait}
use parking_lot.Sync.RawMutex.{token_handoff}
use parking_lot.Sync.RawRwLock.{
  Word, free, same_word, Want, exclusive, token_of, fits, add_token, blocked, flagged, Pc, idle,
  panicked, probing, probe, loading, attempt, parking, enqueuing, abandoning, asleep,
  held_exclusive, Shared, Effect, effect, goes, sets, got,
}

-- `try_lock_shared_fast`, `try_lock_upgradable_fast` and the compare-exchange of `lock_exclusive`:
-- where to go on success and on failure.
unfoldable pub fast_step : (lucky : Bool) → Want → (won lost : Pc) → Shared → Option Effect
fast_step lucky exclusive won lost m =
    if lucky && same_word m.word free
    then sets m (add_token (token_of exclusive) m.word) held_exclusive
    else goes m lost
fast_step lucky want won lost m =
    if lucky && not (blocked want m.word) && fits (token_of want) m.word
    then sets m (add_token (token_of want) m.word) won
    else goes m lost

-- Where a `try_lock` goes when its fast path has failed.
abbrev pub try_again : Want → Pc
try_again exclusive = idle
try_again want = probing want

-- One round of `try_lock_shared_slow` and `try_lock_upgradable_slow`.
unfoldable pub probe_step : (lucky : Bool) → Want → (state : Word) → Shared → Option Effect
probe_step lucky want state m =
    if blocked want state
    then goes m idle
    else if not (fits (token_of want) state)
    then goes m panicked
    else if lucky && same_word m.word state
    then sets m (add_token (token_of want) state) (got want false)
    else goes m (probe want m.word)

-- One round of `lock_common` up to its shared access, with the closure `try_lock` of
-- `lock_shared_slow`, `lock_upgradable_slow` or `lock_exclusive_slow`.
unfoldable pub attempt_step :
    (lucky : Bool) → Want → (timeout : Bool) → (state : Word) → SpinWait → Shared → Option Effect
attempt_step lucky want timeout state spinwait m =
    let (spinwait', pauses, spun) = SpinWait.spin spinwait in
    if not (blocked want state)
    then (if not (fits (token_of want) state)
        then goes m panicked
        else if lucky && same_word m.word state
        then sets m (add_token (token_of want) state) (got want timeout)
        else goes m (attempt want timeout m.word spinwait))
    else if not (state.parked || state.writer_parked) && spun
    then goes m (attempt want timeout m.word spinwait')
    else if not state.parked
    then (if lucky && same_word m.word state
        then sets m (record state { parked = true }) (parking want timeout)
        else goes m (attempt want timeout m.word spinwait))
    else goes m (parking want timeout)

-- `lock_bucket` for the main queue, which waits while another thread holds the bucket.
unfoldable pub lock_main : ℕ → Option ℕ → Shared → Pc → Option ℕ → Option Effect
lock_main me none m p mail = some (effect (record m { bucket = some me }) p mail)
lock_main me (some _) m p mail = none

-- The closure `validate`.
unfoldable pub validate_step : Want → (timeout : Bool) → Shared → Option Effect
validate_step want timeout m =
    if m.word.parked && flagged want m.word
    then goes m (enqueuing want timeout)
    else goes m (abandoning want timeout)

unfoldable pub enqueue_step : ℕ → Want → (timeout : Bool) → Shared → Option Effect
enqueue_step me want timeout m =
    goes
      (record m {
        queue = m.queue ++ me ∷ [];
        park_token = update m.park_token me (token_of want);
        bucket = none;
      })
      (asleep want timeout)

-- `ParkResult::Unparked(token)`, in `lock_common`.
abbrev pub unparked : Want → (timeout : Bool) → ℕ → Pc
unparked want timeout token =
    if token == token_handoff then got want timeout else loading want timeout

-- What the thread does when it is woken; without a token it sleeps on.
unfoldable pub wake_step : Want → (timeout : Bool) → Option ℕ → Shared → Option Effect
wake_step want timeout none m = none
wake_step want timeout (some token) m = goes m (unparked want timeout token)

-- The second half of a `park` with a deadline, with the closure `timed_out` of `lock_common`.
unfoldable pub timed_step : ℕ → Want → Option ℕ → Shared → Option Effect
timed_step me want (some token) m = goes (record m { bucket = none }) (unparked want true token)
timed_step me want none m =
    let others = keep (λ i. not (i == me)) m.queue in
    goes
      (record m {
        word = if is_empty others then record m.word { parked = false } else m.word;
        bucket = none;
        queue = others;
      })
      idle
