-- ===== src/Sync/RawRwLock/Drain.antt =====
-- src/raw_rwlock.rs, `wait_for_readers`: the thread that has set the writer bit waits until the last
-- reader has left.
use parking_lot.Prelude.{
  ℕ, Bool, true, false, not, ◌&&◌, Option, none, some, [], ◌∷◌, ◌++◌, ◌==◌, if◌then◌else◌, keep,
}
use parking_lot.Core.SpinWait
use parking_lot.Core.SpinWait.{SpinWait}
use parking_lot.Sync.RawRwLock.{
  Word, same_word, token_upgradable, token_exclusive, add_token, remove_token, reverts, Pc, idle,
  drain_loading, draining, drain_parking, drain_enqueuing, drain_abandoning, drain_asleep,
  reverting, held_upgradable, held_exclusive, waking, Shared, Effect, effect, goes, sets,
}

-- One round of the loop, up to its shared access.
unfoldable pub drain_step :
    (lucky upgrading timeout : Bool) → (state : Word) → SpinWait → Shared → Option Effect
drain_step lucky upgrading timeout state spinwait m =
    let (spinwait', pauses, spun) = SpinWait.spin spinwait in
    if state.readers == 0
    then goes m held_exclusive
    else if spun
    then goes m (draining upgrading timeout m.word spinwait')
    else if not state.writer_parked
    then (if lucky && same_word m.word state
        then sets m (record state { writer_parked = true })
            (drain_parking upgrading timeout spinwait')
        else goes m (draining upgrading timeout m.word spinwait'))
    else goes m (drain_parking upgrading timeout spinwait')

-- `lock_bucket` for the queue of the waiting writer.
unfoldable pub lock_writer : ℕ → Option ℕ → Shared → Pc → Option ℕ → Option Effect
lock_writer me none m p mail = some (effect (record m { writer_bucket = some me }) p mail)
lock_writer me (some _) m p mail = none

unfoldable pub drain_validate_step : (upgrading timeout : Bool) → SpinWait → Shared → Option Effect
drain_validate_step upgrading timeout spinwait m =
    if not (m.word.readers == 0) && m.word.writer_parked
    then goes m (drain_enqueuing upgrading timeout spinwait)
    else goes m (drain_abandoning upgrading timeout spinwait)

unfoldable pub drain_enqueue_step :
    ℕ → (upgrading timeout : Bool) → SpinWait → Shared → Option Effect
drain_enqueue_step me upgrading timeout spinwait m =
    goes (record m { writer_queue = m.writer_queue ++ me ∷ []; writer_bucket = none })
      (drain_asleep upgrading timeout spinwait)

-- Whatever the token, the word is looked at again.
unfoldable pub drain_wake_step :
    (upgrading timeout : Bool) → SpinWait → Option ℕ → Shared → Option Effect
drain_wake_step upgrading timeout spinwait none m = none
drain_wake_step upgrading timeout spinwait (some token) m =
    goes m (drain_loading upgrading timeout spinwait)

unfoldable pub drain_timed_step :
    ℕ → (upgrading : Bool) → SpinWait → Option ℕ → Shared → Option Effect
drain_timed_step me upgrading spinwait (some token) m =
    goes (record m { writer_bucket = none }) (drain_loading upgrading true spinwait)
drain_timed_step me upgrading spinwait none m =
    goes
      (record m {
        word = record m.word { writer_parked = false };
        writer_bucket = none;
        writer_queue = keep (λ i. not (i == me)) m.writer_queue;
      })
      (reverting upgrading)

-- `fetch_add(prev_value - WRITER_BIT)`
abbrev pub revert : Bool → Word → Word
revert upgrading s =
    if upgrading
    then add_token token_upgradable (remove_token token_exclusive s)
    else remove_token token_exclusive s

abbrev pub failed : Bool → Pc
failed upgrading = if upgrading then held_upgradable else idle

unfoldable pub revert_step : (upgrading : Bool) → Shared → Option Effect
revert_step upgrading m =
    sets m (revert upgrading m.word)
      (if m.word.parked then waking (reverts upgrading) else failed upgrading)
