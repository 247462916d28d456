-- ===== src/Sync/RawRwLock/Step.antt =====
-- src/raw_rwlock.rs: one step of a thread, a shared access at a time.
use parking_lot.Prelude.{ℕ, Bool, true, false, not, ◌&&◌, Option, none, some, ◌==◌, if◌then◌else◌}
use parking_lot.Core.SpinWait
use parking_lot.Sync.RawRwLock.{
  Word, free, same_word, shared, upgradable, token_shared, token_upgradable, token_exclusive,
  add_token, remove_token, unlocks_exclusive, downgrades, downgrades_to_upgradable, Pc, idle, start,
  trying, probing, probe, loading, attempt, parking, validating, enqueuing, abandoning, asleep,
  timing, timed, drain_loading, draining, drain_parking, drain_validating, drain_enqueuing,
  drain_abandoning, drain_asleep, drain_timing, drain_timed, reverting, held_shared,
  held_upgradable, held_exclusive, dropping, leaving, signalling, freeing, releasing, release,
  waking, filtering, converting, convert, unlocks_upgradable, Action, call_lock, call_try_lock,
  call_unlock, call_bump, call_upgrade, call_try_upgrade, call_downgrade,
  call_downgrade_to_upgradable, run, expire, unpark, Shared, Effect, effect, goes, sets, got,
}
use parking_lot.Sync.RawRwLock.Lock.{
  fast_step, try_again, probe_step, attempt_step, lock_main, validate_step, enqueue_step, wake_step,
  timed_step,
}
use parking_lot.Sync.RawRwLock.Drain.{
  drain_step, lock_writer, drain_validate_step, drain_enqueue_step, drain_wake_step,
  drain_timed_step, revert_step,
}
use parking_lot.Sync.RawRwLock.Wake.{filter_step, signal_step}

-- `fetch_sub(ONE_READER)` in `unlock_shared`.
unfoldable pub drop_step : (relock : Bool) → Shared → Option Effect
drop_step relock m = sets m (remove_token token_shared m.word) (
    if m.word.readers == 1 && m.word.writer_parked
    then leaving relock
    else if relock
    then start (shared false) false
    else idle)

-- `unlock_exclusive` and `unlock_exclusive_fair`
unfoldable pub unlock_exclusive_step : (fair : Bool) → Shared → Option Effect
unlock_exclusive_step fair m =
    if same_word m.word (record free { writer = true })
    then sets m free idle
    else goes m (waking (unlocks_exclusive fair false))

-- The fast path of `unlock_upgradable`, and of `unlock_upgradable_fair`.
unfoldable pub free_step : (lucky : Bool) → Shared → Option Effect
free_step lucky m =
    if lucky && not m.word.parked
    then sets m (remove_token token_upgradable m.word) idle
    else goes m (releasing false false)

-- One round of the first loop of `unlock_upgradable_slow`.
unfoldable pub release_step :
    (lucky force_fair relock : Bool) → (state : Word) → Shared → Option Effect
release_step lucky force_fair relock state m =
    if state.parked
    then goes m (waking (unlocks_upgradable force_fair relock))
    else if lucky && same_word m.word state
    then sets m (remove_token token_upgradable state)
        (if relock then start upgradable false else idle)
    else goes m (release force_fair relock m.word)

-- `state - (ONE_READER | UPGRADABLE_BIT) + WRITER_BIT`
abbrev pub exchange : Word → Word
exchange s = add_token token_exclusive (remove_token token_upgradable s)

-- `upgrade`, `try_upgrade_for` and `try_upgrade_until`
unfoldable pub upgrade_step : (timeout : Bool) → Shared → Option Effect
upgrade_step timeout m = sets m (exchange m.word) (
    if m.word.readers == 1
    then held_exclusive
    else drain_loading true timeout (record { counter = 0 }))

-- The compare-exchange of `try_upgrade`.
unfoldable pub try_upgrade_step : (lucky : Bool) → Shared → Option Effect
try_upgrade_step lucky m =
    if lucky && same_word m.word (add_token token_upgradable free)
    then sets m (add_token token_exclusive free) held_exclusive
    else goes m converting

-- One round of `try_upgrade_slow`.
unfoldable pub convert_step : (lucky : Bool) → (state : Word) → Shared → Option Effect
convert_step lucky state m =
    if not (state.readers == 1)
    then goes m held_upgradable
    else if lucky && same_word m.word state
    then sets m (exchange state) held_exclusive
    else goes m (convert m.word)

-- `downgrade`
unfoldable pub downgrade_step : Shared → Option Effect
downgrade_step m =
    sets m (add_token token_shared (remove_token token_exclusive m.word))
      (if m.word.parked then waking downgrades else held_shared)

-- `downgrade_upgradable`
unfoldable pub downgrade_upgradable_step : Shared → Option Effect
downgrade_upgradable_step m =
    sets m (record m.word { upgradable = false })
      (if m.word.parked then waking downgrades else held_shared)

-- `downgrade_to_upgradable`
unfoldable pub downgrade_to_upgradable_step : Shared → Option Effect
downgrade_to_upgradable_step m =
    sets m (add_token token_upgradable (remove_token token_exclusive m.word))
      (if m.word.parked then waking downgrades_to_upgradable else held_upgradable)

-- One step of thread `me`: `none` if it cannot take that step now.
unfoldable pub step : ℕ → Action → Shared → Pc → Option ℕ → Option Effect
step me (call_lock want timeout) m idle mail = goes m (start want timeout)
step me (call_try_lock want) m idle mail = goes m (trying want)
step me (run lucky) m (start want timeout) mail =
    fast_step lucky want (got want timeout) (loading want timeout) m
step me (run lucky) m (trying want) mail = fast_step lucky want (got want false) (try_again want) m
step me (run lucky) m (probing want) mail = goes m (probe want m.word)
step me (run lucky) m (probe want state) mail = probe_step lucky want state m
step me (run lucky) m (loading want timeout) mail =
    goes m (attempt want timeout m.word SpinWait.new)
step me (run lucky) m (attempt want timeout state spinwait) mail =
    attempt_step lucky want timeout state spinwait m
step me (run lucky) m (parking want timeout) mail =
    lock_main me m.bucket m (validating want timeout) none
step me (run lucky) m (validating want timeout) mail = validate_step want timeout m
step me (run lucky) m (enqueuing want timeout) mail = enqueue_step me want timeout m
step me (run lucky) m (abandoning want timeout) mail =
    goes (record m { bucket = none }) (loading want timeout)
step me (run lucky) m (asleep want timeout) mail = wake_step want timeout mail m
step me expire m (asleep want true) mail = some (effect m (timing want) mail)
step me (run lucky) m (timing want) mail = lock_main me m.bucket m (timed want) mail
step me (run lucky) m (timed want) mail = timed_step me want mail m
step me (run lucky) m (drain_loading upgrading timeout spinwait) mail =
    goes m (draining upgrading timeout m.word spinwait)
step me (run lucky) m (draining upgrading timeout state spinwait) mail =
    drain_step lucky upgrading timeout state spinwait m
step me (run lucky) m (drain_parking upgrading timeout spinwait) mail =
    lock_writer me m.writer_bucket m (drain_validating upgrading timeout spinwait) none
step me (run lucky) m (drain_validating upgrading timeout spinwait) mail =
    drain_validate_step upgrading timeout spinwait m
step me (run lucky) m (drain_enqueuing upgrading timeout spinwait) mail =
    drain_enqueue_step me upgrading timeout spinwait m
step me (run lucky) m (drain_abandoning upgrading timeout spinwait) mail =
    goes (record m { writer_bucket = none }) (drain_loading upgrading timeout spinwait)
step me (run lucky) m (drain_asleep upgrading timeout spinwait) mail =
    drain_wake_step upgrading timeout spinwait mail m
step me expire m (drain_asleep upgrading true spinwait) mail =
    some (effect m (drain_timing upgrading spinwait) mail)
step me (run lucky) m (drain_timing upgrading spinwait) mail =
    lock_writer me m.writer_bucket m (drain_timed upgrading spinwait) mail
step me (run lucky) m (drain_timed upgrading spinwait) mail =
    drain_timed_step me upgrading spinwait mail m
step me (run lucky) m (reverting upgrading) mail = revert_step upgrading m
step me (call_unlock fair) m held_shared mail = goes m (dropping false)
step me (call_unlock fair) m held_exclusive mail = unlock_exclusive_step fair m
step me (call_unlock fair) m held_upgradable mail = goes m freeing
step me call_bump m held_shared mail =
    if m.word.writer then goes m (dropping true) else goes m held_shared
step me call_bump m held_exclusive mail =
    if m.word.parked then goes m (waking (unlocks_exclusive true true)) else goes m held_exclusive
step me call_bump m held_upgradable mail =
    if m.word.parked then goes m (releasing true true) else goes m held_upgradable
step me (run lucky) m (dropping relock) mail = drop_step relock m
step me (run lucky) m (leaving relock) mail =
    lock_writer me m.writer_bucket m (signalling relock) none
step me (run lucky) m (signalling relock) mail = signal_step relock m m.writer_queue
step me (run lucky) m freeing mail = free_step lucky m
step me (run lucky) m (releasing force_fair relock) mail = goes m (release force_fair relock m.word)
step me (run lucky) m (release force_fair relock state) mail =
    release_step lucky force_fair relock state m
step me (run lucky) m (waking why) mail = lock_main me m.bucket m (filtering why) none
step me (unpark be_fair gives_up) m (filtering why) mail = filter_step why be_fair gives_up m
step me (call_upgrade timeout) m held_upgradable mail = upgrade_step timeout m
step me (run lucky) m converting mail = goes m (convert m.word)
step me (call_try_upgrade lucky) m held_upgradable mail = try_upgrade_step lucky m
step me (run lucky) m (convert state) mail = convert_step lucky state m
step me call_downgrade m held_exclusive mail = downgrade_step m
step me call_downgrade m held_upgradable mail = downgrade_upgradable_step m
step me call_downgrade_to_upgradable m held_exclusive mail = downgrade_to_upgradable_step m
step me _ m _ mail = none
