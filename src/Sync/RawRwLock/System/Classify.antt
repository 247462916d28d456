-- ===== src/Sync/RawRwLock/System/Classify.antt =====
-- Every step of a thread is of one of the kinds.
use parking_lot.Prelude.{
  ℕ, ◌≡◌, refl, inl, inr, Bool, true, false, Option, none, some, Bool-cases, arith, Distinct,
}
use parking_lot.Core.SpinWait
use parking_lot.Core.SpinWait.{SpinWait}
use parking_lot.Sync.RawRwLock.{
  Want, shared, upgradable, exclusive, unlocks_exclusive, Pc, idle, start, trying, probing, probe,
  loading, attempt, parking, validating, enqueuing, abandoning, asleep, timing, timed,
  drain_loading, draining, drain_parking, drain_validating, drain_enqueuing, drain_abandoning,
  drain_asleep, drain_timing, drain_timed, reverting, held_shared, held_upgradable, held_exclusive,
  dropping, leaving, signalling, freeing, releasing, release, waking, filtering, converting,
  convert, Action, call_lock, call_try_lock, call_unlock, call_bump, call_upgrade, call_try_upgrade,
  call_downgrade, call_downgrade_to_upgradable, run, expire, unpark, Shared, Effect,
}
use parking_lot.Sync.RawRwLock.Lock.{try_again}
use parking_lot.Sync.RawRwLock.Step.{step}
use parking_lot.Sync.RawRwLock.System.Holds.{nothing, hold_at, Shows}
use parking_lot.Sync.RawRwLock.System.Moves.{awake, place, Move}
use parking_lot.Sync.RawRwLock.System.LockMoves.{
  plain_to, same, fast-Move, probe-Move, attempt-Move, lock_main-Move, timing-Move, expire-Move,
  validate-Move, enqueue-Move, wake-Move, timed-Move,
}
use parking_lot.Sync.RawRwLock.System.DrainMoves.{
  loads-Move, drain-Move, lock_writer-Move, drain_timing-Move, drain_expire-Move,
  drain_validate-Move, drain_enqueue-Move, revert-Move, drain_wake-Move, drain_timed-Move,
}
use parking_lot.Sync.RawRwLock.System.UnlockMoves.{
  moves_to, drop-Move, unlock_exclusive-Move, free-Move, release-Move, upgrade-Move,
  try_upgrade-Move, convert-Move, downgrade-Move, downgrade_upgradable-Move,
  downgrade_to_upgradable-Move,
}
use parking_lot.Sync.RawRwLock.System.WakeMoves.{filter-Move, signal-Move}

tries : (want : Want) → (place (try_again want) ≡ awake) × (hold_at (try_again want) none ≡ nothing)
tries (shared recursive) = (refl, refl)
tries upgradable = (refl, refl)
tries exclusive = (refl, refl)

module _ (me : ℕ) (m : Shared) (mail : Option ℕ) (e : Effect) (d : Distinct m.queue) where
  abbrev Says : Pc → Type 0
  Says p = Shows m.word (hold_at p mail)

  abandons :
      (want : Want) (timeout : Bool)
      → step me (run true) m (abandoning want timeout) mail ≡ some e
      → Says (abandoning want timeout)
      → Move me m (abandoning want timeout) mail e
  unfolding step
  abandons want timeout h w =
      plain_to (loading want timeout) m.word none m.writer_bucket (ground arith) refl refl (same w)

  drain_abandons :
      (upgrading timeout : Bool) (s : SpinWait)
      → step me (run true) m (drain_abandoning upgrading timeout s) mail ≡ some e
      → Says (drain_abandoning upgrading timeout s)
      → Move me m (drain_abandoning upgrading timeout s) mail e
  unfolding step
  drain_abandons upgrading timeout s h w =
      plain_to (drain_loading upgrading timeout s) m.word m.bucket none (ground arith) refl refl
        (same w)

  pub step-Move : (a : Action) (p : Pc) → step me a m p mail ≡ some e → Says p → Move me m p mail e
  unfolding step
  step-Move (call_lock want timeout) idle h w =
      moves_to m e (start want timeout) (ground arith) refl refl refl w
  step-Move (call_try_lock want) idle h w =
      moves_to m e (trying want) (ground arith) refl refl refl w
  step-Move (run lucky) (start want timeout) h w =
      fast-Move m e (start want timeout) lucky want timeout (loading want timeout) h refl refl refl
        refl w
  step-Move (run lucky) (trying want) h w =
      let (a, b) = tries want in
      fast-Move m e (trying want) lucky want false (try_again want) h refl refl a b w
  step-Move (run lucky) (probing want) h w =
      moves_to m e (probe want m.word) (ground arith) refl refl refl w
  step-Move (run lucky) (probe want state) h w = probe-Move m e lucky want state h w
  step-Move (run lucky) (loading want timeout) h w =
      moves_to m e (attempt want timeout m.word SpinWait.new) (ground arith) refl refl refl w
  step-Move (run lucky) (attempt want timeout state spinwait) h w =
      attempt-Move m e lucky want timeout state spinwait h w
  step-Move (run lucky) (parking want timeout) h w =
      lock_main-Move m e m.bucket (parking want timeout) (validating want timeout) refl h refl refl
        refl w
  step-Move (run lucky) (validating want timeout) h w = validate-Move m e want timeout h w
  step-Move (run lucky) (enqueuing want timeout) h w = enqueue-Move m e want timeout h w
  step-Move (run lucky) (abandoning want timeout) h w = abandons want timeout h w
  step-Move (run lucky) (asleep want timeout) h w = wake-Move me m e want timeout mail h w
  step-Move expire (asleep want true) h w = expire-Move m e want (ground arith) w
  step-Move (run lucky) (timing want) h w = timing-Move m e m.bucket want h w
  step-Move (run lucky) (timed want) h w = timed-Move me m e want mail h w
  step-Move (run lucky) (drain_loading upgrading timeout s) h w =
      loads-Move m e (drain_loading upgrading timeout s) upgrading timeout s (ground arith) refl
        refl w
  step-Move (run lucky) (draining upgrading timeout state s) h w =
      drain-Move m e lucky upgrading timeout state s h w
  step-Move (run lucky) (drain_parking upgrading timeout s) h w =
      lock_writer-Move m e m.writer_bucket (drain_parking upgrading timeout s)
        (drain_validating upgrading timeout s) refl h refl refl refl w
  step-Move (run lucky) (drain_validating upgrading timeout s) h w =
      drain_validate-Move m e upgrading timeout s h w
  step-Move (run lucky) (drain_enqueuing upgrading timeout s) h w =
      drain_enqueue-Move m e upgrading timeout s h w
  step-Move (run lucky) (drain_abandoning upgrading timeout s) h w =
      drain_abandons upgrading timeout s h w
  step-Move (run lucky) (drain_asleep upgrading timeout s) h w =
      drain_wake-Move me m e upgrading timeout s mail h w
  step-Move expire (drain_asleep upgrading true s) h w =
      drain_expire-Move m e upgrading s (ground arith) w
  step-Move (run lucky) (drain_timing upgrading s) h w =
      drain_timing-Move m e m.writer_bucket upgrading s h w
  step-Move (run lucky) (drain_timed upgrading s) h w = drain_timed-Move me m e upgrading s mail h w
  step-Move (run lucky) (reverting upgrading) h w = revert-Move m e upgrading h w
  step-Move (call_unlock fair) held_shared h w =
      moves_to m e (dropping false) (ground arith) refl refl refl w
  step-Move (call_unlock fair) held_exclusive h w = unlock_exclusive-Move m e fair h w
  step-Move (call_unlock fair) held_upgradable h w =
      moves_to m e freeing (ground arith) refl refl refl w
  step-Move call_bump held_shared h w = elim (Bool-cases m.word.writer) [
    | inl waits ↦ moves_to m e (dropping true) (ground arith) refl refl refl w
    | inr alone ↦ moves_to m e held_shared (ground arith) refl refl refl w
  ]
  step-Move call_bump held_exclusive h w = elim (Bool-cases m.word.parked) [
    | inl waits ↦
        moves_to m e (waking (unlocks_exclusive true true)) (ground arith) refl refl refl w
    | inr alone ↦ moves_to m e held_exclusive (ground arith) refl refl refl w
  ]
  step-Move call_bump held_upgradable h w = elim (Bool-cases m.word.parked) [
    | inl waits ↦ moves_to m e (releasing true true) (ground arith) refl refl refl w
    | inr alone ↦ moves_to m e held_upgradable (ground arith) refl refl refl w
  ]
  step-Move (run lucky) (dropping relock) h w = drop-Move m e relock h w
  step-Move (run lucky) (leaving relock) h w =
      lock_writer-Move m e m.writer_bucket (leaving relock) (signalling relock) refl h refl refl
        refl w
  step-Move (run lucky) (signalling relock) h w =
      signal-Move me mail m e relock m.writer_queue refl h w
  step-Move (run lucky) freeing h w = free-Move m e lucky h w
  step-Move (run lucky) (releasing force_fair relock) h w =
      moves_to m e (release force_fair relock m.word) (ground arith) refl refl refl w
  step-Move (run lucky) (release force_fair relock state) h w =
      release-Move m e lucky force_fair relock state h w
  step-Move (run lucky) (waking why) h w =
      lock_main-Move m e m.bucket (waking why) (filtering why) refl h refl refl refl w
  step-Move (unpark be_fair gives_up) (filtering why) h w =
      filter-Move me mail m e why be_fair gives_up d h w
  step-Move (call_upgrade timeout) held_upgradable h w = upgrade-Move m e timeout h w
  step-Move (run lucky) converting h w =
      moves_to m e (convert m.word) (ground arith) refl refl refl w
  step-Move (call_try_upgrade lucky) held_upgradable h w = try_upgrade-Move m e lucky h w
  step-Move (run lucky) (convert state) h w = convert-Move m e lucky state h w
  step-Move call_downgrade held_exclusive h w = downgrade-Move m e h w
  step-Move call_downgrade held_upgradable h w = downgrade_upgradable-Move m e h w
  step-Move call_downgrade_to_upgradable held_exclusive h w = downgrade_to_upgradable-Move m e h w
  step-Move _ _ h w = absurd (cc)
