-- ===== src/Sync/RawRwLock/System/RingClassify.antt =====
-- Each step of a thread, as one of the kinds of Rings.
use parking_lot.Prelude.{
  ℕ, ◌≡◌, refl, inl, inr, Bool, true, false, ◌&&◌, Option, none, some, List, [], ◌∷◌, ◌==◌,
  Bool-cases, arith,
}
use parking_lot.Core.SpinWait
use parking_lot.Core.SpinWait.{SpinWait}
use parking_lot.Sync.RawRwLock.{
  WakeReason, effect, Want, shared, upgradable, exclusive, unlocks_exclusive, Pc, idle, start,
  trying, probing, probe, loading, attempt, parking, validating, enqueuing, abandoning, asleep,
  timing, timed, drain_loading, draining, drain_parking, drain_validating, drain_enqueuing,
  drain_abandoning, drain_asleep, drain_timing, drain_timed, reverting, held_shared,
  held_upgradable, held_exclusive, dropping, leaving, signalling, freeing, releasing, release,
  waking, filtering, converting, convert, Action, call_lock, call_try_lock, call_unlock, call_bump,
  call_upgrade, call_try_upgrade, call_downgrade, call_downgrade_to_upgradable, run, expire, unpark,
  Shared, Effect,
}
use parking_lot.Sync.RawRwLock.Lock.{try_again}
use parking_lot.Sync.RawRwLock.Step.{step, drop_step}
use parking_lot.Sync.RawRwLock.Drain.{
  lock_writer, drain_validate_step, drain_enqueue_step, drain_wake_step, drain_timed_step,
}
use parking_lot.Sync.RawRwLock.Wake.{filter_step, signal_step}
use parking_lot.Sync.RawRwLock.System.Holds.{reads, hold_at, hold_why, is_major, Shows}
use parking_lot.Sync.RawRwLock.System.Moves.{awake, place}
use parking_lot.Sync.RawRwLock.System.Rings.{
  signals, inside, enqueues, Ring, calms, alone, rings, enters, checks, leaves, joins, answers,
  exits,
}
use parking_lot.Sync.RawRwLock.System.RingSteps.{
  Calm, Out, fast-Calm, probe-Calm, attempt-Calm, lock_main-Calm, validate-Calm, enqueue-Calm,
  wake-Calm, timed-Calm, drain-Calm, revert-Out, unlock_exclusive-Out, free-Out, release-Out,
  upgrade-Out, try_upgrade-Out, convert-Out, downgrade-Out, downgrade_upgradable-Out,
  downgrade_to_upgradable-Out, filter-Out, filter-Calm,
}

tries : (want : Want) → (enqueues (try_again want) ≡ false) × (inside (try_again want) ≡ false)
tries (shared recursive) = (refl, refl)
tries upgradable = (refl, refl)
tries exclusive = (refl, refl)

module _ (me : ℕ) (m : Shared) (e : Effect) where
  calm :
      (p : Pc) (mail : Option ℕ)
      → inside p ≡ false
      → signals p ≡ false
      → Calm me m p mail e
      → Ring me m p mail e
  calm p mail a b (o, g) = calms a b o g

  out :
      (p : Pc) (mail : Option ℕ)
      → inside p ≡ false
      → place p ≡ awake
      → is_major (hold_at p mail) ≡ true
      → Out me m p mail e
      → Ring me m p mail e
  out p mail a b h o = alone a b h o

  lock_writer-Ring :
      (bucket : Option ℕ) (p p' : Pc) (mail mail' : Option ℕ)
      → m.writer_bucket ≡ bucket
      → (enqueues p ≡ false) × (enqueues p' ≡ false) × (signals p' ≡ signals p)
      → lock_writer me bucket m p' mail' ≡ some e
      → Ring me m p mail e
  unfolding lock_writer
  lock_writer-Ring none p p' mail mail' q (a, b, c) k =
      enters q (ground arith) (ground arith) (ground arith) (ground arith) a (ground arith)
  lock_writer-Ring (some j) p p' mail mail' q h k = absurd (cc)

  drain_validate-Ring :
      (upgrading timeout : Bool) (w : SpinWait) (mail : Option ℕ)
      → drain_validate_step upgrading timeout w m ≡ some e
      → Ring me m (drain_validating upgrading timeout w) mail e
  unfolding drain_validate_step
  drain_validate-Ring upgrading timeout w mail k =
      checks refl (ground arith) refl refl (ground arith) (ground arith) (ground arith)
        (λ h. ground arith)

  drain_enqueue-Ring :
      (upgrading timeout : Bool) (w : SpinWait) (mail : Option ℕ)
      → drain_enqueue_step me upgrading timeout w m ≡ some e
      → Ring me m (drain_enqueuing upgrading timeout w) mail e
  unfolding drain_enqueue_step
  drain_enqueue-Ring upgrading timeout w mail k =
      joins refl refl (ground arith) (ground arith) (ground arith) (ground arith) (ground arith)
        refl

  drain_wake-Ring :
      (upgrading timeout : Bool) (w : SpinWait) (mail : Option ℕ)
      → drain_wake_step upgrading timeout w mail m ≡ some e
      → Ring me m (drain_asleep upgrading timeout w) mail e
  unfolding drain_wake_step
  drain_wake-Ring upgrading timeout w none k = absurd (cc)
  drain_wake-Ring upgrading timeout w (some token) k =
      calms refl refl (ground arith) (λ g. ground arith)

  drain_timed-Ring :
      (upgrading : Bool) (w : SpinWait) (mail : Option ℕ)
      → drain_timed_step me upgrading w mail m ≡ some e
      → Ring me m (drain_timed upgrading w) mail e
  unfolding drain_timed_step
  drain_timed-Ring upgrading w (some token) k =
      leaves refl refl refl (ground arith) (ground arith) (ground arith) (ground arith)
  drain_timed-Ring upgrading w none k =
      exits refl (ground arith) (ground arith) (ground arith) refl (ground arith)

  drop-Ring :
      (relock : Bool) (mail : Option ℕ)
      → Shows m.word reads
      → drop_step relock m ≡ some e
      → Ring me m (dropping relock) mail e
  unfolding drop_step
  drop-Ring relock mail w k = elim (Bool-cases (m.word.readers == 1 && m.word.writer_parked)) [
    | inl last ↦ rings refl (ground arith) (ground arith)
    | inr others ↦ calms refl refl (ground arith) (λ g. ground (arith, w.counted))
  ]

  signal-Ring :
      (relock : Bool) (xs : List ℕ) (mail : Option ℕ)
      → m.writer_queue ≡ xs
      → signal_step relock m xs ≡ some e
      → Ring me m (signalling relock) mail e
  unfolding signal_step
  signal-Ring relock [] mail q k =
      answers refl (ground arith) (ground arith) (ground arith) (rw q (ground arith))
  signal-Ring relock (x ∷ others) mail q k =
      answers refl (ground arith) (ground arith) (ground arith) (rw q (ground arith))

  filter-Ring :
      (why : WakeReason) (be_fair gives_up : Bool) (mail : Option ℕ)
      → filter_step why be_fair gives_up m ≡ some e
      → Ring me m (filtering why) mail e
  filter-Ring why be_fair gives_up mail k = elim (Bool-cases (is_major (hold_why why))) [
    | inl h ↦ alone refl refl h (filter-Out me m (filtering why) mail e why be_fair gives_up k)
    | inr h ↦
        calm (filtering why) mail refl refl
          (filter-Calm me m (filtering why) mail e why be_fair gives_up h k)
  ]

  -- A step that only moves the thread, and may take or give back the lock of the main bucket.
  moves :
      (p p' : Pc) (mail mail' : Option ℕ) (b : Option ℕ)
      → (inside p ≡ false) × (signals p ≡ false)
      → (enqueues p' ≡ false) × (inside p' ≡ false)
      → e ≡ effect (record m { bucket = b }) p' mail'
      → Ring me m p mail e
  moves p p' mail mail' b (a, c) (d, g) q = rw q (calms a c (refl, refl, d, g) (λ h. h))

  pub step-Ring :
      (a : Action) (p : Pc) (mail : Option ℕ)
      → Shows m.word (hold_at p mail)
      → step me a m p mail ≡ some e
      → Ring me m p mail e
  unfolding step
  step-Ring (call_lock want timeout) idle mail w h =
      moves idle (start want timeout) mail none m.bucket (refl, refl) (refl, refl) (ground arith)
  step-Ring (call_try_lock want) idle mail w h =
      moves idle (trying want) mail none m.bucket (refl, refl) (refl, refl) (ground arith)
  step-Ring (run lucky) (start want timeout) mail w h = calm (start want timeout) mail refl refl (
      fast-Calm me m (start want timeout) mail e lucky want timeout (loading want timeout)
        (refl, refl) h)
  step-Ring (run lucky) (trying want) mail w h =
      calm (trying want) mail refl refl
        (fast-Calm me m (trying want) mail e lucky want false (try_again want) (tries want) h)
  step-Ring (run lucky) (probing want) mail w h =
      moves (probing want) (probe want m.word) mail none m.bucket (refl, refl) (refl, refl)
        (ground arith)
  step-Ring (run lucky) (probe want state) mail w h =
      calm (probe want state) mail refl refl
        (probe-Calm me m (probe want state) mail e lucky want state h)
  step-Ring (run lucky) (loading want timeout) mail w h =
      moves (loading want timeout) (attempt want timeout m.word SpinWait.new) mail none m.bucket
        (refl, refl) (refl, refl) (ground arith)
  step-Ring (run lucky) (attempt want timeout state s) mail w h =
      calm (attempt want timeout state s) mail refl refl
        (attempt-Calm me m (attempt want timeout state s) mail e lucky want timeout state s h)
  step-Ring (run lucky) (parking want timeout) mail w h =
      calm (parking want timeout) mail refl refl (
        lock_main-Calm me m (parking want timeout) mail e m.bucket (validating want timeout) none
          (refl, refl) h)
  step-Ring (run lucky) (validating want timeout) mail w h =
      calm (validating want timeout) mail refl refl
        (validate-Calm me m (validating want timeout) mail e want timeout h)
  step-Ring (run lucky) (enqueuing want timeout) mail w h =
      calm (enqueuing want timeout) mail refl refl
        (enqueue-Calm me m (enqueuing want timeout) mail e want timeout h)
  step-Ring (run lucky) (abandoning want timeout) mail w h =
      moves (abandoning want timeout) (loading want timeout) mail none none (refl, refl)
        (refl, refl) (ground arith)
  step-Ring (run lucky) (asleep want timeout) mail w h =
      calm (asleep want timeout) mail refl refl
        (wake-Calm me m (asleep want timeout) mail e want timeout mail h)
  step-Ring expire (asleep want true) mail w h =
      moves (asleep want true) (timing want) mail mail m.bucket (refl, refl) (refl, refl)
        (ground arith)
  step-Ring (run lucky) (timing want) mail w h =
      calm (timing want) mail refl refl
        (lock_main-Calm me m (timing want) mail e m.bucket (timed want) mail (refl, refl) h)
  step-Ring (run lucky) (timed want) mail w h =
      calm (timed want) mail refl refl (timed-Calm me m (timed want) mail e want mail h)
  step-Ring (run lucky) (drain_loading upgrading timeout s) mail w h =
      moves (drain_loading upgrading timeout s) (draining upgrading timeout m.word s) mail none
        m.bucket (refl, refl) (refl, refl) (ground arith)
  step-Ring (run lucky) (draining upgrading timeout state s) mail w h =
      calm (draining upgrading timeout state s) mail refl refl (
        drain-Calm me m (draining upgrading timeout state s) mail e lucky upgrading timeout state s
          h)
  step-Ring (run lucky) (drain_parking upgrading timeout s) mail w h =
      lock_writer-Ring m.writer_bucket (drain_parking upgrading timeout s)
        (drain_validating upgrading timeout s) mail none refl (refl, refl, refl) h
  step-Ring (run lucky) (drain_validating upgrading timeout s) mail w h =
      drain_validate-Ring upgrading timeout s mail h
  step-Ring (run lucky) (drain_enqueuing upgrading timeout s) mail w h =
      drain_enqueue-Ring upgrading timeout s mail h
  step-Ring (run lucky) (drain_abandoning upgrading timeout s) mail w h =
      leaves refl refl refl (ground arith) (ground arith) (ground arith) (ground arith)
  step-Ring (run lucky) (drain_asleep upgrading timeout s) mail w h =
      drain_wake-Ring upgrading timeout s mail h
  step-Ring expire (drain_asleep upgrading true s) mail w h =
      moves (drain_asleep upgrading true s) (drain_timing upgrading s) mail mail m.bucket
        (refl, refl) (refl, refl) (ground arith)
  step-Ring (run lucky) (drain_timing upgrading s) mail w h =
      lock_writer-Ring m.writer_bucket (drain_timing upgrading s) (drain_timed upgrading s) mail
        mail refl (refl, refl, refl) h
  step-Ring (run lucky) (drain_timed upgrading s) mail w h = drain_timed-Ring upgrading s mail h
  step-Ring (run lucky) (reverting upgrading) mail w h =
      out (reverting upgrading) mail refl refl refl
        (revert-Out me m (reverting upgrading) mail e upgrading h)
  step-Ring (call_unlock fair) held_shared mail w h =
      moves held_shared (dropping false) mail none m.bucket (refl, refl) (refl, refl) (ground arith)
  step-Ring (call_unlock fair) held_exclusive mail w h =
      out held_exclusive mail refl refl refl
        (unlock_exclusive-Out me m held_exclusive mail e fair h)
  step-Ring (call_unlock fair) held_upgradable mail w h =
      moves held_upgradable freeing mail none m.bucket (refl, refl) (refl, refl) (ground arith)
  step-Ring call_bump held_shared mail w h = elim (Bool-cases m.word.writer) [
    | inl waits ↦
        moves held_shared (dropping true) mail none m.bucket (refl, refl) (refl, refl)
          (ground arith)
    | inr no_wait ↦
        moves held_shared held_shared mail none m.bucket (refl, refl) (refl, refl) (ground arith)
  ]
  step-Ring call_bump held_exclusive mail w h = elim (Bool-cases m.word.parked) [
    | inl waits ↦
        moves held_exclusive (waking (unlocks_exclusive true true)) mail none m.bucket (refl, refl)
          (refl, refl) (ground arith)
    | inr no_wait ↦
        moves held_exclusive held_exclusive mail none m.bucket (refl, refl) (refl, refl)
          (ground arith)
  ]
  step-Ring call_bump held_upgradable mail w h = elim (Bool-cases m.word.parked) [
    | inl waits ↦
        moves held_upgradable (releasing true true) mail none m.bucket (refl, refl) (refl, refl)
          (ground arith)
    | inr no_wait ↦
        moves held_upgradable held_upgradable mail none m.bucket (refl, refl) (refl, refl)
          (ground arith)
  ]
  step-Ring (run lucky) (dropping relock) mail w h = drop-Ring relock mail w h
  step-Ring (run lucky) (leaving relock) mail w h =
      lock_writer-Ring m.writer_bucket (leaving relock) (signalling relock) mail none refl
        (refl, refl, refl) h
  step-Ring (run lucky) (signalling relock) mail w h = signal-Ring relock m.writer_queue mail refl h
  step-Ring (run lucky) freeing mail w h =
      out freeing mail refl refl refl (free-Out me m freeing mail e lucky h)
  step-Ring (run lucky) (releasing force_fair relock) mail w h =
      moves (releasing force_fair relock) (release force_fair relock m.word) mail none m.bucket
        (refl, refl) (refl, refl) (ground arith)
  step-Ring (run lucky) (release force_fair relock state) mail w h =
      out (release force_fair relock state) mail refl refl refl
        (release-Out me m (release force_fair relock state) mail e lucky force_fair relock state h)
  step-Ring (run lucky) (waking why) mail w h =
      calm (waking why) mail refl refl
        (lock_main-Calm me m (waking why) mail e m.bucket (filtering why) none (refl, refl) h)
  step-Ring (unpark be_fair gives_up) (filtering why) mail w h =
      filter-Ring why be_fair gives_up mail h
  step-Ring (call_upgrade timeout) held_upgradable mail w h =
      out held_upgradable mail refl refl refl (upgrade-Out me m held_upgradable mail e timeout h)
  step-Ring (run lucky) converting mail w h =
      moves converting (convert m.word) mail none m.bucket (refl, refl) (refl, refl) (ground arith)
  step-Ring (call_try_upgrade lucky) held_upgradable mail w h =
      out held_upgradable mail refl refl refl (try_upgrade-Out me m held_upgradable mail e lucky h)
  step-Ring (run lucky) (convert state) mail w h =
      out (convert state) mail refl refl refl
        (convert-Out me m (convert state) mail e lucky state h)
  step-Ring call_downgrade held_exclusive mail w h =
      out held_exclusive mail refl refl refl (downgrade-Out me m held_exclusive mail e h)
  step-Ring call_downgrade held_upgradable mail w h =
      out held_upgradable mail refl refl refl
        (downgrade_upgradable-Out me m held_upgradable mail e h)
  step-Ring call_downgrade_to_upgradable held_exclusive mail w h =
      out held_exclusive mail refl refl refl
        (downgrade_to_upgradable-Out me m held_exclusive mail e h)
  step-Ring _ _ mail w h = absurd (cc)
