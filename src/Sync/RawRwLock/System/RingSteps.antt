-- ===== src/Sync/RawRwLock/System/RingSteps.antt =====
-- Every step of a thread is of one of the kinds of Rings.
use parking_lot.Prelude.{ℕ, ◌≡◌, refl, Bool, true, false, Option, none, some, arith}
use parking_lot.Core.SpinWait.{SpinWait}
use parking_lot.Sync.RawRwLock.{
  Word, Want, shared, upgradable, exclusive, WakeReason, unlocks_exclusive, unlocks_upgradable,
  downgrades, downgrades_to_upgradable, reverts, Pc, Shared, Effect, got,
}
use parking_lot.Sync.RawRwLock.Lock.{
  fast_step, probe_step, attempt_step, lock_main, validate_step, enqueue_step, wake_step,
  timed_step,
}
use parking_lot.Sync.RawRwLock.Drain.{drain_step, revert_step}
use parking_lot.Sync.RawRwLock.Wake.{wake_callback, filter_step, after}
use parking_lot.Sync.RawRwLock.Step.{
  unlock_exclusive_step, free_step, release_step, upgrade_step, try_upgrade_step, convert_step,
  downgrade_step, downgrade_upgradable_step, downgrade_to_upgradable_step,
}
use parking_lot.Sync.RawRwLock.System.Holds.{hold_why, is_major}
use parking_lot.Sync.RawRwLock.System.Swaps.{same_word-eq}
use parking_lot.Sync.RawRwLock.System.Rings.{signals, inside, enqueues, guarded, Outside}

after-out : (why : WakeReason) → (enqueues (after why) ≡ false) × (inside (after why) ≡ false)
after-out (unlocks_exclusive force_fair relock) = ground arith
after-out (unlocks_upgradable force_fair relock) = ground arith
after-out downgrades = (refl, refl)
after-out downgrades_to_upgradable = (refl, refl)
after-out (reverts upgrading) = ground arith

module _ (me : ℕ) (m : Shared) (p : Pc) (mail : Option ℕ) (e : Effect) where
  -- The guard of the writer is kept, and the writer's queue is left alone.
  abbrev pub Calm : Type 0
  Calm = Outside me m p mail e × (guarded m ≡ true → guarded e.shared_state ≡ true)

  pub got-calm :
      (want : Want) (timeout : Bool)
      → (enqueues (got want timeout) ≡ false)
        × (inside (got want timeout) ≡ false)
        × (signals (got want timeout) ≡ false)
  got-calm (shared recursive) timeout = (refl, refl, refl)
  got-calm upgradable timeout = (refl, refl, refl)
  got-calm exclusive timeout = (refl, refl, refl)

  pub fast-Calm :
      (lucky : Bool) (want : Want) (timeout : Bool) (lost : Pc)
      → (enqueues lost ≡ false) × (inside lost ≡ false)
      → fast_step lucky want (got want timeout) lost m ≡ some e
      → Calm
  unfolding fast_step
  fast-Calm lucky (shared recursive) timeout lost h k = ground arith
  fast-Calm lucky upgradable timeout lost h k = ground arith
  fast-Calm lucky exclusive timeout lost h k = ground arith

  pub probe-Calm :
      (lucky : Bool) (want : Want) (state : Word) → probe_step lucky want state m ≡ some e → Calm
  unfolding probe_step
  probe-Calm lucky want state k =
      ground (arith, same_word-eq m.word state, got-calm want false, want)

  pub attempt-Calm :
      (lucky : Bool) (want : Want) (timeout : Bool) (state : Word) (w : SpinWait)
      → attempt_step lucky want timeout state w m ≡ some e
      → Calm
  unfolding attempt_step
  attempt-Calm lucky want timeout state w k =
      ground (arith, same_word-eq m.word state, got-calm want timeout, want)

  pub lock_main-Calm :
      (bucket : Option ℕ) (p' : Pc) (mail' : Option ℕ)
      → (enqueues p' ≡ false) × (inside p' ≡ false)
      → lock_main me bucket m p' mail' ≡ some e
      → Calm
  unfolding lock_main
  lock_main-Calm none p' mail' h k = ground arith
  lock_main-Calm (some j) p' mail' h k = absurd (cc)

  pub validate-Calm : (want : Want) (timeout : Bool) → validate_step want timeout m ≡ some e → Calm
  unfolding validate_step
  validate-Calm want timeout k = ground arith

  pub enqueue-Calm : (want : Want) (timeout : Bool) → enqueue_step me want timeout m ≡ some e → Calm
  unfolding enqueue_step
  enqueue-Calm want timeout k = ground arith

  pub wake-Calm :
      (want : Want) (timeout : Bool) (mail' : Option ℕ)
      → wake_step want timeout mail' m ≡ some e
      → Calm
  unfolding wake_step
  wake-Calm want timeout none k = absurd (cc)
  wake-Calm want timeout (some token) k = ground (arith, got-calm want timeout)

  pub timed-Calm : (want : Want) (mail' : Option ℕ) → timed_step me want mail' m ≡ some e → Calm
  unfolding timed_step
  timed-Calm want (some token) k = ground (arith, got-calm want true)
  timed-Calm want none k = ground arith

  pub drain-Calm :
      (lucky upgrading timeout : Bool) (state : Word) (w : SpinWait)
      → drain_step lucky upgrading timeout state w m ≡ some e
      → Calm
  unfolding drain_step
  drain-Calm lucky upgrading timeout state w k = ground (arith, same_word-eq m.word state)

  -- The thread that holds an upgradable or an exclusive lock.
  abbrev pub Out : Type 0
  Out = Outside me m p mail e

  pub revert-Out : (upgrading : Bool) → revert_step upgrading m ≡ some e → Out
  unfolding revert_step
  revert-Out upgrading k = ground arith

  pub unlock_exclusive-Out : (fair : Bool) → unlock_exclusive_step fair m ≡ some e → Out
  unfolding unlock_exclusive_step
  unlock_exclusive-Out fair k = ground arith

  pub free-Out : (lucky : Bool) → free_step lucky m ≡ some e → Out
  unfolding free_step
  free-Out lucky k = ground arith

  pub release-Out :
      (lucky force_fair relock : Bool) (state : Word)
      → release_step lucky force_fair relock state m ≡ some e
      → Out
  unfolding release_step
  release-Out lucky force_fair relock state k = ground arith

  pub upgrade-Out : (timeout : Bool) → upgrade_step timeout m ≡ some e → Out
  unfolding upgrade_step
  upgrade-Out timeout k = ground arith

  pub try_upgrade-Out : (lucky : Bool) → try_upgrade_step lucky m ≡ some e → Out
  unfolding try_upgrade_step
  try_upgrade-Out lucky k = ground arith

  pub convert-Out : (lucky : Bool) (state : Word) → convert_step lucky state m ≡ some e → Out
  unfolding convert_step
  convert-Out lucky state k = ground arith

  pub downgrade-Out : downgrade_step m ≡ some e → Out
  unfolding downgrade_step
  downgrade-Out k = ground arith

  pub downgrade_upgradable-Out : downgrade_upgradable_step m ≡ some e → Out
  unfolding downgrade_upgradable_step
  downgrade_upgradable-Out k = ground arith

  pub downgrade_to_upgradable-Out : downgrade_to_upgradable_step m ≡ some e → Out
  unfolding downgrade_to_upgradable_step
  downgrade_to_upgradable-Out k = ground arith

  pub filter-Out :
      (why : WakeReason) (be_fair gives_up : Bool)
      → filter_step why be_fair gives_up m ≡ some e
      → Out
  unfolding filter_step
  filter-Out why be_fair gives_up k = ground (arith, after-out why)

  -- A thread that wakes others but keeps what it holds leaves the guard as it is.
  pub filter-Calm :
      (why : WakeReason) (be_fair gives_up : Bool)
      → is_major (hold_why why) ≡ false
      → filter_step why be_fair gives_up m ≡ some e
      → Calm
  unfolding filter_step wake_callback
  filter-Calm (unlocks_exclusive force_fair relock) be_fair gives_up n k = absurd (cc)
  filter-Calm (unlocks_upgradable force_fair relock) be_fair gives_up n k = absurd (cc)
  filter-Calm downgrades be_fair gives_up n k = ground arith
  filter-Calm downgrades_to_upgradable be_fair gives_up n k = absurd (cc)
  filter-Calm (reverts upgrading) be_fair gives_up n k = ground arith
