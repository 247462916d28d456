-- ===== src/Sync/RawRwLock/System/DrainMoves.antt =====
-- The steps of the thread that waits for the readers to leave, by their kinds.
use parking_lot.Prelude.{
  ℕ, ◌≡◌, sym, ap, refl, inl, inr, Bool, true, false, not, ◌&&◌, Option, none, some, [], ◌∷◌, ◌++◌,
  ◌==◌, arith, Bool-cases, keep,
}
use parking_lot.Core.SpinWait
use parking_lot.Core.SpinWait.{SpinWait}
use parking_lot.Sync.RawRwLock.{
  Word, same_word, reverts, Pc, idle, held_upgradable, held_exclusive, waking, drain_loading,
  draining, drain_parking, drain_validating, drain_enqueuing, drain_abandoning, drain_asleep,
  drain_timing, drain_timed, reverting, Shared, Effect, effect,
}
use parking_lot.Sync.RawRwLock.Drain.{
  drain_step, lock_writer, drain_validate_step, drain_enqueue_step, drain_wake_step,
  drain_timed_step, revert, revert_step,
}
use parking_lot.Sync.RawRwLock.System.Holds.{awaits, hold_at, Shows}
use parking_lot.Sync.RawRwLock.System.Swaps.{same_word-eq, keeps, drained, reverts_to}
use parking_lot.Sync.RawRwLock.System.Moves.{
  awake, place, stays, joins_writer, leaves_writer, wakes, swaps, Move,
}
use parking_lot.Sync.RawRwLock.System.LockMoves.{plain_to, same}

module _ {me : ℕ} {mail : Option ℕ} (m : Shared) (e : Effect) where
  -- The thread loads the word, and may see that no reader is left.
  pub loads-Move :
      (p : Pc) (upgrading timeout : Bool) (w : SpinWait)
      → e ≡ effect m (draining upgrading timeout m.word w) none
      → place p ≡ awake
      → hold_at p mail ≡ awaits
      → Shows m.word (hold_at p mail)
      → Move me m p mail e
  loads-Move p upgrading timeout w q a h s =
      plain_to (draining upgrading timeout m.word w) m.word m.bucket m.writer_bucket q a refl
        (elim (Bool-cases (m.word.readers == 0)) [
          | inl z ↦ rw (h, z) (drained m.word (rw h at s) (ground arith))
          | inr z ↦ rw (h, z) (same (rw h at s))
        ])

  -- The loop sees that no reader is left.
  leaves-Move :
      (upgrading timeout : Bool) (state : Word) (w : SpinWait)
      → (state.readers == 0) ≡ true
      → e ≡ effect m held_exclusive none
      → Shows m.word (hold_at (draining upgrading timeout state w) mail)
      → Move me m (draining upgrading timeout state w) mail e
  leaves-Move upgrading timeout state w z q s =
      plain_to held_exclusive m.word m.bucket m.writer_bucket q refl refl (rw z (same (rw z at s)))

  pub drain-Move :
      (lucky upgrading timeout : Bool) (state : Word) (w : SpinWait)
      → drain_step lucky upgrading timeout state w m ≡ some e
      → Shows m.word (hold_at (draining upgrading timeout state w) mail)
      → Move me m (draining upgrading timeout state w) mail e
  unfolding drain_step
  drain-Move lucky upgrading timeout state w k s = elim (Bool-cases (state.readers == 0)) [
    | inl z ↦ leaves-Move upgrading timeout state w z (ground arith) s
    | inr z ↦
        let held : Shows m.word awaits = rw z at s in
        let h : hold_at (draining upgrading timeout state w) mail ≡ awaits = rw z refl in
        elim (Bool-cases (SpinWait.spin w).2) [
          | inl spun ↦
              loads-Move (draining upgrading timeout state w) upgrading timeout (SpinWait.spin w).0
                (ground arith) refl h s
          | inr tired ↦ elim (Bool-cases state.writer_parked) [
            | inl marked ↦
                plain_to (drain_parking upgrading timeout (SpinWait.spin w).0) m.word m.bucket
                  m.writer_bucket (ground arith) refl refl (rw h (same held))
            | inr unmarked ↦ elim (Bool-cases (lucky && same_word m.word state)) [
              | inl won ↦
                  let c : state ≡ m.word = sym (same_word-eq m.word state (ground arith)) in
                  plain_to (drain_parking upgrading timeout (SpinWait.spin w).0)
                    (record state { writer_parked = true }) m.bucket m.writer_bucket (ground arith)
                    refl refl
                    (rw h (
                      keeps (record state { writer_parked = true }) held (ap (λ z. z.readers) c)
                        (ap (λ z. z.upgradable) c) (ap (λ z. z.writer) c)))
              | inr lost ↦
                  loads-Move (draining upgrading timeout state w) upgrading timeout
                    (SpinWait.spin w).0 (ground arith) refl h s
            ]
          ]
        ]
  ]

  pub lock_writer-Move :
      (bucket : Option ℕ) (p p' : Pc)
      → m.writer_bucket ≡ bucket
      → lock_writer me bucket m p' none ≡ some e
      → place p ≡ awake
      → place p' ≡ awake
      → hold_at p mail ≡ hold_at p' none
      → Shows m.word (hold_at p mail)
      → Move me m p mail e
  unfolding lock_writer
  lock_writer-Move none p p' q k a a' h w =
      plain_to p' m.word m.bucket (some me) (ground arith) a a' (rw (← h) (same w))
  lock_writer-Move (some j) p p' q k a a' h w = absurd (cc)

  pub drain_timing-Move :
      (bucket : Option ℕ) (upgrading : Bool) (w : SpinWait)
      → lock_writer me bucket m (drain_timed upgrading w) mail ≡ some e
      → Shows m.word awaits
      → Move me m (drain_timing upgrading w) mail e
  unfolding lock_writer
  drain_timing-Move none upgrading w k s =
      let q : e ≡ effect (record m { writer_bucket = some me }) (drain_timed upgrading w) mail =
        ground arith in
      rw q (stays, (refl, refl, refl, (refl, refl, refl, refl)), swaps refl (same s))
  drain_timing-Move (some j) upgrading w k s = absurd (cc)

  pub drain_expire-Move :
      (upgrading : Bool) (w : SpinWait)
      → e ≡ effect m (drain_timing upgrading w) mail
      → Shows m.word awaits
      → Move me m (drain_asleep upgrading true w) mail e
  drain_expire-Move upgrading w q s =
      rw q (stays, (refl, refl, refl, (refl, refl, refl, refl)), swaps refl (same s))

  pub drain_validate-Move :
      (upgrading timeout : Bool) (w : SpinWait)
      → drain_validate_step upgrading timeout w m ≡ some e
      → Shows m.word awaits
      → Move me m (drain_validating upgrading timeout w) mail e
  unfolding drain_validate_step
  drain_validate-Move upgrading timeout w k s =
      elim (Bool-cases (not (m.word.readers == 0) && m.word.writer_parked)) [
        | inl v ↦
            plain_to (drain_enqueuing upgrading timeout w) m.word m.bucket m.writer_bucket
              (ground arith) refl refl (same s)
        | inr v ↦
            plain_to (drain_abandoning upgrading timeout w) m.word m.bucket m.writer_bucket
              (ground arith) refl refl (same s)
      ]

  pub drain_enqueue-Move :
      (upgrading timeout : Bool) (w : SpinWait)
      → drain_enqueue_step me upgrading timeout w m ≡ some e
      → Shows m.word awaits
      → Move me m (drain_enqueuing upgrading timeout w) mail e
  unfolding drain_enqueue_step
  drain_enqueue-Move upgrading timeout w k s =
      let q : e
          ≡ effect (record m { writer_queue = m.writer_queue ++ me ∷ []; writer_bucket = none })
              (drain_asleep upgrading timeout w) none =
        ground arith in
      rw q (joins_writer, (refl, refl, refl, refl, refl, refl, refl), swaps refl (same s))

  drain_wakes_to :
      (p : Pc) (upgrading timeout : Bool) (w : SpinWait) (token : ℕ) (bucket : Option ℕ)
      → e ≡ effect (record m { writer_bucket = bucket }) (drain_loading upgrading timeout w) none
      → mail ≡ some token
      → hold_at p mail ≡ awaits
      → Shows m.word awaits
      → Move me m p mail e
  drain_wakes_to p upgrading timeout w token bucket q n h s =
      rw q (wakes token, (n, (refl, refl), (refl, refl, refl, refl)), swaps refl (rw h (same s)))

  pub revert-Move :
      (upgrading : Bool)
      → revert_step upgrading m ≡ some e
      → Shows m.word awaits
      → Move me m (reverting upgrading) mail e
  unfolding revert_step
  revert-Move true k s = elim (Bool-cases m.word.parked) [
    | inl parks ↦
        plain_to (waking (reverts true)) (revert true m.word) m.bucket m.writer_bucket
          (ground arith) refl refl (reverts_to true m.word s)
    | inr alone ↦
        plain_to held_upgradable (revert true m.word) m.bucket m.writer_bucket (ground arith) refl
          refl (reverts_to true m.word s)
  ]
  revert-Move false k s = elim (Bool-cases m.word.parked) [
    | inl parks ↦
        plain_to (waking (reverts false)) (revert false m.word) m.bucket m.writer_bucket
          (ground arith) refl refl (reverts_to false m.word s)
    | inr alone ↦
        plain_to idle (revert false m.word) m.bucket m.writer_bucket (ground arith) refl refl
          (reverts_to false m.word s)
  ]

module _ (me : ℕ) (m : Shared) (e : Effect) where
  pub drain_wake-Move :
      (upgrading timeout : Bool) (w : SpinWait) (mail : Option ℕ)
      → drain_wake_step upgrading timeout w mail m ≡ some e
      → Shows m.word awaits
      → Move me m (drain_asleep upgrading timeout w) mail e
  unfolding drain_wake_step
  drain_wake-Move upgrading timeout w none k s = absurd (cc)
  drain_wake-Move upgrading timeout w (some token) k s =
      drain_wakes_to m e (drain_asleep upgrading timeout w) upgrading timeout w token
        m.writer_bucket (ground arith) refl refl s

  pub drain_timed-Move :
      (upgrading : Bool) (w : SpinWait) (mail : Option ℕ)
      → drain_timed_step me upgrading w mail m ≡ some e
      → Shows m.word awaits
      → Move me m (drain_timed upgrading w) mail e
  unfolding drain_timed_step
  drain_timed-Move upgrading w (some token) k s =
      drain_wakes_to m e (drain_timed upgrading w) upgrading true w token none (ground arith) refl
        refl s
  drain_timed-Move upgrading w none k s =
      let s' : Word = record m.word { writer_parked = false } in
      let q : e
          ≡ effect
              (record m {
                word = s';
                writer_bucket = none;
                writer_queue = keep (λ i. not (i == me)) m.writer_queue;
              })
              (reverting upgrading) none =
        ground arith in
      rw q (
        leaves_writer,
        (refl, refl, refl, refl, refl, (refl, refl)),
        swaps refl (keeps s' s refl refl refl),
      )
