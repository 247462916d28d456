-- ===== src/Sync/RawRwLock/System/LockMoves.antt =====
-- The steps that acquire a reader-writer lock, by their kinds.
use parking_lot.Prelude.{
  ℕ, ◌≡◌, sym, ap, refl, inl, inr, Bool, true, false, not, ◌&&◌, ◌||◌, Option, none, some, [], ◌∷◌,
  ◌++◌, ◌==◌, if◌then◌else◌, arith, Bool-cases, is_empty, keep, update,
}
use parking_lot.Core.SpinWait
use parking_lot.Core.SpinWait.{SpinWait}
use parking_lot.Sync.RawMutex.{token_handoff}
use parking_lot.Sync.RawRwLock.{
  Word, free, same_word, Want, shared, upgradable, exclusive, token_of, fits, add_token, blocked,
  flagged, Pc, idle, panicked, probe, attempt, parking, validating, enqueuing, abandoning, asleep,
  timing, timed, held_exclusive, Shared, Effect, effect, got,
}
use parking_lot.Sync.RawRwLock.Lock.{
  fast_step, probe_step, attempt_step, lock_main, validate_step, enqueue_step, wake_step,
  timed_step, unparked,
}
use parking_lot.Sync.RawRwLock.System.Holds.{
  granted, Hold, nothing, hold_at, hold_token, Shows, Swap,
}
use parking_lot.Sync.RawRwLock.System.Swaps.{same_word-eq, keeps, gains, takes}
use parking_lot.Sync.RawRwLock.System.Moves.{
  awake, place, plain, stays, joins_main, leaves_main, wakes, swaps, Move,
}

-- A step of an awake thread that changes nothing but the word and the buckets' locks.
pub plain_to :
    {me : ℕ} {m : Shared} {p : Pc} {mail : Option ℕ} {e : Effect} (p' : Pc) (s' : Word)
    (b c : Option ℕ)
    → e ≡ effect (record m { word = s'; bucket = b; writer_bucket = c }) p' none
    → place p ≡ awake
    → place p' ≡ awake
    → Swap m.word (hold_at p mail) s' (hold_at p' none)
    → Move me m p mail e
plain_to p' s' b c q a a' w = rw q (plain, (a, (a', refl), (refl, refl, refl, refl)), swaps refl w)

pub same : {s : Word} {h : Hold} → Shows s h → Swap s h s h
same {s} w = keeps s w refl refl refl

pub got-hold :
    (want : Want) (timeout : Bool) → hold_at (got want timeout) none ≡ hold_token (token_of want)
got-hold (shared recursive) timeout = refl
got-hold upgradable timeout = refl
got-hold exclusive timeout = refl

pub got-awake : (want : Want) (timeout : Bool) → place (got want timeout) ≡ awake
got-awake (shared recursive) timeout = refl
got-awake upgradable timeout = refl
got-awake exclusive timeout = refl

module _ {me : ℕ} {mail : Option ℕ} (m : Shared) (e : Effect) where
  -- The lock is acquired: from an awake thread that holds nothing.
  acquires :
      (p : Pc) (want : Want) (timeout : Bool)
      → e ≡ effect (record m { word = add_token (token_of want) m.word }) (got want timeout) none
      → place p ≡ awake
      → hold_at p mail ≡ nothing
      → blocked want m.word ≡ false
      → Move me m p mail e
  acquires p want timeout q a h b =
      plain_to (got want timeout) _ m.bucket m.writer_bucket q a (got-awake want timeout)
        (rw (h, got-hold want timeout) (gains want m.word b))

  pub fast-Move :
      (p : Pc) (lucky : Bool) (want : Want) (timeout : Bool) (lost : Pc)
      → fast_step lucky want (got want timeout) lost m ≡ some e
      → place p ≡ awake
      → hold_at p mail ≡ nothing
      → place lost ≡ awake
      → hold_at lost none ≡ nothing
      → Shows m.word nothing
      → Move me m p mail e
  unfolding fast_step
  fast-Move p lucky exclusive timeout lost k a h a' h' w =
      elim (Bool-cases (lucky && same_word m.word free)) [
        | inl won ↦
            let z : m.word ≡ free = same_word-eq m.word free (ground arith) in
            plain_to held_exclusive (add_token (token_of exclusive) m.word) m.bucket m.writer_bucket
              (ground arith) a refl (rw h (takes m.word z))
        | inr failed ↦
            plain_to lost m.word m.bucket m.writer_bucket (ground arith) a a' (rw (h, h') (same w))
      ]
  fast-Move p lucky (shared recursive) timeout lost k a h a' h' w =
      elim (Bool-cases (
        lucky
        && not (blocked (shared recursive) m.word)
        && fits (token_of (shared recursive)) m.word)) [
          | inl won ↦ acquires p (shared recursive) timeout (ground arith) a h (ground arith)
          | inr failed ↦
              plain_to lost m.word m.bucket m.writer_bucket (ground arith) a a'
                (rw (h, h') (same w))
        ]
  fast-Move p lucky upgradable timeout lost k a h a' h' w =
      elim (Bool-cases
        (lucky && not (blocked upgradable m.word) && fits (token_of upgradable) m.word)) [
          | inl won ↦ acquires p upgradable timeout (ground arith) a h (ground arith)
          | inr failed ↦
              plain_to lost m.word m.bucket m.writer_bucket (ground arith) a a'
                (rw (h, h') (same w))
        ]

  pub probe-Move :
      (lucky : Bool) (want : Want) (state : Word)
      → probe_step lucky want state m ≡ some e
      → Shows m.word nothing
      → Move me m (probe want state) mail e
  unfolding probe_step
  probe-Move lucky want state k w = elim (Bool-cases (blocked want state)) [
    | inl b ↦ plain_to idle m.word m.bucket m.writer_bucket (ground arith) refl refl (same w)
    | inr b ↦ elim (Bool-cases (fits (token_of want) state)) [
      | inr f ↦ plain_to panicked m.word m.bucket m.writer_bucket (ground arith) refl refl (same w)
      | inl f ↦ elim (Bool-cases (lucky && same_word m.word state)) [
        | inl won ↦
            let z : state ≡ m.word = sym (same_word-eq m.word state (ground arith)) in
            acquires (probe want state) want false (rw (← z) (ground arith)) refl refl (rw z at b)
        | inr lost ↦
            plain_to (probe want m.word) m.word m.bucket m.writer_bucket (ground arith) refl refl
              (same w)
      ]
    ]
  ]

  pub attempt-Move :
      (lucky : Bool) (want : Want) (timeout : Bool) (state : Word) (spinwait : SpinWait)
      → attempt_step lucky want timeout state spinwait m ≡ some e
      → Shows m.word nothing
      → Move me m (attempt want timeout state spinwait) mail e
  unfolding attempt_step
  attempt-Move lucky want timeout state spinwait k w = elim (Bool-cases (blocked want state)) [
    | inr b ↦ elim (Bool-cases (fits (token_of want) state)) [
      | inr f ↦ plain_to panicked m.word m.bucket m.writer_bucket (ground arith) refl refl (same w)
      | inl f ↦ elim (Bool-cases (lucky && same_word m.word state)) [
        | inl won ↦
            let z : state ≡ m.word = sym (same_word-eq m.word state (ground arith)) in
            acquires (attempt want timeout state spinwait) want timeout (rw (← z) (ground arith))
              refl refl (rw z at b)
        | inr lost ↦
            plain_to (attempt want timeout m.word spinwait) m.word m.bucket m.writer_bucket
              (ground arith) refl refl (same w)
      ]
    ]
    | inl b ↦
        elim (Bool-cases
          (not (state.parked || state.writer_parked) && (SpinWait.spin spinwait).2)) [
            | inl spun ↦
                plain_to (attempt want timeout m.word (SpinWait.spin spinwait).0) m.word m.bucket
                  m.writer_bucket (ground arith) refl refl (same w)
            | inr parks ↦ elim (Bool-cases state.parked) [
              | inl marked ↦
                  plain_to (parking want timeout) m.word m.bucket m.writer_bucket (ground arith)
                    refl refl (same w)
              | inr unmarked ↦ elim (Bool-cases (lucky && same_word m.word state)) [
                | inl won ↦
                    let z : state ≡ m.word = sym (same_word-eq m.word state (ground arith)) in
                    plain_to (parking want timeout) (record state { parked = true }) m.bucket
                      m.writer_bucket (ground arith) refl refl
                      (keeps (record state { parked = true }) w (ap (λ z. z.readers) z)
                        (ap (λ z. z.upgradable) z) (ap (λ z. z.writer) z))
                | inr lost ↦
                    plain_to (attempt want timeout m.word spinwait) m.word m.bucket m.writer_bucket
                      (ground arith) refl refl (same w)
              ]
            ]
          ]
  ]

  pub lock_main-Move :
      (bucket : Option ℕ) (p p' : Pc)
      → m.bucket ≡ bucket
      → lock_main me bucket m p' none ≡ some e
      → place p ≡ awake
      → place p' ≡ awake
      → hold_at p mail ≡ hold_at p' none
      → Shows m.word (hold_at p mail)
      → Move me m p mail e
  unfolding lock_main
  lock_main-Move none p p' q k a a' h w =
      plain_to p' m.word (some me) m.writer_bucket (ground arith) a a' (rw (← h) (same w))
  lock_main-Move (some j) p p' q k a a' h w = absurd (cc)

  pub timing-Move :
      (bucket : Option ℕ) (want : Want)
      → lock_main me bucket m (timed want) mail ≡ some e
      → Shows m.word (granted want mail)
      → Move me m (timing want) mail e
  unfolding lock_main
  timing-Move none want k w =
      let q : e ≡ effect (record m { bucket = some me }) (timed want) mail = ground arith in
      rw q (stays, (refl, refl, refl, (refl, refl, refl, refl)), swaps refl (same w))
  timing-Move (some j) want k w = absurd (cc)

  pub expire-Move :
      (want : Want)
      → e ≡ effect m (timing want) mail
      → Shows m.word (granted want mail)
      → Move me m (asleep want true) mail e
  expire-Move want q w =
      rw q (stays, (refl, refl, refl, (refl, refl, refl, refl)), swaps refl (same w))

  pub validate-Move :
      (want : Want) (timeout : Bool)
      → validate_step want timeout m ≡ some e
      → Shows m.word nothing
      → Move me m (validating want timeout) mail e
  unfolding validate_step
  validate-Move want timeout k w = elim (Bool-cases (m.word.parked && flagged want m.word)) [
    | inl v ↦
        plain_to (enqueuing want timeout) m.word m.bucket m.writer_bucket (ground arith) refl refl
          (same w)
    | inr v ↦
        plain_to (abandoning want timeout) m.word m.bucket m.writer_bucket (ground arith) refl refl
          (same w)
  ]

  pub enqueue-Move :
      (want : Want) (timeout : Bool)
      → enqueue_step me want timeout m ≡ some e
      → Shows m.word nothing
      → Move me m (enqueuing want timeout) mail e
  unfolding enqueue_step
  enqueue-Move want timeout k w =
      let q : e
          ≡ effect
              (record m {
                queue = m.queue ++ me ∷ [];
                park_token = update m.park_token me (token_of want);
                bucket = none;
              })
              (asleep want timeout) none =
        ground arith in
      rw q (joins_main, (refl, refl, refl, refl, refl, refl, refl), swaps refl (same w))

  -- A woken thread goes on with what the token gives it.
  wakes_to :
      (p : Pc) (want : Want) (timeout : Bool) (token : ℕ) (bucket : Option ℕ)
      → e ≡ effect (record m { bucket = bucket }) (unparked want timeout token) none
      → mail ≡ some token
      → hold_at p mail ≡ granted want (some token)
      → Shows m.word (hold_at p mail)
      → Move me m p mail e
  wakes_to p want timeout token bucket q n h w = elim (Bool-cases (token == token_handoff)) [
    | inl d ↦ rw q (
      wakes token,
      (n, (rw d (got-awake want timeout), refl), (refl, refl, refl, refl)),
      swaps refl (rw (h, d, got-hold want timeout) (same (rw (h, d) at w))),
    )
    | inr d ↦ rw q (
      wakes token,
      (n, (rw d refl, refl), (refl, refl, refl, refl)),
      swaps refl (rw (h, d) (same (rw (h, d) at w))),
    )
  ]

module _ (me : ℕ) (m : Shared) (e : Effect) where
  pub wake-Move :
      (want : Want) (timeout : Bool) (mail : Option ℕ)
      → wake_step want timeout mail m ≡ some e
      → Shows m.word (granted want mail)
      → Move me m (asleep want timeout) mail e
  unfolding wake_step
  wake-Move want timeout none k w = absurd (cc)
  wake-Move want timeout (some token) k w =
      wakes_to m e (asleep want timeout) want timeout token m.bucket (ground arith) refl refl w

  pub timed-Move :
      (want : Want) (mail : Option ℕ)
      → timed_step me want mail m ≡ some e
      → Shows m.word (granted want mail)
      → Move me m (timed want) mail e
  unfolding timed_step
  timed-Move want (some token) k w =
      wakes_to m e (timed want) want true token none (ground arith) refl refl w
  timed-Move want none k w =
      let s' : Word =
        if is_empty (keep (λ i. not (i == me)) m.queue)
        then record m.word { parked = false }
        else m.word in
      let q : e
          ≡ effect
              (record m { word = s'; bucket = none; queue = keep (λ i. not (i == me)) m.queue })
              idle none =
        ground arith in
      rw q (
        leaves_main,
        (refl, refl, refl, refl, refl, (refl, refl)),
        swaps refl (keeps s' w (ground arith) (ground arith) (ground arith)),
      )
