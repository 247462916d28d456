-- ===== src/Sync/RawMutex/System/Classify.antt =====
-- Every step of a thread is of one of the kinds.
use parking_lot.Prelude.{
  ℕ, ◌≡◌, refl, inl, inr, Bool, true, false, not, ◌&&◌, ◌||◌, Option, none, some, List, [], ◌∷◌,
  arith, ◌==◌, Bool-cases, has_bit,
}
use parking_lot.Core.SpinWait
use parking_lot.Core.SpinWait.{SpinWait}
use parking_lot.Sync.RawMutex.{
  locked_bit, parked_bit, Pc, idle, start, slow, parking, validating, enqueuing, abandoning, asleep,
  timing, timed, reload, trying, held, unlocking, unparking, Action, call_lock, call_try_lock,
  call_unlock, call_bump, run, expire, unpark, Shared, Effect, unlock_callback, slow_step,
  wake_step, timed_step, unpark_step, lock_bucket, step,
}
use parking_lot.Sync.RawMutex.System.Moves.{
  Local, local, acquire, mark, enter, validate, enqueue, abandon, wake, expires, relocks, late,
  times_out, release, release_all, hand_off, unlocks, Move, sleeps, inside, enqueues, holds, tries,
}

stay :
    {p p' : Pc}
    → sleeps p ≡ false
    → sleeps p' ≡ false
    → inside p' ≡ inside p
    → holds p' ≡ holds p
    → enqueues p' ≡ false
    → (tries p ≡ true → tries p' ≡ true)
    → Local p p'
stay awake awake' keeps_inside keeps_holds enqueues' keeps_tries = record {
  awake = awake;
  awake' = awake';
  inside = keeps_inside;
  holds = keeps_holds;
  enqueues' = enqueues';
  tries = keeps_tries;
}

slow-Move :
    (me : ℕ) (lucky timeout : Bool) (state : ℕ) (w : SpinWait) (m : Shared) (mail : Option ℕ)
    (e : Effect)
    → slow_step lucky timeout state w m ≡ some e
    → Move me m (slow timeout state w) mail e
unfolding slow_step
slow-Move me lucky timeout state w m mail e h = elim (Bool-cases (has_bit locked_bit state)) [
  | inr free ↦ elim (Bool-cases (lucky && (m.word == state))) [
    | inl won ↦ (acquire, (ground arith, ground arith, (refl, refl, refl)))
    | inr lost ↦
        (local (slow timeout m.word w), (ground arith, stay refl refl refl refl refl (λ _. refl)))
  ]
  | inl taken ↦ elim (Bool-cases (not (has_bit parked_bit state) && (SpinWait.spin w).2)) [
    | inl spun ↦ (
      local (slow timeout m.word (SpinWait.spin w).0),
      (ground arith, stay refl refl refl refl refl (λ _. refl)),
    )
    | inr parks ↦ elim (Bool-cases (has_bit parked_bit state)) [
      | inl marked ↦
          (local (parking timeout), (ground arith, stay refl refl refl refl refl (λ _. refl)))
      | inr unmarked ↦ elim (Bool-cases (lucky && (m.word == state))) [
        | inl won ↦ (mark timeout, (ground arith, ground arith, (refl, refl, refl)))
        | inr lost ↦ (
          local (slow timeout m.word (SpinWait.spin w).0),
          (ground arith, stay refl refl refl refl refl (λ _. refl)),
        )
      ]
    ]
  ]
]

unpark-Move :
    (me : ℕ) (fair relock be_fair : Bool) (m : Shared) (xs : List ℕ) (mail : Option ℕ) (e : Effect)
    → m.queue ≡ xs
    → unpark_step fair relock be_fair m xs ≡ some e
    → Move me m (unparking fair relock) mail e
unfolding unpark_step unlock_callback
unpark-Move me fair relock be_fair m [] mail e q h =
    (release_all fair relock, (refl, q, ground arith))
unpark-Move me fair relock be_fair m (x ∷ xs) mail e q h = elim (Bool-cases (fair || be_fair)) [
  | inl f ↦ (hand_off fair relock x xs, (refl, q, ground arith))
  | inr f ↦ (unlocks fair relock x xs, (refl, q, ground arith, ground arith))
]

timed-Move :
    (me : ℕ) (m : Shared) (mail : Option ℕ) (e : Effect)
    → timed_step me mail m ≡ some e
    → Move me m timed mail e
unfolding timed_step
timed-Move me m none e h = (times_out, (refl, refl, ground arith))
timed-Move me m (some token) e h = (late token, (refl, refl, ground arith))

wake-Move :
    (me : ℕ) (timeout : Bool) (m : Shared) (mail : Option ℕ) (e : Effect)
    → wake_step timeout mail m ≡ some e
    → Move me m (asleep timeout) mail e
unfolding wake_step
wake-Move me timeout m none e h = absurd (cc)
wake-Move me timeout m (some token) e h = (wake timeout token, (refl, refl, ground arith))

lock_bucket-Move :
    (me : ℕ) (b : Option ℕ) (m : Shared) (p p' : Pc) (mail : Option ℕ) (e : Effect)
    → m.bucket ≡ b
    → sleeps p ≡ false
    → (sleeps p' ≡ false) × (holds p' ≡ holds p) × (enqueues p' ≡ false) × (tries p' ≡ tries p)
    → lock_bucket me b m p' ≡ some e
    → Move me m p mail e
unfolding lock_bucket
lock_bucket-Move me none m p p' mail e q a h k = (enter p', (ground arith, q, a, h))
lock_bucket-Move me (some j) m p p' mail e q a h k = absurd (cc)

timing-Move :
    (me : ℕ) (b : Option ℕ) (m : Shared) (mail : Option ℕ) (e : Effect)
    → m.bucket ≡ b
    → step me (run true) m timing mail ≡ some e
    → Move me m timing mail e
unfolding step
timing-Move me none m mail e q h = (relocks, (refl, q, ground arith))
timing-Move me (some j) m mail e q h = ground arith

-- Every step is one of the moves.
pub step-Move :
    (me : ℕ) (a : Action) (m : Shared) (p : Pc) (mail : Option ℕ) (e : Effect)
    → step me a m p mail ≡ some e
    → Move me m p mail e
unfolding step
step-Move me (call_lock timeout) m idle mail e h =
    (local (start timeout), (ground arith, stay refl refl refl refl refl (λ t. cc)))
step-Move me call_try_lock m idle mail e h =
    (local (trying m.word), (ground arith, stay refl refl refl refl refl (λ t. cc)))
step-Move me (call_unlock fair) m held mail e h = elim (Bool-cases (m.word == locked_bit)) [
  | inl free ↦ (release, (refl, ground arith, ground arith))
  | inr busy ↦
      (local (unlocking fair false), (ground arith, stay refl refl refl refl refl (λ t. cc)))
]
step-Move me call_bump m held mail e h = elim (Bool-cases (has_bit parked_bit m.word)) [
  | inl waits ↦
      (local (unlocking true true), (ground arith, stay refl refl refl refl refl (λ t. cc)))
  | inr alone ↦ (local held, (ground arith, stay refl refl refl refl refl (λ t. cc)))
]
step-Move me (run lucky) m (start timeout) mail e h = elim (Bool-cases (lucky && (m.word == 0))) [
  | inl won ↦ (acquire, (ground arith, ground arith, (refl, refl, refl)))
  | inr lost ↦ (
    local (slow timeout m.word SpinWait.new),
    (ground arith, stay refl refl refl refl refl (λ t. cc)),
  )
]
step-Move me (run lucky) m (slow timeout state w) mail e h =
    slow-Move me lucky timeout state w m mail e h
step-Move me (run lucky) m (parking timeout) mail e h =
    lock_bucket-Move me m.bucket m (parking timeout) (validating timeout) mail e refl refl
      (refl, refl, refl, refl) h
step-Move me (run lucky) m (validating timeout) mail e h = elim (Bool-cases (m.word == 3)) [
  | inl valid ↦ (validate timeout, (refl, ground arith, ground arith))
  | inr not_valid ↦
      (local (abandoning timeout), (ground arith, stay refl refl refl refl refl (λ _. refl)))
]
step-Move me (run lucky) m (enqueuing timeout) mail e h = (enqueue timeout, (refl, ground arith))
step-Move me (run lucky) m (abandoning timeout) mail e h = (abandon timeout, (refl, ground arith))
step-Move me (run lucky) m (asleep timeout) mail e h = wake-Move me timeout m mail e h
step-Move me expire m (asleep true) mail e h = (expires, (refl, ground arith))
step-Move me (run lucky) m timing mail e h = timing-Move me m.bucket m mail e refl h
step-Move me (run lucky) m timed mail e h = timed-Move me m mail e h
step-Move me (run lucky) m (reload timeout) mail e h = (
  local (slow timeout m.word SpinWait.new),
  (ground arith, stay refl refl refl refl refl (λ _. refl)),
)
step-Move me (run lucky) m (trying state) mail e h = elim (Bool-cases (has_bit locked_bit state)) [
  | inl taken ↦ (local idle, (ground arith, stay refl refl refl refl refl (λ t. cc)))
  | inr free ↦ elim (Bool-cases (lucky && (m.word == state))) [
    | inl won ↦ (acquire, (ground arith, ground arith, (refl, refl, refl)))
    | inr lost ↦ (local (trying m.word), (ground arith, stay refl refl refl refl refl (λ t. cc)))
  ]
]
step-Move me (run lucky) m (unlocking fair relock) mail e h =
    lock_bucket-Move me m.bucket m (unlocking fair relock) (unparking fair relock) mail e refl refl
      (refl, refl, refl, refl) h
step-Move me (unpark be_fair) m (unparking fair relock) mail e h =
    unpark-Move me fair relock be_fair m m.queue mail e refl h
step-Move me _ m _ mail e h = absurd (cc)
