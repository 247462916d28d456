-- ===== src/Sync/Once/System/Classify.antt =====
-- Every step of a thread of `Once` is of one of the kinds.
use parking_lot.Prelude.{
  ℕ, ◌≡◌, refl, inl, inr, Bool, true, false, not, ◌&&◌, ◌||◌, Option, none, some, arith, ◌==◌,
  if◌then◌else◌, Bool-cases, has_bit,
}
use parking_lot.Core.SpinWait
use parking_lot.Core.SpinWait.{SpinWait}
use parking_lot.Sync.Once.{
  done_bit, poison_bit, locked_bit, parked_bit, OnceState, fresh, poisoned, Pc, idle, start, reload,
  slow, parking, validating, enqueuing, abandoning, asleep, running, waking, emptying, returned,
  panicked, Action, call, run, finish, Shared, Effect, slow_step, finish_step, lock_bucket,
  unpark_all_step, wake_step, step,
}
use parking_lot.Sync.Once.System.Moves.{
  sleeps, enqueues, runs, wakes, sees_done, Calm, local, acquire, mark, enter, leave, validate,
  enqueue, wake, complete, empties, Move,
}

calm :
    {m : Shared} {p p' : Pc}
    → sleeps p ≡ false
    → sleeps p' ≡ false
    → runs p ≡ false
    → runs p' ≡ false
    → enqueues p' ≡ false
    → wakes p' ≡ wakes p
    → (sees_done p' ≡ true → (sees_done p || has_bit done_bit m.word) ≡ true)
    → Calm m p p'
calm h1 h2 h3 h4 h5 h6 h7 = record {
  awake = h1;
  awake' = h2;
  still = h3;
  still' = h4;
  enqueues' = h5;
  same_wakes = h6;
  done = h7;
}

slow-Move :
    (me : ℕ) (lucky force : Bool) (state : ℕ) (w : SpinWait) (m : Shared) (woken : Bool)
    (e : Effect)
    → slow_step lucky force state w m ≡ some e
    → Move me (run lucky) m (slow force state w) woken e
unfolding slow_step
slow-Move me lucky force state w m woken e h = elim (Bool-cases (has_bit done_bit state)) [
  | inl ended ↦ (
    local returned,
    (ground arith, refl, refl, refl, calm refl refl refl refl refl refl (λ t. ground arith)),
  )
  | inr open_ ↦ elim (Bool-cases (has_bit poison_bit state && not force)) [
    | inl refused ↦ (
      local panicked,
      (ground arith, refl, refl, refl, calm refl refl refl refl refl refl (λ t. cc)),
    )
    | inr goes_on ↦ elim (Bool-cases (has_bit locked_bit state)) [
      | inr free ↦ elim (Bool-cases (lucky && (m.word == state))) [
        | inl won ↦ (
          acquire (if has_bit poison_bit state then poisoned else fresh),
          (ground arith, refl, ground arith, ground arith, refl, refl, refl),
        )
        | inr lost ↦ (
          local (slow force m.word w),
          (ground arith, refl, refl, refl, calm refl refl refl refl refl refl (λ t. ground arith)),
        )
      ]
      | inl taken ↦ elim (Bool-cases (not (has_bit parked_bit state) && (SpinWait.spin w).2)) [
        | inl spun ↦ (
          local (slow force m.word (SpinWait.spin w).0),
          (ground arith, refl, refl, refl, calm refl refl refl refl refl refl (λ t. ground arith)),
        )
        | inr parks ↦ elim (Bool-cases (has_bit parked_bit state)) [
          | inl marked ↦ (
            local (parking force),
            (ground arith, refl, refl, refl, calm refl refl refl refl refl refl (λ t. cc)),
          )
          | inr unmarked ↦ elim (Bool-cases (lucky && (m.word == state))) [
            | inl won ↦ (mark force, (ground arith, refl, ground arith, refl, refl, refl, refl))
            | inr lost ↦ (
              local (slow force m.word (SpinWait.spin w).0),
              (
                ground arith,
                refl,
                refl,
                refl,
                calm refl refl refl refl refl refl (λ t. ground arith),
              ),
            )
          ]
        ]
      ]
    ]
  ]
]

lock_bucket-Move :
    (me : ℕ) (lucky : Bool) (b : Option ℕ) (m : Shared) (p p' : Pc) (woken : Bool) (e : Effect)
    → m.bucket ≡ b
    → Calm m p p'
    → lock_bucket me b m p' ≡ some e
    → Move me (run lucky) m p woken e
unfolding lock_bucket
lock_bucket-Move me lucky none m p p' woken e q c k = (enter p', (ground arith, refl, q, c))
lock_bucket-Move me lucky (some j) m p p' woken e q c k = absurd (cc)

wake-Move :
    (me : ℕ) (lucky force : Bool) (m : Shared) (woken : Bool) (e : Effect)
    → wake_step force woken m ≡ some e
    → Move me (run lucky) m (asleep force) woken e
unfolding wake_step
wake-Move me lucky force m true e h = (wake force, (refl, refl, refl, ground arith))
wake-Move me lucky force m false e h = absurd (cc)

finish-Move :
    (me : ℕ) (ok : Bool) (was : OnceState) (m : Shared) (woken : Bool) (e : Effect)
    → finish_step ok m ≡ some e
    → Move me (finish ok) m (running was) woken e
unfolding finish_step
finish-Move me true was m woken e h = (complete was true, (refl, refl, ground arith))
finish-Move me false was m woken e h = (complete was false, (refl, refl, ground arith))

-- Every step is one of the moves.
pub step-Move :
    (me : ℕ) (a : Action) (m : Shared) (p : Pc) (woken : Bool) (e : Effect)
    → step me a m p woken ≡ some e
    → Move me a m p woken e
unfolding step unpark_all_step
step-Move me (call force) m idle woken e h = (
  local (start force),
  (ground arith, refl, refl, refl, calm refl refl refl refl refl refl (λ t. cc)),
)
step-Move me (call force) m returned woken e h = (
  local (start force),
  (ground arith, refl, refl, refl, calm refl refl refl refl refl refl (λ t. cc)),
)
step-Move me (call force) m panicked woken e h = (
  local (start force),
  (ground arith, refl, refl, refl, calm refl refl refl refl refl refl (λ t. cc)),
)
step-Move me (run lucky) m (start force) woken e h = elim (Bool-cases (m.word == done_bit)) [
  | inl over ↦ (
    local returned,
    (ground arith, refl, refl, refl, calm refl refl refl refl refl refl (λ t. ground arith)),
  )
  | inr open_ ↦ (
    local (reload force),
    (ground arith, refl, refl, refl, calm refl refl refl refl refl refl (λ t. cc)),
  )
]
step-Move me (run lucky) m (reload force) woken e h = (
  local (slow force m.word SpinWait.new),
  (ground arith, refl, refl, refl, calm refl refl refl refl refl refl (λ t. ground arith)),
)
step-Move me (run lucky) m (slow force state w) woken e h =
    slow-Move me lucky force state w m woken e h
step-Move me (run lucky) m (parking force) woken e h =
    lock_bucket-Move me lucky m.bucket m (parking force) (validating force) woken e refl
      (calm refl refl refl refl refl refl (λ t. cc)) h
step-Move me (run lucky) m (validating force) woken e h =
    (validate force, (refl, refl, ground arith))
step-Move me (run lucky) m (enqueuing force) woken e h = (enqueue force, (refl, refl, ground arith))
step-Move me (run lucky) m (abandoning force) woken e h = (
  leave (reload force),
  (ground arith, refl, refl, refl, calm refl refl refl refl refl refl (λ t. cc)),
)
step-Move me (run lucky) m (asleep force) woken e h = wake-Move me lucky force m woken e h
step-Move me (finish ok) m (running was) woken e h = finish-Move me ok was m woken e h
step-Move me (run lucky) m (waking ok) woken e h =
    lock_bucket-Move me lucky m.bucket m (waking ok) (emptying ok) woken e refl
      (calm refl refl refl refl refl refl (λ t. ground arith)) h
step-Move me (run lucky) m (emptying ok) woken e h = (empties ok, (refl, refl, ground arith))
step-Move me _ m _ woken e h = absurd (cc)
