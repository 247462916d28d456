-- ===== src/Sync/Once/System/Safety.antt =====
-- What holds of every reachable state of a `Once`.
use parking_lot.Prelude.{
  ℕ, ◌+◌, ◌≡◌, ◌≤◌, refl, ◌⊎◌, ◌↔◌, inl, inr, Bool, true, false, arith, ◌∈◌, Bool-cases,
  if◌then◌else◌,
}
use parking_lot.Sync.Once.{state, done, in_progress, returned}
use parking_lot.Sync.Once.System.{System, Step, pick, init, Reach, initial, later, completes}
use parking_lot.Sync.Once.System.Moves.{sleeps, runs, wakes, sees_done}
use parking_lot.Sync.Once.System.Classify.{step-Move}
use parking_lot.Sync.Once.System.Invariant.{Inv}
use parking_lot.Sync.Once.System.Fields.{Move-Inv}

-- What `Once::new_completed` counts for: it stands for one closure that has returned.
abbrev base : Bool → ℕ
base made_completed = if made_completed then 1 else 0

init-Inv :
    (made : Bool) → Inv (init made).shared (init made).threads ((init made).completions + base made)
init-Inv made = record {
  known = ground arith;
  locked = λ i h. cc;
  unique = λ i j h. cc;
  owner = λ h. absurd (ground arith);
  queued = λ i h. cc;
  asleep = λ i h. cc;
  quiet = λ i h. refl;
  holder = λ i h. cc;
  served = λ i h. absurd (cc);
  seen = λ i h. cc;
  count = ground arith;
}

Step-Inv :
    {s t : System}
    → Step s t
    → (b : ℕ) → Inv s.shared s.threads (s.completions + b)
    → Inv t.shared t.threads (t.completions + b)
Step-Inv {s} (pick i a {e} h) b inv =
    let moved : (s.completions + completes a) + b ≡ (s.completions + b) + completes a =
      omega arith in
    rw moved (Move-Inv inv i a e (step-Move i a s.shared _ _ e h))

pub Reach-Inv :
    {made : Bool} {s : System} → Reach made s → Inv s.shared s.threads (s.completions + base made)
Reach-Inv {made} initial = init-Inv made
Reach-Inv {made} (later r st) = Step-Inv st (base made) (Reach-Inv r)

-- In every reachable state of the threads that call `call_once` and `call_once_force` on one
-- `Once`, where `completions` counts the closures that have returned. On a `Once` of `Once::new`:
-- at most one closure has returned, while a thread is in a closure none has, and a call that has
-- itself returned without panicking did so after exactly one closure had returned. On a `Once` of
-- `Once::new_completed`: no closure has returned, and no thread is in one. On either, at most one
-- thread is in a closure.
pub initializes_once :
    {made_completed : Bool} {s : System}
    → Reach made_completed s
    → (s.completions ≤ (if made_completed then 0 else 1))
      × ((i j : ℕ) → runs (s.threads i).pc ≡ true → runs (s.threads j).pc ≡ true → i ≡ j)
      × ((i : ℕ) → runs (s.threads i).pc ≡ true → (made_completed ≡ false) × (s.completions ≡ 0))
      × ((i : ℕ) → (s.threads i).pc ≡ returned → s.completions ≡ (if made_completed then 0 else 1))
initializes_once {made_completed} {s} r =
    let inv = Reach-Inv r in
    (
      ground (arith, inv.count),
      inv.unique,
      (λ i h. (ground (arith, inv.count, inv.locked i), ground (arith, inv.count, inv.locked i))),
      λ i h.
          let d : sees_done (s.threads i).pc ≡ true = rw h refl in
          ground (arith, inv.count, inv.seen i d),
    )

-- No lost wake-up: in every reachable state of either kind of `Once`, a thread that is parked on it
-- and has not been woken is in the queue, and some thread is in a closure, or past it and about to
-- empty the queue.
pub waiter_is_served :
    {made_completed : Bool} {s : System}
    → Reach made_completed s
    → (i : ℕ) → sleeps (s.threads i).pc ≡ true
    → (s.threads i).woken ≡ false
    → (i ∈ s.shared.queue)
      × (((j : ℕ) × (runs (s.threads j).pc ≡ true)) ⊎ ((j : ℕ) × (wakes (s.threads j).pc ≡ true)))
waiter_is_served {s} r i a w =
    let inv = Reach-Inv r in
    (
      inv.asleep i a w,
      elim (inv.served i (ground arith)) [
        | inl full ↦ inl (inv.owner (ground arith))
        | inr waker ↦ inr waker
      ],
    )

-- In every reachable state, `Once::state` answers `Done` exactly if a closure has returned or the
-- `Once` was made by `Once::new_completed`, and `InProgress` exactly while some thread is in a
-- closure.
pub state_reports :
    {made_completed : Bool} {s : System}
    → Reach made_completed s
    → ((state s.shared.word ≡ done) ↔ ((s.completions ≡ 1) ⊎ (made_completed ≡ true)))
      × ((state s.shared.word ≡ in_progress) ↔ ((i : ℕ) × (runs (s.threads i).pc ≡ true)))
unfolding state
state_reports {made_completed} {s} r =
    let inv = Reach-Inv r in
    (
      (
        (λ h. elim (Bool-cases made_completed) [
          | inl new_one ↦ inr new_one
          | inr old_one ↦ inl (ground (arith, inv.count, inv.known))
        ]),
        λ h. elim h [
          | inl one ↦ ground (arith, inv.count, inv.known)
          | inr made_one ↦ ground (arith, inv.count, inv.known)
        ],
      ),
      (
        (λ h. inv.owner (ground (arith, inv.known))),
        λ (i, h). ground (arith, inv.locked i h, inv.known),
      ),
    )
