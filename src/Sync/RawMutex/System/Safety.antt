-- ===== src/Sync/RawMutex/System/Safety.antt =====
-- What holds of every reachable state: one owner at a time, and no thread sleeps for ever behind a
-- free mutex.
use parking_lot.Prelude.{
  ℕ, ◌≡◌, refl, ◌⊎◌, inl, inr, Bool, true, false, not, none, some, List, ◌∷◌, arith, Bool-cases,
  is_empty, has_bit, ◌∈◌, if◌then◌else◌,
}
use parking_lot.Sync.RawMutex.{
  token_handoff, locked_bit, parked_bit, idle, start, unpark, unparking, Effect, step, unpark_step,
  unlock_callback,
}
use parking_lot.Sync.RawMutex.System.{System, Step, apply, pick, init, Reach, initial, later}
use parking_lot.Sync.RawMutex.System.Moves.{sleeps}
use parking_lot.Sync.RawMutex.System.Classify.{step-Move}
use parking_lot.Sync.RawMutex.System.Invariant.{owns, is_trying, Inv}
use parking_lot.Sync.RawMutex.System.Fields.{Move-Inv}

init-Inv : Inv init.shared init.threads
init-Inv = record {
  small = omega arith;
  locked = λ i h. cc;
  unique = λ i j h. cc;
  owner = λ h. absurd (cc);
  queued = λ i h. cc;
  asleep = λ i h. cc;
  distinct = tt;
  quiet = λ i h. refl;
  parked = λ h. cc;
  holder = λ i h. cc;
  validated = λ i h. cc;
  waker = λ h. absurd (ground arith);
}

Step-Inv : {s t : System} → Step s t → Inv s.shared s.threads → Inv t.shared t.threads
Step-Inv {s} (pick i a {e} h) inv = Move-Inv inv i e (step-Move i a s.shared _ _ e h)

pub Reach-Inv : {s : System} → Reach s → Inv s.shared s.threads
Reach-Inv initial = init-Inv
Reach-Inv (later r st) = Step-Inv st (Reach-Inv r)

-- In every reachable state at most one thread owns the mutex: the threads between the return of
-- `lock`, `try_lock` or `try_lock_until` and the end of `unlock` or `unlock_fair`, and those that
-- sleep with the mutex handed to them, are one thread at most. While one owns it the locked bit is
-- set, and while none does it is clear.
pub mutual_exclusion :
    {s : System}
    → Reach s
    → ((i j : ℕ) → owns (s.threads i) ≡ true → owns (s.threads j) ≡ true → i ≡ j)
      × ((i : ℕ) → owns (s.threads i) ≡ true → has_bit locked_bit s.shared.word ≡ true)
      × (has_bit locked_bit s.shared.word ≡ true → (i : ℕ) × (owns (s.threads i) ≡ true))
mutual_exclusion r = let inv = Reach-Inv r in (inv.unique, inv.locked, inv.owner)

-- No lost wake-up: in every reachable state, while some thread is parked without a token it is in
-- the queue, the parked bit is set, and either a thread owns the mutex, whose `unlock` then has to
-- go through the queue, or some thread is awake and looks at the mutex again before it sleeps.
pub no_lost_wakeup :
    {s : System}
    → Reach s
    → (i : ℕ) → sleeps (s.threads i).pc ≡ true
    → (s.threads i).mail ≡ none
    → (i ∈ s.shared.queue)
      × (has_bit parked_bit s.shared.word ≡ true)
      × (((j : ℕ) × (owns (s.threads j) ≡ true)) ⊎ ((j : ℕ) × (is_trying (s.threads j) ≡ true)))
no_lost_wakeup {s} r i a m = (
  waits,
  marked,
  elim (Bool-cases (has_bit locked_bit s.shared.word)) [
    | inl h ↦ inl (inv.owner h)
    | inr h ↦ inr (inv.waker (ground (arith, inv.small, marked)))
  ],
)
  where
    inv : Inv s.shared s.threads
    inv = Reach-Inv r

    waits : i ∈ s.shared.queue
    waits = inv.asleep i a m

    marked : has_bit parked_bit s.shared.word ≡ true
    marked = inv.parked (ground (arith, waits))

-- A fair unlock serves the oldest waiter: when the owner `i` is in `unlock_slow(true)` with the
-- bucket locked and `x` is the oldest parked thread, its `unpark_one` leaves the mutex locked and
-- hands it to `x`, takes only `x` off the queue, and leaves the parked bit set exactly while other
-- threads are parked; whatever the bucket's timer says.
pub fair_unlock_serves_oldest :
    {s : System} (i x : ℕ) (others : List ℕ) (relock be_fair : Bool)
    → Reach s
    → (s.threads i).pc ≡ unparking true relock
    → s.shared.queue ≡ x ∷ others
    → (e : Effect) × (step i (unpark be_fair) s.shared (s.threads i).pc (s.threads i).mail ≡ some e)
      × (e.sent ≡ some (x, token_handoff))
      × (e.shared.queue ≡ others)
      × (has_bit locked_bit e.shared.word ≡ true)
      × (has_bit parked_bit e.shared.word ≡ not (is_empty others))
      × (owns ((apply i e s).threads x) ≡ true)
unfolding step unpark_step unlock_callback
fair_unlock_serves_oldest {s} i x others relock be_fair r p q = (
  record {
    shared = record {
      word = if is_empty others then locked_bit else s.shared.word;
      bucket = none;
      queue = others;
    };
    self = record { pc = if relock then start false else idle; mail = none };
    sent = some (x, token_handoff);
  },
  rw p (rw q (ground arith)),
  refl,
  refl,
  ground (arith, owned),
  ground (arith, inv.parked),
  ground (arith),
)
  where
    inv : Inv s.shared s.threads
    inv = Reach-Inv r

    owned : has_bit locked_bit s.shared.word ≡ true
    owned = inv.locked i (rw p refl)
