-- ===== src/Sync/Once/System/Moves.antt =====
-- The kinds of steps, by what they do to the `Once`, its queue and its bucket.
use parking_lot.Prelude.{
  ℕ, ◌≡◌, Bool, true, false, ◌||◌, none, some, [], ◌∷◌, ◌++◌, ◌==◌, if◌then◌else◌, has_bit, set_bit,
  clear_bit,
}
use parking_lot.Sync.Once.{
  done_bit, poison_bit, locked_bit, parked_bit, OnceState, Pc, slow, parking, validating, enqueuing,
  abandoning, asleep, reload, running, waking, emptying, returned, Action, Shared, Effect, ends,
}
use parking_lot.Sync.Once.System.{completes}

abbrev pub sleeps : Pc → Bool
sleeps (asleep _) = true
sleeps _ = false

-- The thread holds the bucket's lock.
abbrev pub inside : Pc → Bool
inside (validating _) = true
inside (enqueuing _) = true
inside (abandoning _) = true
inside (emptying _) = true
inside _ = false

abbrev pub enqueues : Pc → Bool
enqueues (enqueuing _) = true
enqueues _ = false

abbrev pub runs : Pc → Bool
runs (running _) = true
runs _ = false

-- The thread is about to empty the queue.
abbrev pub wakes : Pc → Bool
wakes (waking _) = true
wakes (emptying _) = true
wakes _ = false

-- The thread has seen the done bit, or has set it.
abbrev pub sees_done : Pc → Bool
sees_done (slow _ state _) = has_bit done_bit state
sees_done (waking ok) = ok
sees_done (emptying ok) = ok
sees_done returned = true
sees_done _ = false

-- A step that leaves the shared state alone, or that only takes or releases the bucket.
pub record Calm (m : Shared) (p p' : Pc) : Type 0 where
  pub awake : sleeps p ≡ false
  pub awake' : sleeps p' ≡ false
  pub still : runs p ≡ false
  pub still' : runs p' ≡ false
  pub enqueues' : enqueues p' ≡ false
  pub same_wakes : wakes p' ≡ wakes p
  pub done : sees_done p' ≡ true → (sees_done p || has_bit done_bit m.word) ≡ true

abbrev pub effect : Shared → Pc → Effect
effect m p = record { shared = m; pc = p; woken = [] }

pub data Kind : Type 0 where
  local : (p' : Pc) → Kind
  acquire : (was : OnceState) → Kind
  mark : (force : Bool) → Kind
  enter : (p' : Pc) → Kind
  leave : (p' : Pc) → Kind
  validate : (force : Bool) → Kind
  enqueue : (force : Bool) → Kind
  wake : (force : Bool) → Kind
  complete : (was : OnceState) → (ok : Bool) → Kind
  empties : (ok : Bool) → Kind

module _ (me : ℕ) (a : Action) (m : Shared) (p : Pc) (woken : Bool) (e : Effect) where
  abbrev pub Guard : Kind → Type 0
  Guard (local p') =
      (e ≡ effect m p') × (completes a ≡ 0) × (inside p ≡ false) × (inside p' ≡ false) × Calm m p p'
  Guard (acquire was) =
      (e
        ≡ effect (record m { word = clear_bit poison_bit (set_bit locked_bit m.word) })
            (running was))
      × (completes a ≡ 0)
      × (has_bit locked_bit m.word ≡ false)
      × (has_bit done_bit m.word ≡ false)
      × (sleeps p ≡ false)
      × (inside p ≡ false)
      × (wakes p ≡ false)
  Guard (mark force) =
      (e ≡ effect (record m { word = set_bit parked_bit m.word }) (parking force))
      × (completes a ≡ 0)
      × (has_bit locked_bit m.word ≡ true)
      × (sleeps p ≡ false)
      × (inside p ≡ false)
      × (wakes p ≡ false)
      × (runs p ≡ false)
  Guard (enter p') =
      (e ≡ effect (record m { bucket = some me }) p')
      × (completes a ≡ 0)
      × (m.bucket ≡ none)
      × Calm m p p'
  Guard (leave p') =
      (e ≡ effect (record m { bucket = none }) p')
      × (completes a ≡ 0)
      × (inside p ≡ true)
      × (inside p' ≡ false)
      × Calm m p p'
  Guard (validate force) =
      (p ≡ validating force)
      × (completes a ≡ 0)
      × (e ≡ effect m (if m.word == 12 then enqueuing force else abandoning force))
  Guard (enqueue force) =
      (p ≡ enqueuing force)
      × (completes a ≡ 0)
      × (e ≡ effect (record m { queue = m.queue ++ me ∷ []; bucket = none }) (asleep force))
  Guard (wake force) =
      (p ≡ asleep force) × (completes a ≡ 0) × (woken ≡ true) × (e ≡ effect m (reload force))
  Guard (complete was ok) =
      (p ≡ running was)
      × (completes a ≡ (if ok then 1 else 0))
      × (e
          ≡ effect (record m { word = if ok then done_bit else poison_bit })
              (if has_bit parked_bit m.word then waking ok else ends ok))
  Guard (empties ok) =
      (p ≡ emptying ok)
      × (completes a ≡ 0)
      × (e ≡ record {
        shared = record m { bucket = none; queue = [] };
        pc = ends ok;
        woken = m.queue;
      })

abbrev pub Move : ℕ → Action → Shared → Pc → Bool → Effect → Type 0
Move me a m p woken e = (k : Kind) × Guard me a m p woken e k
