-- ===== src/Sync/RawMutex/System/Moves.antt =====
-- The kinds of steps, by what they do to the mutex, its queue and its bucket.
use parking_lot.Prelude.{
  ℕ, ◌≡◌, Bool, true, false, not, Option, none, some, List, [], ◌∷◌, ◌++◌, ◌==◌, if◌then◌else◌,
  is_empty, keep, has_bit, set_bit,
}
use parking_lot.Sync.RawMutex.{
  locked_bit, parked_bit, Pc, idle, start, slow, parking, validating, enqueuing, abandoning, asleep,
  timing, timed, reload, held, unlocking, unparking, Shared, Effect, timed_out_callback, unparked,
}

-- The thread is in `park` behind its enqueuing.
abbrev pub sleeps : Pc → Bool
sleeps (asleep _) = true
sleeps timing = true
sleeps timed = true
sleeps _ = false

-- The thread holds the bucket's lock.
abbrev pub inside : Pc → Bool
inside (validating _) = true
inside (enqueuing _) = true
inside (abandoning _) = true
inside timed = true
inside (unparking _ _) = true
inside _ = false

abbrev pub enqueues : Pc → Bool
enqueues (enqueuing _) = true
enqueues _ = false

-- The thread's code is between `lock` and `unlock`.
abbrev pub holds : Pc → Bool
holds held = true
holds (unlocking _ _) = true
holds (unparking _ _) = true
holds _ = false

-- The thread will look at the mutex again before it sleeps.
abbrev pub tries : Pc → Bool
tries (slow _ _ _) = true
tries (parking _) = true
tries (validating _) = true
tries (abandoning _) = true
tries (reload _) = true
tries _ = false

-- A step within the thread, which may read the shared state.
pub record Local (p p' : Pc) : Type 0 where
  pub awake : sleeps p ≡ false
  pub awake' : sleeps p' ≡ false
  pub inside : inside p' ≡ inside p
  pub holds : holds p' ≡ holds p
  pub enqueues' : enqueues p' ≡ false
  pub tries : tries p ≡ true → tries p' ≡ true

-- A place where the thread holds neither the mutex nor the bucket, and does not sleep.
abbrev pub IsOutside : Pc → Type 0
IsOutside p = (sleeps p ≡ false) × (inside p ≡ false) × (holds p ≡ false)

abbrev pub effect : Shared → Pc → Option ℕ → Option (ℕ × ℕ) → Effect
effect m p mail sent = record { shared = m; self = record { pc = p; mail = mail }; sent = sent }

abbrev pub after_unlock : Bool → Pc
after_unlock relock = if relock then start false else idle

-- The kinds of steps, each with what is true of it.
pub data Kind : Type 0 where
  local : (p' : Pc) → Kind
  acquire : Kind
  mark : (timeout : Bool) → Kind
  enter : (p' : Pc) → Kind
  validate : (timeout : Bool) → Kind
  enqueue : (timeout : Bool) → Kind
  abandon : (timeout : Bool) → Kind
  wake : (timeout : Bool) → (token : ℕ) → Kind
  expires : Kind
  relocks : Kind
  late : (token : ℕ) → Kind
  times_out : Kind
  release : Kind
  release_all : (fair : Bool) → (relock : Bool) → Kind
  hand_off : (fair : Bool) → (relock : Bool) → (x : ℕ) → (others : List ℕ) → Kind
  unlocks : (fair : Bool) → (relock : Bool) → (x : ℕ) → (others : List ℕ) → Kind

module _ (me : ℕ) (m : Shared) (p : Pc) (mail : Option ℕ) (e : Effect) where
  abbrev pub Guard : Kind → Type 0
  Guard (local p') = (e ≡ effect m p' none none) × Local p p'
  Guard acquire =
      (e ≡ effect (record m { word = set_bit locked_bit m.word }) held none none)
      × (has_bit locked_bit m.word ≡ false)
      × (IsOutside p)
  Guard (mark timeout) =
      (e ≡ effect (record m { word = set_bit parked_bit m.word }) (parking timeout) none none)
      × (has_bit locked_bit m.word ≡ true)
      × (IsOutside p)
  Guard (enter p') =
      (e ≡ effect (record m { bucket = some me }) p' none none)
      × (m.bucket ≡ none)
      × (sleeps p ≡ false)
      × ((sleeps p' ≡ false) × (holds p' ≡ holds p) × (enqueues p' ≡ false) × (tries p' ≡ tries p))
  Guard (validate timeout) =
      (p ≡ validating timeout) × (e ≡ effect m (enqueuing timeout) none none) × (m.word ≡ 3)
  Guard (enqueue timeout) =
      (p ≡ enqueuing timeout)
      × (e
          ≡ effect (record m { queue = m.queue ++ me ∷ []; bucket = none }) (asleep timeout) none
              none)
  Guard (abandon timeout) =
      (p ≡ abandoning timeout)
      × (e ≡ effect (record m { bucket = none }) (reload timeout) none none)
  Guard (wake timeout token) =
      (p ≡ asleep timeout) × (mail ≡ some token) × (e ≡ effect m (unparked timeout token) none none)
  Guard expires = (p ≡ asleep true) × (e ≡ effect m timing mail none)
  Guard relocks =
      (p ≡ timing)
      × (m.bucket ≡ none)
      × (e ≡ effect (record m { bucket = some me }) timed mail none)
  Guard (late token) =
      (p ≡ timed)
      × (mail ≡ some token)
      × (e ≡ effect (record m { bucket = none }) (unparked true token) none none)
  Guard times_out =
      (p ≡ timed)
      × (mail ≡ none)
      × (e
          ≡ effect
              (record {
                word = timed_out_callback (is_empty (keep (λ i. not (i == me)) m.queue)) m.word;
                bucket = none;
                queue = keep (λ i. not (i == me)) m.queue;
              })
              idle none none)
  Guard release = (p ≡ held) × (m.word ≡ 1) × (e ≡ effect (record m { word = 0 }) idle none none)
  Guard (release_all fair relock) =
      (p ≡ unparking fair relock)
      × (m.queue ≡ [])
      × (e
          ≡ effect (record { word = 0; bucket = none; queue = [] }) (after_unlock relock) none none)
  Guard (hand_off fair relock x others) =
      (p ≡ unparking fair relock)
      × (m.queue ≡ x ∷ others)
      × (e
          ≡ effect
              (record {
                word = if is_empty others then 1 else m.word;
                bucket = none;
                queue = others;
              })
              (after_unlock relock) none (some (x, 1)))
  Guard (unlocks fair relock x others) =
      (p ≡ unparking fair relock)
      × (m.queue ≡ x ∷ others)
      × (e
          ≡ effect
              (record { word = if is_empty others then 0 else 2; bucket = none; queue = others })
              (after_unlock relock) none (some (x, 0)))
      × (fair ≡ false)

abbrev pub Move : ℕ → Shared → Pc → Option ℕ → Effect → Type 0
Move me m p mail e = (k : Kind) × Guard me m p mail e k
