-- ===== src/Sync/RawRwLock/System/Rings.antt =====
-- How the waiting writer is woken: the kinds of steps, by what they do to the writer's queue, its
-- bucket's lock, and the two fields of the word on which the writer sleeps.
use parking_lot.Prelude.{
  ℕ, ◌-◌, ◌≡◌, ◌⊎◌, refl, inl, inr, Bool, true, false, not, ◌&&◌, ◌||◌, Option, none, some, List,
  [], ◌∷◌, ◌++◌, ◌==◌, arith, Bool-cases, length, keep, has, ◌∈◌, ◌≤◌, has-append, has-keep, update,
}
use parking_lot.Sync.RawRwLock.{
  Pc, drain_validating, drain_enqueuing, drain_abandoning, drain_timed, leaving, signalling, Shared,
  Thread, Effect,
}
use parking_lot.Sync.RawRwLock.System.{deliver}
use parking_lot.Sync.RawRwLock.System.Holds.{is_major, hold_at, hold}
use parking_lot.Sync.RawRwLock.System.Moves.{awake, in_writer, place}

-- The thread is the last reader, and has not yet woken the writer.
abbrev pub signals : Pc → Bool
signals (leaving relock) = true
signals (signalling relock) = true
signals _ = false

-- It holds the lock of the writer's bucket.
abbrev pub inside : Pc → Bool
inside (drain_validating upgrading timeout w) = true
inside (drain_enqueuing upgrading timeout w) = true
inside (drain_abandoning upgrading timeout w) = true
inside (drain_timed upgrading w) = true
inside (signalling relock) = true
inside _ = false

-- It has validated, and will go into the writer's queue.
abbrev pub enqueues : Pc → Bool
enqueues (drain_enqueuing upgrading timeout w) = true
enqueues _ = false

-- A reader is left, which sees that a writer is parked when it leaves.
abbrev pub guarded : Shared → Bool
guarded m = not (m.word.readers == 0) && m.word.writer_parked

module _ (me : ℕ) (m : Shared) (p : Pc) (mail : Option ℕ) (e : Effect) where
  abbrev m' : Shared
  m' = e.shared_state

  abbrev p' : Pc
  p' = e.self.pc

  abbrev pub Outside : Type 0
  Outside =
      (m'.writer_queue ≡ m.writer_queue)
      × (m'.writer_bucket ≡ m.writer_bucket)
      × (enqueues p' ≡ false)
      × (inside p' ≡ false)

  pub data Ring : Type 0 where
    calms :
        (inside p ≡ false)
        → (signals p ≡ false)
        → Outside
        → (guarded m ≡ true → guarded m' ≡ true)
        → Ring
    alone :
        (inside p ≡ false) → (place p ≡ awake) → (is_major (hold_at p mail) ≡ true) → Outside → Ring
    rings : (inside p ≡ false) → Outside → (signals p' ≡ true) → Ring
    enters :
        (m.writer_bucket ≡ none)
        → (m'.writer_bucket ≡ some me)
        → (m'.writer_queue ≡ m.writer_queue)
        → (m'.word ≡ m.word)
        → (enqueues p' ≡ false)
        → (enqueues p ≡ false)
        → (signals p' ≡ signals p)
        → Ring
    checks :
        (inside p ≡ true)
        → (inside p' ≡ true)
        → (enqueues p ≡ false)
        → (signals p ≡ false)
        → (m'.writer_bucket ≡ m.writer_bucket)
        → (m'.writer_queue ≡ m.writer_queue)
        → (m'.word ≡ m.word)
        → (enqueues p' ≡ true → guarded m ≡ true)
        → Ring
    leaves :
        (inside p ≡ true)
        → (enqueues p ≡ false)
        → (signals p ≡ false)
        → (m'.writer_bucket ≡ none)
        → (inside p' ≡ false)
        → (m'.writer_queue ≡ m.writer_queue)
        → (m'.word ≡ m.word)
        → Ring
    joins :
        (enqueues p ≡ true)
        → (inside p ≡ true)
        → (m'.writer_bucket ≡ none)
        → (inside p' ≡ false)
        → (enqueues p' ≡ false)
        → (m'.writer_queue ≡ m.writer_queue ++ me ∷ [])
        → (m'.word ≡ m.word)
        → (signals p ≡ false)
        → Ring
    answers :
        (inside p ≡ true)
        → (m'.writer_bucket ≡ none)
        → (inside p' ≡ false)
        → (enqueues p' ≡ false)
        → (length m'.writer_queue ≡ length m.writer_queue - 1)
        → Ring
    exits :
        (inside p ≡ true)
        → (m'.writer_bucket ≡ none)
        → (inside p' ≡ false)
        → (enqueues p' ≡ false)
        → (is_major (hold_at p mail) ≡ true)
        → (m'.writer_queue ≡ keep (λ k. not (k == me)) m.writer_queue)
        → Ring

-- A thread waits in the writer's queue, or is about to.
abbrev pub pending : Shared → (ℕ → Thread) → ℕ → Bool
pending m f j = has j m.writer_queue || enqueues (f j).pc

pub record Rung (m : Shared) (f : ℕ → Thread) : Type 0 where
  pub door : (j : ℕ) → inside (f j).pc ≡ true → m.writer_bucket ≡ some j
  pub bell :
      (j : ℕ) → pending m f j ≡ true → (guarded m ≡ true) ⊎ ((k : ℕ) × (signals (f k).pc ≡ true))

-- Only a major thread is pending, and at most one thread is in the queue.
module _ {m : Shared} {f : ℕ → Thread} (r : Rung m f) (i : ℕ) (e : Effect)
    (unique : (j k : ℕ) → is_major (hold (f j)) ≡ true → is_major (hold (f k)) ≡ true → j ≡ k)
    (waits : (j : ℕ) → pending m f j ≡ true → is_major (hold (f j)) ≡ true)
    (queued : (j : ℕ) → j ∈ m.writer_queue → place (f j).pc ≡ in_writer)
    (few : length m.writer_queue ≤ 1) where
  abbrev threads : ℕ → Thread
  threads = deliver e.sent e.token (update f i e.self)

  enqueues_inside : (p : Pc) → enqueues p ≡ true → inside p ≡ true
  enqueues_inside p h = ground arith

  no_length : (j : ℕ) (xs : List ℕ) → length xs ≡ 0 → has j xs ≡ false
  no_length j [] h = refl
  no_length j (x ∷ xs) h = absurd (omega arith)

  Ring-door :
      Ring i m (f i).pc (f i).mail e
      → (j : ℕ) → inside (threads j).pc ≡ true
      → e.shared_state.writer_bucket ≡ some j
  Ring-door (calms a b (c, d, g, h) k) j n = ground (arith, r.door j)
  Ring-door (alone a b k (c, d, g, h)) j n = ground (arith, r.door j)
  Ring-door (rings a (c, d, g, h) k) j n = ground (arith, r.door j)
  Ring-door (enters a b c d g h k) j n = ground (arith, r.door j)
  Ring-door (checks a b c d g h k l) j n = ground (arith, r.door j, r.door i)
  Ring-door (leaves a b c d g h k) j n = ground (arith, r.door j, r.door i)
  Ring-door (joins a b c d g h k l) j n = ground (arith, r.door j, r.door i)
  Ring-door (answers a b c d g) j n = ground (arith, r.door j, r.door i)
  Ring-door (exits a b c d g h) j n = ground (arith, r.door j, r.door i)

  -- A bell that was due stays due, where the thread of the step does not forget it.
  still :
      (signals (f i).pc ≡ true → signals e.self.pc ≡ true)
      → (guarded m ≡ true → guarded e.shared_state ≡ true)
      → (guarded m ≡ true) ⊎ ((k : ℕ) × (signals (f k).pc ≡ true))
      → (guarded e.shared_state ≡ true) ⊎ ((k : ℕ) × (signals (threads k).pc ≡ true))
  still s g (inl h) = inl (g h)
  still s g (inr (k, h)) = inr (k, ground arith)

  Ring-bell :
      Ring i m (f i).pc (f i).mail e
      → (j : ℕ) → pending e.shared_state threads j ≡ true
      → (guarded e.shared_state ≡ true) ⊎ ((k : ℕ) × (signals (threads k).pc ≡ true))
  Ring-bell (calms a b (c, d, g, h) k) j n =
      still (λ s. absurd (cc)) k (r.bell j (ground (arith, enqueues_inside (f i).pc)))
  Ring-bell (alone a b k (c, d, g, h)) j n =
      absurd (ground (arith, waits j, unique i j, queued i, enqueues_inside (f i).pc))
  Ring-bell (rings a (c, d, g, h) k) j n = inr (i, ground arith)
  Ring-bell (enters a b c d g h k) j n = still (λ s. cc) (λ s. rw d s) (r.bell j (ground arith))
  Ring-bell (checks a b c d g h k l) j n = elim (Bool-cases (enqueues e.self.pc && (i == j))) [
    | inl q ↦ inl (rw k (l (ground arith)))
    | inr q ↦ still (λ s. absurd (cc)) (λ s. rw k s) (r.bell j (ground arith))
  ]
  Ring-bell (leaves a b c d g h k) j n =
      still (λ s. absurd (cc)) (λ s. rw k s) (r.bell j (ground (arith, enqueues_inside e.self.pc)))
  Ring-bell (joins a b c d g h k l) j n =
      still (λ s. absurd (cc)) (λ s. rw k s)
        (r.bell j (ground (arith, has-append j m.writer_queue (i ∷ []))))
  Ring-bell (answers a b c d g) j n = absurd (
      ground (
        arith,
        no_length j e.shared_state.writer_queue,
        r.door j,
        r.door i,
        enqueues_inside (f j).pc,
      ))
  Ring-bell (exits a b c d g h) j n =
      absurd (ground (arith, waits j, unique i j, has-keep j i m.writer_queue))

  pub Ring-Rung : Ring i m (f i).pc (f i).mail e → Rung e.shared_state threads
  Ring-Rung g = record { door = Ring-door g; bell = Ring-bell g }
