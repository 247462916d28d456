-- ===== src/Sync/Once/System/Fields.antt =====
-- Each field of the invariant of `Once` is kept by each kind of step.
use parking_lot.Prelude.{
  ℕ, ◌+◌, ◌≡◌, ◌⊎◌, inl, inr, true, false, some, [], ◌∷◌, arith, ◌==◌, Bool-cases, has_bit, ◌∈◌,
  has-append, update, if◌then◌else◌,
}
use parking_lot.Sync.Once.{locked_bit, Shared, Thread, Effect, Action}
use parking_lot.Sync.Once.System.{deliver, completes}
use parking_lot.Sync.Once.System.Moves.{
  sleeps, inside, runs, wakes, sees_done, Move, acquire, complete,
}
use parking_lot.Sync.Once.System.Invariant.{is_word, waits, Inv}

module _ {m : Shared} {f : ℕ → Thread} {n : ℕ} (inv : Inv m f n) (i : ℕ) (a : Action)
    (e : Effect) where
  open inv use {
    known, locked, unique, owner, queued, asleep as in_queue, quiet, holder, served, seen, count,
  }

  abbrev M : Type 0
  M = Move i a m (f i).pc (f i).woken e

  abbrev threads : ℕ → Thread
  threads = deliver e.woken (update f i (record { pc = e.pc; woken = false }))

  Move-known : M → is_word e.shared.word ≡ true
  Move-known (kind, g) = ground (arith, known)

  Move-locked : M → (j : ℕ) → runs (threads j).pc ≡ true → has_bit locked_bit e.shared.word ≡ true
  Move-locked (kind, g) j o = ground (arith, known, locked j, locked i, unique i j)

  Move-unique : M → (j k : ℕ) → runs (threads j).pc ≡ true → runs (threads k).pc ≡ true → j ≡ k
  Move-unique (kind, g) j k o r =
      ground (arith, unique j k, unique i j, unique i k, locked j, locked k, locked i)

  Move-queued :
      M
      → (j : ℕ) → j ∈ e.shared.queue
      → (sleeps (threads j).pc ≡ true) × ((threads j).woken ≡ false)
  Move-queued (kind, g) j o = ground (arith, queued j, queued i, has-append j m.queue (i ∷ []))

  Move-asleep :
      M → (j : ℕ) → sleeps (threads j).pc ≡ true → (threads j).woken ≡ false → j ∈ e.shared.queue
  Move-asleep (kind, g) j o w =
      ground (arith, in_queue j, in_queue i, has-append j m.queue (i ∷ []))

  Move-quiet : M → (j : ℕ) → sleeps (threads j).pc ≡ false → (threads j).woken ≡ false
  Move-quiet (kind, g) j o = ground (arith, quiet j, quiet i, queued j)

  Move-holder : M → (j : ℕ) → inside (threads j).pc ≡ true → e.shared.bucket ≡ some j
  Move-holder (kind, g) j o = ground (arith, holder j, holder i)

  Move-seen : M → (j : ℕ) → sees_done (threads j).pc ≡ true → e.shared.word ≡ 1
  Move-seen (kind, g) j o = ground (arith, seen j, seen i, known, locked i)

  Move-count : M → n + completes a ≡ (if e.shared.word == 1 then 1 else 0)
  Move-count (kind, g) = ground (arith, count, known, locked i)

  owner_kept :
      M
      → has_bit locked_bit e.shared.word ≡ true
      → (k : ℕ) → runs (f k).pc ≡ true
      → runs (threads k).pc ≡ true
  owner_kept (kind, g) o k h = ground (arith, unique i k)

  Move-owner : M → has_bit locked_bit e.shared.word ≡ true → (k : ℕ) × (runs (threads k).pc ≡ true)
  Move-owner (acquire was, g) o = (i, ground arith)
  Move-owner (complete was ok, g) o = absurd (ground arith)
  Move-owner (kind, g) o = let (k, h) = owner (ground arith) in (k, owner_kept (kind, g) o k h)

  -- Who empties the queue after the step, if someone was about to before it.
  waker_kept :
      M
      → (j : ℕ) → waits (threads j) ≡ true
      → (k : ℕ) → wakes (f k).pc ≡ true
      → wakes (threads k).pc ≡ true
  waker_kept (kind, g) j o k h = ground (arith, in_queue j, holder j, holder i)

  was_waiting : M → (j : ℕ) → waits (threads j) ≡ true → (waits (f j) ≡ true) ⊎ (e.shared.word ≡ 12)
  was_waiting (kind, g) j o = elim (Bool-cases (waits (f j))) [
    | inl w ↦ inl w
    | inr starts ↦ inr (ground arith)
  ]

  Move-served :
      M
      → (j : ℕ) → waits (threads j) ≡ true
      → (e.shared.word ≡ 12) ⊎ ((k : ℕ) × (wakes (threads k).pc ≡ true))
  Move-served mv j o = elim (was_waiting mv j o) [
    | inr h ↦ inl h
    | inl w ↦ elim (served j w) [
      | inl full ↦ after_full mv j o full
      | inr (k, h) ↦ inr (k, waker_kept mv j o k h)
    ]
  ]
    where
      after_full :
          M
          → (j : ℕ) → waits (threads j) ≡ true
          → m.word ≡ 12
          → (e.shared.word ≡ 12) ⊎ ((k : ℕ) × (wakes (threads k).pc ≡ true))
      after_full (complete was ok, g) j o full = inr (i, ground arith)
      after_full (kind, g) j o full = inl (ground arith)

  -- Every move keeps the invariant.
  pub Move-Inv : M → Inv e.shared threads (n + completes a)
  Move-Inv mv = record {
    known = Move-known mv;
    locked = Move-locked mv;
    unique = Move-unique mv;
    owner = Move-owner mv;
    queued = Move-queued mv;
    asleep = Move-asleep mv;
    quiet = Move-quiet mv;
    holder = Move-holder mv;
    served = Move-served mv;
    seen = Move-seen mv;
    count = Move-count mv;
  }
