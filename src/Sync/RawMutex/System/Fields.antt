-- ===== src/Sync/RawMutex/System/Fields.antt =====
-- Each field of the invariant is kept by each kind of step.
use parking_lot.Prelude.{
  ℕ, ◌<◌, ◌≡◌, ◌⊎◌, inl, inr, true, false, not, ◌&&◌, none, some, [], ◌∷◌, arith, ◌==◌, Bool-cases,
  is_empty, keep, has_bit, ◌∈◌, has, has-append, has-keep, Distinct, Distinct-keep, Distinct-snoc,
  update,
}
use parking_lot.Sync.RawMutex.{locked_bit, parked_bit, Shared, Thread, Effect, timed_out_callback}
use parking_lot.Sync.RawMutex.System.{deliver}
use parking_lot.Sync.RawMutex.System.Moves.{
  sleeps, inside, enqueues, Move, local, acquire, enqueue, times_out, hand_off, unlocks,
}
use parking_lot.Sync.RawMutex.System.Invariant.{owns, is_trying, Inv}

module _ {m : Shared} {f : ℕ → Thread} (inv : Inv m f) (i : ℕ) (e : Effect) where
  open inv use {
    small, locked, unique, owner, queued, asleep as in_queue, distinct, quiet, parked, holder,
    validated, waker,
  }

  abbrev M : Type 0
  M = Move i m (f i).pc (f i).mail e

  abbrev threads : ℕ → Thread
  threads = deliver e.sent (update f i e.self)

  -- Where the removal of a thread leaves the others.
  keep_mem : (j : ℕ) → has j (keep (λ k. not (k == i)) m.queue) ≡ (has j m.queue && not (j == i))
  keep_mem j = has-keep j i m.queue

  Move-small : M → e.shared.word < 4
  unfolding timed_out_callback
  Move-small (local p', (q, l)) = ground (arith, small)
  Move-small (kind, g) = ground (arith, small)

  Move-locked : M → (j : ℕ) → owns (threads j) ≡ true → has_bit locked_bit e.shared.word ≡ true
  unfolding timed_out_callback
  Move-locked (local p', (q, l)) j o = ground (arith, locked j, locked i, unique i j)
  Move-locked (kind, g) j o = ground (arith, locked j, locked i, unique i j)

  Move-unique : M → (j k : ℕ) → owns (threads j) ≡ true → owns (threads k) ≡ true → j ≡ k
  unfolding timed_out_callback
  Move-unique (local p', (q, l)) j k o r =
      ground (arith, unique j k, unique i j, unique i k, locked j, locked k, locked i, quiet i)
  Move-unique (kind, g) j k o r =
      ground (arith, unique j k, unique i j, unique i k, locked j, locked k, locked i, quiet i)

  Move-queued :
      M → (j : ℕ) → j ∈ e.shared.queue → (sleeps (threads j).pc ≡ true) × ((threads j).mail ≡ none)
  unfolding timed_out_callback
  Move-queued (local p', (q, l)) j o =
      ground (arith, queued j, queued i, has-append j m.queue (i ∷ []), keep_mem j)
  Move-queued (kind, g) j o =
      ground (arith, queued j, queued i, has-append j m.queue (i ∷ []), keep_mem j)

  Move-asleep :
      M → (j : ℕ) → sleeps (threads j).pc ≡ true → (threads j).mail ≡ none → j ∈ e.shared.queue
  unfolding timed_out_callback
  Move-asleep (local p', (q, l)) j o n =
      ground (arith, in_queue j, in_queue i, has-append j m.queue (i ∷ []), keep_mem j)
  Move-asleep (kind, g) j o n =
      ground (arith, in_queue j, in_queue i, has-append j m.queue (i ∷ []), keep_mem j)

  Move-quiet : M → (j : ℕ) → sleeps (threads j).pc ≡ false → (threads j).mail ≡ none
  unfolding timed_out_callback
  Move-quiet (local p', (q, l)) j o = ground (arith, quiet j, quiet i, queued j)
  Move-quiet (kind, g) j o = ground (arith, quiet j, quiet i, queued j)

  Move-parked : M → is_empty e.shared.queue ≡ false → has_bit parked_bit e.shared.word ≡ true
  unfolding timed_out_callback
  Move-parked (local p', (q, l)) o = ground (arith, parked, validated i, small)
  Move-parked (kind, g) o = ground (arith, parked, validated i, small)

  Move-holder : M → (j : ℕ) → inside (threads j).pc ≡ true → e.shared.bucket ≡ some j
  unfolding timed_out_callback
  Move-holder (local p', (q, l)) j o = ground (arith, holder j, holder i)
  Move-holder (kind, g) j o = ground (arith, holder j, holder i)

  Move-validated : M → (j : ℕ) → enqueues (threads j).pc ≡ true → e.shared.word ≡ 3
  unfolding timed_out_callback
  Move-validated (local p', (q, l)) j o =
      ground (arith, validated j, validated i, holder i, holder j, locked i)
  Move-validated (kind, g) j o =
      ground (arith, validated j, validated i, holder i, holder j, locked i)

  Move-Distinct : M → Distinct e.shared.queue
  Move-Distinct (local p', (q, l)) = ground (arith)
  Move-Distinct (enqueue timeout, (h, q)) = rw q (
      Distinct-snoc i m.queue distinct (elim (Bool-cases (has i m.queue)) [
        | inl in_it ↦ absurd (ground (arith, queued i))
        | inr out ↦ out
      ]))
  Move-Distinct (times_out, (h, n, q)) = rw q (Distinct-keep i m.queue distinct)
  Move-Distinct (kind, g) = ground (arith)

  owner_kept :
      M
      → (k : ℕ) → owns (f k) ≡ true
      → has_bit locked_bit e.shared.word ≡ true
      → (x : ℕ) × (owns (threads x) ≡ true)
  unfolding timed_out_callback
  owner_kept (acquire, (q, u, w)) k h o = (i, ground arith)
  owner_kept (hand_off fair relock x others, (h', n, q)) k h o = (x, ground (arith, queued x))
  owner_kept (kind, g) k h o = (k, ground (arith, unique i k, quiet i, queued k))

  was_locked :
      M
      → has_bit locked_bit e.shared.word ≡ true
      → ((x : ℕ) × (owns (threads x) ≡ true)) ⊎ (has_bit locked_bit m.word ≡ true)
  unfolding timed_out_callback
  was_locked (local p', (q, l)) o = inr (ground arith)
  was_locked (acquire, (q, u, w)) o = inl (i, ground arith)
  was_locked (hand_off fair relock x others, (h, n, q)) o = inr (locked i (ground arith))
  was_locked (kind, g) o = inr (ground (arith, small))

  Move-owner : M → has_bit locked_bit e.shared.word ≡ true → (x : ℕ) × (owns (threads x) ≡ true)
  Move-owner mv o = elim (was_locked mv o) [
    | inl new ↦ new
    | inr h ↦ let (k, owned) = owner h in owner_kept mv k owned o
  ]

  waker_kept :
      M
      → (k : ℕ) → is_trying (f k) ≡ true
      → m.word ≡ 2
      → e.shared.word ≡ 2
      → (x : ℕ) × (is_trying (threads x) ≡ true)
  unfolding timed_out_callback
  waker_kept (unlocks fair relock x others, g) k h w o = (x, ground (arith, queued x))
  waker_kept (kind, g) k h w o = (k, ground (arith, quiet i, queued k, locked i, validated i))

  was_waiting : M → e.shared.word ≡ 2 → ((x : ℕ) × (is_trying (threads x) ≡ true)) ⊎ (m.word ≡ 2)
  unfolding timed_out_callback
  was_waiting (local p', (q, l)) o = inr (ground arith)
  was_waiting (unlocks fair relock x others, g) o = inl (x, ground (arith, queued x))
  was_waiting (kind, g) o = inr (ground (arith, small, locked i))

  Move-waker : M → e.shared.word ≡ 2 → (x : ℕ) × (is_trying (threads x) ≡ true)
  Move-waker mv o = elim (was_waiting mv o) [
    | inl new ↦ new
    | inr h ↦ let (k, trier) = waker h in waker_kept mv k trier h o
  ]

  -- Every move keeps the invariant.
  pub Move-Inv : M → Inv e.shared threads
  Move-Inv mv = record {
    small = Move-small mv;
    locked = Move-locked mv;
    unique = Move-unique mv;
    owner = Move-owner mv;
    queued = Move-queued mv;
    asleep = Move-asleep mv;
    distinct = Move-Distinct mv;
    quiet = Move-quiet mv;
    parked = Move-parked mv;
    holder = Move-holder mv;
    validated = Move-validated mv;
    waker = Move-waker mv;
  }
