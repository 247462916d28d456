-- ===== src/Sync/RawMutex/System/Invariant.antt =====
-- What holds in every reachable state of the threads over one mutex.
use parking_lot.Prelude.{
  ℕ, ◌<◌, ◌≡◌, Bool, true, false, not, ◌||◌, Option, none, some, ◌==◌, has_bit, ◌∈◌, Distinct,
  is_empty,
}
use parking_lot.Sync.RawMutex.{token_handoff, locked_bit, parked_bit, Shared, Thread}
use parking_lot.Sync.RawMutex.System.Moves.{sleeps, inside, enqueues, holds, tries}

abbrev pub is_handoff : Option ℕ → Bool
is_handoff none = false
is_handoff (some token) = token == token_handoff

abbrev pub is_normal : Option ℕ → Bool
is_normal none = false
is_normal (some token) = not (token == token_handoff)

-- The thread owns the mutex: by its code, or because the mutex was handed to it.
abbrev pub owns : Thread → Bool
owns t = holds t.pc || is_handoff t.mail

-- The thread will look at the mutex before it sleeps.
abbrev pub is_trying : Thread → Bool
is_trying t = tries t.pc || is_normal t.mail

pub record Inv (m : Shared) (f : ℕ → Thread) : Type 0 where
  pub small : m.word < 4
  pub locked : (i : ℕ) → owns (f i) ≡ true → has_bit locked_bit m.word ≡ true
  pub unique : (i j : ℕ) → owns (f i) ≡ true → owns (f j) ≡ true → i ≡ j
  pub owner : has_bit locked_bit m.word ≡ true → (i : ℕ) × (owns (f i) ≡ true)
  pub queued : (i : ℕ) → i ∈ m.queue → (sleeps (f i).pc ≡ true) × ((f i).mail ≡ none)
  pub asleep : (i : ℕ) → sleeps (f i).pc ≡ true → (f i).mail ≡ none → i ∈ m.queue
  pub distinct : Distinct m.queue
  pub quiet : (i : ℕ) → sleeps (f i).pc ≡ false → (f i).mail ≡ none
  pub parked : is_empty m.queue ≡ false → has_bit parked_bit m.word ≡ true
  pub holder : (i : ℕ) → inside (f i).pc ≡ true → m.bucket ≡ some i
  pub validated : (i : ℕ) → enqueues (f i).pc ≡ true → m.word ≡ 3
  pub waker : m.word ≡ 2 → (i : ℕ) × (is_trying (f i) ≡ true)
