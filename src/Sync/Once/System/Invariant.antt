-- ===== src/Sync/Once/System/Invariant.antt =====
-- What holds in every reachable state of the threads over one `Once`.
use parking_lot.Prelude.{
  ℕ, ◌≡◌, ◌⊎◌, Bool, true, false, not, ◌&&◌, ◌||◌, some, ◌==◌, has_bit, ◌∈◌, if◌then◌else◌,
}
use parking_lot.Sync.Once.{locked_bit, Shared, Thread}
use parking_lot.Sync.Once.System.Moves.{sleeps, inside, enqueues, runs, wakes, sees_done}

-- The values that the word takes.
abbrev pub is_word : ℕ → Bool
is_word w = (w == 0) || (w == 1) || (w == 2) || (w == 4) || (w == 12)

-- The thread sleeps, or is about to, and only a wake-up can end its sleep.
abbrev pub waits : Thread → Bool
waits t = enqueues t.pc || (sleeps t.pc && not t.woken)

pub record Inv (m : Shared) (f : ℕ → Thread) (completions : ℕ) : Type 0 where
  pub known : is_word m.word ≡ true
  pub locked : (i : ℕ) → runs (f i).pc ≡ true → has_bit locked_bit m.word ≡ true
  pub unique : (i j : ℕ) → runs (f i).pc ≡ true → runs (f j).pc ≡ true → i ≡ j
  pub owner : has_bit locked_bit m.word ≡ true → (i : ℕ) × (runs (f i).pc ≡ true)
  pub queued : (i : ℕ) → i ∈ m.queue → (sleeps (f i).pc ≡ true) × ((f i).woken ≡ false)
  pub asleep : (i : ℕ) → sleeps (f i).pc ≡ true → (f i).woken ≡ false → i ∈ m.queue
  pub quiet : (i : ℕ) → sleeps (f i).pc ≡ false → (f i).woken ≡ false
  pub holder : (i : ℕ) → inside (f i).pc ≡ true → m.bucket ≡ some i
  pub served : (i : ℕ) → waits (f i) ≡ true → (m.word ≡ 12) ⊎ ((j : ℕ) × (wakes (f j).pc ≡ true))
  pub seen : (i : ℕ) → sees_done (f i).pc ≡ true → m.word ≡ 1
  pub count : completions ≡ (if m.word == 1 then 1 else 0)
