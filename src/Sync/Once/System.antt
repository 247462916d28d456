-- ===== src/Sync/Once/System.antt =====
-- Any number of threads over one `Once`, interleaved in any order, and how many closures have
-- returned.
pub mod Moves
pub mod Classify
pub mod Invariant
pub mod Fields
pub mod Safety
mod Tests
use parking_lot.Prelude.{
  ℕ, ◌+◌, ◌≡◌, Bool, true, false, ◌&&◌, List, [], if◌then◌else◌, has, none, some, update,
}
use parking_lot.Sync.Once.{
  Shared, Thread, Effect, Action, finish, Pc, idle, step, new, new_completed,
}

pub record System : Type 0 where
  pub shared : Shared
  pub threads : ℕ → Thread
  pub completions : ℕ

abbrev pub deliver : List ℕ → (ℕ → Thread) → ℕ → Thread
deliver xs f j = if has j xs then record (f j) { woken = true } else f j

abbrev pub completes : Action → ℕ
completes (finish true) = 1
completes _ = 0

abbrev pub apply : ℕ → Action → Effect → System → System
apply i a e s = record {
  shared = e.shared;
  threads = deliver e.woken (update s.threads i (record { pc = e.pc; woken = false }));
  completions = s.completions + completes a;
}

pub data Step (s : System) : System → Type 0 where
  pick :
      (i : ℕ) (a : Action) {e : Effect}
      → step i a s.shared (s.threads i).pc (s.threads i).woken ≡ some e
      → Step s (apply i a e s)

-- `made_completed`: the `Once` comes from `Once::new_completed`, not from `Once::new`.
abbrev pub init : (made_completed : Bool) → System
init made_completed = record {
  shared = record {
    word = if made_completed then new_completed else new;
    bucket = none;
    queue = [];
  };
  threads = λ _. record { pc = idle; woken = false };
  completions = 0;
}

pub data Reach (made_completed : Bool) : System → Type 0 where
  initial : Reach made_completed (init made_completed)
  later : {s t : System} → Reach made_completed s → Step s t → Reach made_completed t
