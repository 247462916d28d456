-- ===== src/Sync/RawMutex/System.antt =====
-- Any number of threads over one mutex, interleaved in any order.
pub mod Moves
pub mod Classify
pub mod Invariant
pub mod Fields
pub mod Safety
mod Tests
use parking_lot.Prelude.{ℕ, ◌≡◌, Option, none, some, [], update}
use parking_lot.Sync.RawMutex.{Shared, Thread, Effect, Action, Pc, step}

pub record System : Type 0 where
  pub shared : Shared
  pub threads : ℕ → Thread

-- An unparker's token reaches its thread.
abbrev pub deliver : Option (ℕ × ℕ) → (ℕ → Thread) → ℕ → Thread
deliver none f = f
deliver (some (x, token)) f = update f x (record (f x) { mail = some token })

abbrev pub apply : ℕ → Effect → System → System
apply i e s = record { shared = e.shared; threads = deliver e.sent (update s.threads i e.self) }

pub data Step (s : System) : System → Type 0 where
  pick :
      (i : ℕ) (a : Action) {e : Effect}
      → step i a s.shared (s.threads i).pc (s.threads i).mail ≡ some e
      → Step s (apply i e s)

abbrev pub init : System
init = record {
  shared = record { word = 0; bucket = none; queue = [] };
  threads = λ _. record { pc = Pc.idle; mail = none };
}

pub data Reach : System → Type 0 where
  initial : Reach init
  later : {s t : System} → Reach s → Step s t → Reach t
