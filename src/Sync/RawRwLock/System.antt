-- ===== src/Sync/RawRwLock/System.antt =====
-- Any number of threads over one `RawRwLock`, interleaved in any order.
pub mod Holds
pub mod Ledger
pub mod Sift
pub mod Grant
pub mod Swaps
pub mod Moves
pub mod Traffic
pub mod Invariant
pub mod LockMoves
pub mod DrainMoves
pub mod UnlockMoves
pub mod WakeMoves
pub mod Classify
pub mod Safety
pub mod Rings
pub mod RingSteps
pub mod RingClassify
pub mod Wakeup
mod Tests
use parking_lot.Prelude.{ℕ, ◌≡◌, Option, none, some, List, [], if◌then◌else◌, has, update}
use parking_lot.Sync.RawRwLock.{free, token_shared, Pc, Action, Shared, Thread, Effect}
use parking_lot.Sync.RawRwLock.Step.{step}

pub record System : Type 0 where
  pub shared_state : Shared
  pub threads : ℕ → Thread

-- An unparker's token reaches its threads.
abbrev pub deliver : List ℕ → ℕ → (ℕ → Thread) → ℕ → Thread
deliver xs token f j = if has j xs then record (f j) { mail = some token } else f j

abbrev pub apply : ℕ → Effect → System → System
apply i e s = record {
  shared_state = e.shared_state;
  threads = deliver e.sent e.token (update s.threads i e.self);
}

pub data Step (s : System) : System → Type 0 where
  pick :
      (i : ℕ) (a : Action) {e : Effect}
      → step i a s.shared_state (s.threads i).pc (s.threads i).mail ≡ some e
      → Step s (apply i e s)

abbrev pub init : System
init = record {
  shared_state = record {
    word = free;
    bucket = none;
    queue = [];
    writer_bucket = none;
    writer_queue = [];
    park_token = λ _. token_shared;
  };
  threads = λ _. record { pc = Pc.idle; mail = none };
}

pub data Reach : System → Type 0 where
  initial : Reach init
  later : {s t : System} → Reach s → Step s t → Reach t
