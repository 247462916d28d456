-- ===== src/Sync/RawMutex/RawFairMutex.antt =====
-- src/raw_fair_mutex.rs: a mutex whose every unlock is fair, over src/raw_mutex.rs.
pub mod Safety
pub mod Order
mod Tests
use parking_lot.Prelude.{ℕ, ◌≡◌, true, Option, some}
use parking_lot.Sync.RawMutex
use parking_lot.Sync.RawMutex.{Action, call_unlock, Pc, Shared, Effect}
use parking_lot.Sync.RawMutex.System.{System, apply, init}

-- The call of `RawMutex` behind a call of `RawFairMutex`.
pub fair_call : Action → Action
fair_call (call_unlock fair) = call_unlock true
fair_call a = a

pub fair_step : ℕ → Action → Shared → Pc → Option ℕ → Option Effect
fair_step me a m p mail = RawMutex.step me (fair_call a) m p mail

pub data FairStep (s : System) : System → Type 0 where
  fair_pick :
      (i : ℕ) (a : Action) {e : Effect}
      → fair_step i a s.shared (s.threads i).pc (s.threads i).mail ≡ some e
      → FairStep s (apply i e s)

pub data FairReach : System → Type 0 where
  fair_initial : FairReach init
  fair_later : {s t : System} → FairReach s → FairStep s t → FairReach t
