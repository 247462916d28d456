-- ===== src/Sync/RawCondvar/Invariant.antt =====
-- What holds of a condition variable and the table between critical sections.
use parking_lot.Prelude.{ℕ, ◌≡◌, List, ◌==◌, is_empty}
use parking_lot.Core.Queue.{Ptr, null}
use parking_lot.Core.Lot.{Lot}
use parking_lot.Core.Lot.Table.{IsLot, view}
use parking_lot.Sync.RawCondvar.{Shared}

-- The state is null exactly while no thread waits at the condition variable's address.
pub record IsCondvar (addr : ℕ) (s : Lot) (q : ℕ → List Ptr) (c : Shared) : Type 0 where
  pub table : IsLot s q
  pub idle : (c.state == null) ≡ is_empty (view s q addr)
