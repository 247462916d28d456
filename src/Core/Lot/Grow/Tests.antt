-- ===== src/Core/Lot/Grow/Tests.antt =====
-- A table of four buckets with one thread in a queue grows for five threads.
use parking_lot.Prelude.{◌<◌, ◌≡◌, ℕ, some, List, arith, length}
use parking_lot.Core.Queue.{Ptr}
use parking_lot.Core.Lot.{Lot}
use parking_lot.Core.Lot.Tests.{one_parked, one_thread, one_parked-IsLot}
use parking_lot.Core.Lot.Grow.{grow_hashtable}
use parking_lot.Core.Lot.Grow.Laws.{Grown, grow_hashtable-Grown}

short : (b : ℕ) → length (one_thread b) < 2
short b = ground arith

grow_hashtable-Grown_example :
    (t : Lot) × (r : ℕ → List Ptr) × (grow_hashtable 0 2 5 one_parked ≡ some t)
    × Grown 5 one_parked one_thread t r
grow_hashtable-Grown_example =
    grow_hashtable-Grown 0 2 5 one_parked one_thread one_parked-IsLot (omega arith, omega arith)
      short (omega arith) (omega arith)
