-- ===== src/Sync/Once/Tests.antt =====
-- A wake-up of a `Once` behind which one thread is parked.
use parking_lot.Prelude.{ℕ, ◌≡◌, true, some, List, [], ◌∷◌, length, ◌∈◌}
use parking_lot.Core.Lot.{Lot, unpark_all_at}
use parking_lot.Core.Lot.Table.{IsLot, view}
use parking_lot.Core.Lot.Tests.{
  one_parked, one_thread, one_parked-IsLot, one_thread-lt, one_parked_view,
}
use parking_lot.Sync.Once.{Shared, Effect, unpark_all_step}
use parking_lot.Sync.Once.Refinement.{unpark_all_step-unpark_all_at}

abbrev one_waiter : Shared
one_waiter = record { word = 1; bucket = some 1; queue = 7 ∷ [] }

unpark_all_step-unpark_all_at_example :
    (e : Effect) × (t : Lot) × (r : ℕ → List ℕ) × (unpark_all_step true one_waiter ≡ some e)
    × (unpark_all_at 2 64 9 one_parked ≡ some (t, length e.woken))
    × IsLot t r
    × (view t r 64 ≡ e.shared.queue)
    × ((a : ℕ) → a ∈ e.woken → (t.memory a).parker ≡ 0)
unpark_all_step-unpark_all_at_example =
    unpark_all_step-unpark_all_at 2 64 9 true one_parked one_thread one_waiter one_parked-IsLot
      one_thread-lt one_parked_view
