-- ===== src/Core/Lot/Filter/Tests.antt =====
-- A filter over the table in which thread 7 is parked.
use parking_lot.Prelude.{ℕ, ◌+◌, ◌≡◌, some, List}
use parking_lot.Core.Lot.{Lot, UnparkResult, FilterOp, unpark}
use parking_lot.Core.Lot.Tests.{one_parked, one_thread, one_parked-IsLot, one_thread-lt}
use parking_lot.Core.Lot.Filter.{unpark_filter_at}
use parking_lot.Core.Lot.Filter.Laws.{Sifts, on_queue, result, answer, unpark_filter-Sifts}

abbrev takes_all : ℕ → ℕ → FilterOp × ℕ
takes_all token c = (unpark, c + 1)

abbrev answers : UnparkResult → ℕ → ℕ × ℕ
answers r c = (1, c)

unpark_filter-Sifts_example :
    (t : Lot) × (q' : ℕ → List ℕ) × (unpark_filter_at 5 answers takes_all 2 64 (one_parked, 3)
      ≡ some (
        t,
        (answer 5 answers takes_all 64 one_parked 3 one_thread one_parked-IsLot).1,
        result 5 answers takes_all 64 one_parked 3 one_thread one_parked-IsLot,
      ))
    × Sifts ℕ 64
        (answer 5 answers takes_all 64 one_parked 3 one_thread one_parked-IsLot).0
        (on_queue 5 answers takes_all 64 one_parked 3 one_thread one_parked-IsLot)
        one_parked
        one_thread
        t
        q'
unpark_filter-Sifts_example =
    unpark_filter-Sifts 5 answers takes_all 64 one_parked 3 one_thread one_parked-IsLot 2
      one_thread-lt
