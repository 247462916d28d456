-- ===== src/Core/Lot/Requeue/Tests.antt =====
-- The only thread that waits for key 64 is requeued to key 128.
use parking_lot.Prelude.{ℕ, ◌+◌, ◌≡◌, ◌≢◌, some, List}
use parking_lot.Core.Queue.{Ptr}
use parking_lot.Core.Lot.{Lot, UnparkResult, default_result, RequeueOp, abort, requeue_one}
use parking_lot.Core.Lot.Tests.{one_parked, one_thread, one_parked-IsLot, one_thread-lt}
use parking_lot.Core.Lot.Requeue.{unpark_requeue_at}
use parking_lot.Core.Lot.Requeue.Laws.{Requeues, unpark_requeue-Requeues}

abbrev asks : ℕ → RequeueOp × ℕ
asks c = (requeue_one, c + 1)

abbrev answers : RequeueOp → UnparkResult → ℕ → ℕ × ℕ
answers op r c = (1, c + 1)

unpark_requeue-Requeues_example :
    ((asks 3).0 ≡ abort
      → unpark_requeue_at 5 answers asks 2 64 128 (one_parked, 3)
        ≡ some (one_parked, (asks 3).1, default_result))
    × ((asks 3).0 ≢ abort
        → (out : Lot × ℕ × UnparkResult) × (q' : ℕ → List Ptr) × (unpark_requeue_at 5 answers asks 2
              64 128
              (one_parked, 3)
            ≡ some out)
          × Requeues 5 answers (asks 3).0 64 128 one_parked (asks 3).1 one_thread out.0 q' out)
unpark_requeue-Requeues_example =
    unpark_requeue-Requeues 5 asks answers 2 64 128 one_parked 3 one_thread one_parked-IsLot
      one_thread-lt
