-- ===== src/Sync/RawMutex/Tests.antt =====
-- An unlock of a mutex behind which one thread is parked.
use parking_lot.Prelude.{none, ℕ, ◌≡◌, true, false, some, List, [], ◌∷◌}
use parking_lot.Core.Lot.{Lot, UnparkResult, unpark_one_at}
use parking_lot.Core.Queue.{key_of}
use parking_lot.Core.Lot.Timeout.{park_timeout_at}
use parking_lot.Core.Lot.Table.{IsLot, view}
use parking_lot.Core.Lot.{timed_out}
use parking_lot.Core.Lot.Tests.{
  one_parked_7, one_parked, one_thread, one_parked-IsLot, one_thread-lt, one_parked_view,
}
use parking_lot.Sync.RawMutex.{
  Shared, Effect, unlock_callback, unpark_step, timed_step, timed_out_callback,
}
use parking_lot.Sync.RawMutex.Refinement.{
  Agrees, fair, unpark_step-Agrees, timed_step-park_timeout_at,
}

abbrev one_waiter : Shared
one_waiter = record { word = 3; bucket = some 1; queue = 7 ∷ [] }

unpark_step-Agrees_example :
    (e : Effect) × (t : Lot) × (r : ℕ → List ℕ) × (word : ℕ) × (result : UnparkResult)
    × (unpark_step true false
          (fair 5 64 2 true false one_parked one_thread one_waiter one_parked-IsLot one_thread-lt
            one_parked_view)
          one_waiter
          (7 ∷ [])
        ≡ some e)
    × (unpark_one_at 5 (unlock_callback true) 2 64 (one_parked, 3) ≡ some (t, word, result))
    × Agrees 64 t r word e
unpark_step-Agrees_example =
    unpark_step-Agrees 5 64 2 true false one_parked one_thread one_waiter one_parked-IsLot
      one_thread-lt one_parked_view

timed_step-park_timeout_at_example :
    (e : Effect) × (t : Lot) × (r : ℕ → List ℕ) × (timed_step 7 none one_waiter ≡ some e)
    × (park_timeout_at (λ key. timed_out_callback) 2 7 (one_parked, one_waiter.word)
        ≡ some (t, e.shared.word, timed_out))
    × IsLot t r
    × (view t r (key_of one_parked.memory 7) ≡ e.shared.queue)
timed_step-park_timeout_at_example =
    timed_step-park_timeout_at 2 7 one_parked one_thread one_waiter one_parked-IsLot one_parked_7.0
      one_parked_7.1 one_parked_7.2 one_parked_7.3
