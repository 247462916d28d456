-- ===== src/Core/Lot/Timeout/Tests.antt =====
-- The only parked thread times out.
use parking_lot.Prelude.{ℕ, ◌<◌, ◌≡◌, ◌≢◌, ◌∈◌, Bool, Option, none, some, List, arith, length}
use parking_lot.Core.Hash.{hash}
use parking_lot.Core.Queue.{Ptr, key_of}
use parking_lot.Core.Lot.{Lot, home, enqueue, unparked, timed_out}
use parking_lot.Core.Lot.Tests.{one_parked, one_thread, one_parked-IsLot}
use parking_lot.Core.Lot.Timeout.{park_timeout_at}
use parking_lot.Core.Lot.Timeout.Laws.{Expired, park_timeout-Expired}

abbrev note : ℕ → Bool → Option Bool → Option Bool
note key was_last c = some was_last

thread-lt : length (one_thread (home one_parked (key_of one_parked.memory 7))) < 2
unfolding hash enqueue
thread-lt = omega arith

park_timeout-Expired_example :
    ((one_parked.memory 7).parker ≡ 0
      → park_timeout_at note 2 7 (one_parked, none)
        ≡ some (one_parked, none, unparked (one_parked.memory 7).unpark_token))
    × ((one_parked.memory 7).parker ≢ 0
        → 7 ∈ one_thread (home one_parked (key_of one_parked.memory 7))
        → (t : Lot) × (r : ℕ → List Ptr) × (w : Bool) × (park_timeout_at note 2 7 (one_parked, none)
            ≡ some (t, note (key_of one_parked.memory 7) w none, timed_out))
          × Expired 7 one_parked one_thread t r w)
park_timeout-Expired_example =
    park_timeout-Expired note 2 7 one_parked none one_thread one_parked-IsLot thread-lt
