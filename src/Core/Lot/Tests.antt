-- ===== src/Core/Lot/Tests.antt =====
-- A table of four buckets in which two threads park.
use parking_lot.Prelude.{
  ◌∈◌, ◌≢◌, ◌+◌, ℕ, ◌<◌, ◌≡◌, refl, Bool, true, false, none, some, List, [], ◌∷◌, arith, length,
}
use parking_lot.Core.Queue.{key_of, Ptr}
use parking_lot.Core.Hash.{hash}
use parking_lot.Core.Lot.{
  Lot, home, UnparkResult, enqueue, park_start, unpark_one_at, unpark_all_at,
}
use parking_lot.Core.Lot.Table.{IsLot, view}
use parking_lot.Core.Lot.Park.{s', q', enqueue-IsLot, Joined, park_start-Joined}
use parking_lot.Core.Lot.UnparkAll.{Freed, unpark_all-Freed}
use parking_lot.Core.Lot.UnparkOne.{Unparks, unpark_one-Unparks}

abbrev pub empty : Lot
empty = record {
  memory = λ _. record {
    parker = 0;
    key = 0;
    next_in_queue = 0;
    unpark_token = 0;
    park_token = 0;
    parked_with_timeout = false;
  };
  entries = λ _. record {
    queue_head = 0;
    queue_tail = 0;
    fair_timeout = record { timeout = 0; seed = 1 };
  };
  hash_bits = 2;
}

abbrev pub no_threads : ℕ → List Ptr
no_threads b = []

pub empty-IsLot : IsLot empty no_threads
empty-IsLot = record {
  queue = λ b. record { chain = refl; tail = refl; distinct = tt };
  apart = λ a b p m n. absurd (cc);
  placed = λ b p m. absurd (cc);
}

abbrev validates : ℕ → Bool × ℕ
validates c = (true, c + 1)

park_start-Joined_example :
    ((validates 0).0 ≡ true
      → (t : Lot) × (r : ℕ → List Ptr) × (park_start 7 64 0 false validates (empty, 0)
          ≡ (some t, (validates 0).1))
        × Joined 7 64 empty no_threads t r)
    × ((validates 0).0 ≡ false
        → park_start 7 64 0 false validates (empty, 0) ≡ (none, (validates 0).1))
park_start-Joined_example =
    park_start-Joined 7 64 0 false validates empty 0 no_threads empty-IsLot (λ e. omega arith)
      (λ b. refl)

-- Thread 7 is parked with the key 64.
abbrev pub one_parked : Lot
one_parked = s' 7 64 0 false empty no_threads empty-IsLot (λ e. omega arith) (λ b. refl)

abbrev pub one_thread : ℕ → List Ptr
one_thread = q' 7 64 0 false empty no_threads empty-IsLot (λ e. omega arith) (λ b. refl)

pub one_parked-IsLot : IsLot one_parked one_thread
one_parked-IsLot =
    enqueue-IsLot 7 64 0 false empty no_threads empty-IsLot (λ e. omega arith) (λ b. refl)

pub one_thread-lt : length (one_thread (home one_parked 64)) < 2
unfolding hash
one_thread-lt = omega arith

abbrev answers : UnparkResult → ℕ → ℕ × ℕ
answers r c = (1, c)

unpark_one-Unparks_example :
    (out : Lot × ℕ × UnparkResult) × (unpark_one_at 5 answers 2 64 (one_parked, 3) ≡ some out)
    × Unparks 5 answers 64 one_parked 3 one_thread out
unpark_one-Unparks_example =
    unpark_one-Unparks 5 answers 64 one_parked 3 one_thread 2 one_parked-IsLot one_thread-lt

pub one_parked_view : view one_parked one_thread 64 ≡ 7 ∷ []
unfolding hash enqueue
one_parked_view = refl

unpark_all-Freed_example :
    (t : Lot) × (r : ℕ → List Ptr) × (unpark_all_at 2 64 9 one_parked
      ≡ some (t, length (view one_parked one_thread 64)))
    × Freed 64 9 one_parked one_thread t r
unpark_all-Freed_example =
    unpark_all-Freed 2 64 9 one_parked one_thread one_parked-IsLot one_thread-lt

-- How thread 7 stands in the table.
pub one_parked_7 :
    (length (one_thread (home one_parked (key_of one_parked.memory 7))) < 2)
    × (view one_parked one_thread (key_of one_parked.memory 7) ≡ 7 ∷ [])
    × (7 ∈ one_thread (home one_parked (key_of one_parked.memory 7)))
    × ((one_parked.memory 7).parker ≢ 0)
unfolding hash enqueue
one_parked_7 = (omega arith, refl, refl, λ e. absurd (omega arith))
