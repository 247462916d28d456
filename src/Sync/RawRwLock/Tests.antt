-- ===== src/Sync/RawRwLock/Tests.antt =====
-- A table in which a thread is parked at the address of a reader-writer lock.
use parking_lot.Prelude.{
  ℕ, ◌<◌, ◌≡◌, refl, true, false, some, none, List, [], ◌∷◌, arith, length, ◌∈◌,
}
use parking_lot.Core.Hash.{hash}
use parking_lot.Core.Lot.{Lot, home, UnparkResult, enqueue}
use parking_lot.Core.Lot.Table.{IsLot, view}
use parking_lot.Core.Lot.Park.{s', q', enqueue-IsLot}
use parking_lot.Core.Lot.Tests.{empty, no_threads, empty-IsLot}
use parking_lot.Core.Lot.Filter.{unpark_filter_at}
use parking_lot.Core.Lot.Filter.Loop.{token_of}
use parking_lot.Sync.RawRwLock.{
  Word, free, token_shared, unlocks_exclusive, WakeReason, Shared, Effect,
}
use parking_lot.Sync.RawRwLock.Usize.{value}
use parking_lot.Sync.RawRwLock.Wake.{base, filter_step}
use parking_lot.Sync.RawRwLock.Refinement.{
  wake_closure, filter_closure, Agrees, fair, filter_step-Agrees,
}

-- Thread 7 is parked at the address 64, and asks for a shared lock.
abbrev one_reader : Lot
one_reader = s' 7 64 16 false empty no_threads empty-IsLot (λ e. omega arith) (λ b. refl)

abbrev one_thread : ℕ → List ℕ
one_thread = q' 7 64 16 false empty no_threads empty-IsLot (λ e. omega arith) (λ b. refl)

one_reader-IsLot : IsLot one_reader one_thread
one_reader-IsLot =
    enqueue-IsLot 7 64 16 false empty no_threads empty-IsLot (λ e. omega arith) (λ b. refl)

one_reader-lt : length (one_thread (home one_reader 64)) < 2
unfolding hash
one_reader-lt = omega arith

abbrev held : Shared
held = record {
  word = record free { parked = true; writer = true };
  bucket = some 1;
  queue = 7 ∷ [];
  writer_bucket = none;
  writer_queue = [];
  park_token = λ _. token_shared;
}

one_reader_view : view one_reader one_thread 64 ≡ 7 ∷ []
unfolding hash enqueue
one_reader_view = refl

one_reader_token : (a : ℕ) → a ∈ (7 ∷ []) → token_of one_reader.memory a ≡ value token_shared
unfolding enqueue
one_reader_token a m = ground arith

abbrev why : WakeReason
why = unlocks_exclusive true false

filter_step-Agrees_example :
    (e : Effect) × (t : Lot) × (r : ℕ → List ℕ) × (c' : Word × Word) × (result : UnparkResult)
    × (filter_step why
          (fair 5 64 2 why false one_reader one_thread held one_reader-IsLot one_reader-lt
            one_reader_view one_reader_token)
          false
          held
        ≡ some e)
    × (unpark_filter_at 5
          (wake_closure why false)
          filter_closure
          2
          64
          (one_reader, (held.word, base why))
        ≡ some (t, c', result))
    × Agrees 64 t r c'.0 e
filter_step-Agrees_example =
    filter_step-Agrees 5 64 2 why false one_reader one_thread held one_reader-IsLot one_reader-lt
      one_reader_view one_reader_token
