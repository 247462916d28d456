-- ===== src/Sync/RawCondvar/Tests.antt =====
-- A condition variable at address 64 and a mutex at address 128, with one waiting thread.
use parking_lot.Prelude.{
  ℕ, ◌<◌, ◌≡◌, ◌≢◌, ◌⊎◌, ◌∈◌, refl, Bool, true, false, not, some, List, arith, ◌==◌, if◌then◌else◌,
  ◌&&◌, length,
}
use parking_lot.Core.Hash.{hash}
use parking_lot.Core.Queue.{Ptr, null, key_of}
use parking_lot.Core.Lot.{Lot, home, enqueue}
use parking_lot.Core.Lot.Table.{view}
use parking_lot.Core.Lot.Timeout.Laws.{Expired}
use parking_lot.Core.Lot.Tests.{
  empty, no_threads, empty-IsLot, one_parked, one_thread, one_parked-IsLot, one_thread-lt,
}
use parking_lot.Sync.RawMutex.{token_handoff}
use parking_lot.Sync.RawCondvar.{
  Shared, Waiting, panics, returns, sleeps, ends, wait_begin, wait_expire, notify_one_slow,
  notify_all_slow,
}
use parking_lot.Sync.RawCondvar.Invariant.{IsCondvar}
use parking_lot.Sync.RawCondvar.Begin.{Sleeps, wait_begin-Sleeps}
use parking_lot.Sync.RawCondvar.NotifyOne.{NotifiedOne, notify_one_slow-NotifiedOne}
use parking_lot.Sync.RawCondvar.NotifyAll.{NotifiedAll, notify_all_slow-NotifiedAll}
use parking_lot.Sync.RawCondvar.Expire.{wait_expire-IsCondvar}

abbrev unused : Shared
unused = record { state = 0; words = λ m. 1 }

unused-IsCondvar : IsCondvar 64 empty no_threads unused
unused-IsCondvar = record { table = empty-IsLot; idle = refl }

abbrev in_use : Shared
in_use = record { state = 128; words = λ m. 1 }

in_use-IsCondvar : IsCondvar 64 one_parked one_thread in_use
unfolding hash enqueue
in_use-IsCondvar = record { table = one_parked-IsLot; idle = refl }

wait_begin-Sleeps_example :
    (((in_use.state ≡ null) ⊎ (in_use.state ≡ 128))
      → (t : Lot) × (w : Waiting) × (r : ℕ → List Ptr) × (wait_begin 5 3 9 64 128 false
            (one_parked, in_use)
          ≡ some (sleeps t w))
        × Sleeps 9 64 128 one_parked in_use one_thread t w r)
    × (in_use.state ≢ null
        → in_use.state ≢ 128
        → wait_begin 5 3 9 64 128 false (one_parked, in_use) ≡ some (ends one_parked in_use panics))
wait_begin-Sleeps_example =
    wait_begin-Sleeps 5 3 9 64 128 false one_parked in_use one_thread in_use-IsCondvar
      (λ e. omega arith) (λ e. omega arith) refl (λ b. ground arith) (λ b. ground arith)

notify_one_slow-NotifiedOne_example :
    (in_use.state ≢ 128
      → notify_one_slow 5 2 64 128 (one_parked, in_use) ≡ some (one_parked, in_use, false))
    × (in_use.state ≡ 128
        → (t : Lot) × (d : Shared) × (r : ℕ → List Ptr) × (notify_one_slow 5 2 64 128
              (one_parked, in_use)
            ≡ some (t, d, true))
          × NotifiedOne 5 2 64 128 one_parked in_use one_thread t d r)
notify_one_slow-NotifiedOne_example =
    notify_one_slow-NotifiedOne 5 2 64 128 one_parked in_use one_thread in_use-IsCondvar
      (λ e. omega arith) (λ e. omega arith) one_thread-lt

notify_all_slow-NotifiedAll_example :
    (in_use.state ≢ 128
      → notify_all_slow 5 2 64 128 (one_parked, in_use) ≡ some (one_parked, in_use, 0))
    × (in_use.state ≡ 128
        → (t : Lot) × (d : Shared) × (r : ℕ → List Ptr) × (notify_all_slow 5 2 64 128
              (one_parked, in_use)
            ≡ some (t, d, length (view one_parked one_thread 64)))
          × NotifiedAll 5 2 64 128 one_parked in_use one_thread t d r)
notify_all_slow-NotifiedAll_example =
    notify_all_slow-NotifiedAll 5 2 64 128 one_parked in_use one_thread in_use-IsCondvar
      (λ e. omega arith) one_thread-lt

abbrev sleeper : Waiting
sleeper = record { shared = in_use; bad_mutex = false; requeued = false }

thread-lt : length (one_thread (home one_parked (key_of one_parked.memory 7))) < 2
unfolding hash enqueue
thread-lt = omega arith

wait_expire-IsCondvar_example :
    ((one_parked.memory 7).parker ≡ 0
      → wait_expire 2 7 64 (one_parked, sleeper)
        ≡ some (
          one_parked,
          sleeper.shared,
          returns (not ((one_parked.memory 7).unpark_token == token_handoff)) false,
        ))
    × ((one_parked.memory 7).parker ≢ 0
        → 7 ∈ one_thread (home one_parked (key_of one_parked.memory 7))
        → (t : Lot) × (d : Shared) × (r : ℕ → List Ptr) × (last : Bool) × (wait_expire 2 7 64
              (one_parked, sleeper)
            ≡ some (t, d, returns true (key_of one_parked.memory 7 == 64)))
          × Expired 7 one_parked one_thread t r last
          × IsCondvar 64 t r d
          × (d.state
              ≡ (if (key_of one_parked.memory 7 == 64) && last then null else sleeper.shared.state))
          × (d.words ≡ sleeper.shared.words))
wait_expire-IsCondvar_example =
    wait_expire-IsCondvar 2 7 64 one_parked sleeper one_thread in_use-IsCondvar refl thread-lt
