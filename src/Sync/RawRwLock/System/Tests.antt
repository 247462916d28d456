-- ===== src/Sync/RawRwLock/System/Tests.antt =====
-- Runs over the lock of src/raw_rwlock.rs, by a schedule.
use parking_lot.Prelude.{
  ℕ, zero, suc, ◌+◌, ◌-◌, ◌^◌, ◌<◌, ◌≤◌, ◌≡◌, ◌↔◌, ◌⊎◌, refl, true, false, not, Option, none, some,
  List, [], ◌∷◌, ◌++◌, ◌==◌, arith, length, has, is_empty, ◌∈◌, ◌∉◌, Distinct,
}
use parking_lot.Core.SpinWait
use parking_lot.Sync.RawMutex.{token_handoff}
use parking_lot.Sync.RawRwLock.{
  Word, free, token_upgradable, shared, upgradable, exclusive, unlocks_exclusive, Action, call_lock,
  call_unlock, call_downgrade, run, Effect, remove_token, max_readers,
}
use parking_lot.Sync.RawRwLock.Lock.{
  fast_step, attempt_step, lock_main, validate_step, enqueue_step,
}
use parking_lot.Sync.RawRwLock.Drain.{
  drain_step, lock_writer, drain_validate_step, drain_enqueue_step,
}
use parking_lot.Sync.RawRwLock.Wake.{filter_step}
use parking_lot.Sync.RawRwLock.Handoff.{Grants, unlock_fair-serves}
use parking_lot.Sync.RawRwLock.Step.{step, drop_step, downgrade_step}
use parking_lot.Sync.RawRwLock.Usize.{encode, value, add_exact}
use parking_lot.Sync.RawRwLock.System.{System, apply, pick, init, Reach, initial, later}
use parking_lot.Sync.RawRwLock.System.Holds.{
  nothing, upgrades, writes, counts, is_major, is_upgrade, is_writer, hold,
}
use parking_lot.Sync.RawRwLock.System.Moves.{in_main, in_writer, place, asks}
use parking_lot.Sync.RawRwLock.System.Safety.{
  writer_excludes, one_major, readers_counted, queues_agree, release_exact, readers_bounded,
  one_waiting_writer,
}
use parking_lot.Sync.RawRwLock.System.Rings.{signals}
use parking_lot.Sync.RawRwLock.System.Wakeup.{writer_is_woken}

record Run : Type 0 where
  last : System
  reach : Reach last

attempt :
    (r : Run) (i : ℕ) (a : Action) (o : Option Effect)
    → step i a r.last.shared_state (r.last.threads i).pc (r.last.threads i).mail ≡ o
    → Run
attempt r i a none h = r
attempt r i a (some e) h = record { last = apply i e r.last; reach = later r.reach (pick i a h) }

play : Run → List (ℕ × Action) → Run
unfolding attempt
play r [] = r
play r ((i, a) ∷ rest) =
    play
      (attempt r i a (step i a r.last.shared_state (r.last.threads i).pc (r.last.threads i).mail)
        refl)
      rest

-- Thread `i` takes `n` steps.
abbrev steps : ℕ → ℕ → List (ℕ × Action)
steps i zero = []
steps i (suc n) = (i, run true) ∷ steps i n

abbrev start_run : Run
start_run = record { last = init; reach = initial }

-- Thread 1 holds the lock exclusively; thread 2 asks for a shared lock and parks.
abbrev contended : Run
contended = play start_run (
    (1, call_lock exclusive false)
    ∷ (1, run true)
    ∷ (2, call_lock (shared false) false)
    ∷ steps 2 16)

abbrev s1 : System
s1 = contended.last

writes_1 : hold (s1.threads 1) ≡ writes
unfolding play attempt step fast_step attempt_step SpinWait.spin lock_main validate_step
    enqueue_step
writes_1 = refl

queue_2 : s1.shared_state.queue ≡ 2 ∷ []
unfolding play attempt step fast_step attempt_step SpinWait.spin lock_main validate_step
    enqueue_step
queue_2 = refl

writer_excludes_example :
    ((j : ℕ) → (1 == j) ≡ false → hold (s1.threads j) ≡ nothing)
    × (s1.shared_state.word.writer ≡ true)
    × (s1.shared_state.word.upgradable ≡ false)
    × (s1.shared_state.word.readers ≡ 0)
writer_excludes_example = writer_excludes contended.reach 1 writes_1

one_major_example :
    ((i j : ℕ)
      → is_major (hold (s1.threads i)) ≡ true
      → is_major (hold (s1.threads j)) ≡ true
      → i ≡ j)
    × ((i : ℕ) → is_upgrade (hold (s1.threads i)) ≡ true → s1.shared_state.word.upgradable ≡ true)
    × ((i : ℕ) → is_writer (hold (s1.threads i)) ≡ true → s1.shared_state.word.writer ≡ true)
    × (s1.shared_state.word.upgradable ≡ true → (i : ℕ) × (is_upgrade (hold (s1.threads i)) ≡ true))
    × (s1.shared_state.word.writer ≡ true → (i : ℕ) × (is_writer (hold (s1.threads i)) ≡ true))
one_major_example = one_major contended.reach

queues_agree_example :
    Distinct s1.shared_state.queue
    × Distinct s1.shared_state.writer_queue
    × ((j : ℕ)
        → j ∈ s1.shared_state.queue
        → (place (s1.threads j).pc ≡ in_main)
          × ((s1.threads j).mail ≡ none)
          × (s1.shared_state.park_token j ≡ asks (s1.threads j).pc)
          × (j ∉ s1.shared_state.writer_queue))
    × ((j : ℕ)
        → j ∈ s1.shared_state.writer_queue
        → (place (s1.threads j).pc ≡ in_writer) × ((s1.threads j).mail ≡ none))
queues_agree_example = queues_agree contended.reach

-- Thread 1 unlocks fairly: thread 2 is woken with the lock.
unlock_fair-serves_example :
    (e : Effect) × (filter_step (unlocks_exclusive true false) false false s1.shared_state ≡ some e)
    × (2 ∈ e.sent)
    × (e.token ≡ token_handoff)
    × Grants s1.shared_state.park_token e.sent e.shared_state.word
    × (e.shared_state.word.parked ≡ not (is_empty e.shared_state.queue))
unlock_fair-serves_example =
    unlock_fair-serves s1.shared_state 2 [] queue_2 (rw queue_2 (refl, tt)) true false false false
      refl

-- Thread 1 has a shared lock, thread 2 an upgradable lock.
abbrev readers : Run
readers = play start_run (
    (1, call_lock (shared false) false)
    ∷ (1, run true)
    ∷ (2, call_lock upgradable false)
    ∷ (2, run true)
    ∷ [])

abbrev s2 : System
s2 = readers.last

readers_counted_example :
    (xs : List ℕ) × Distinct xs
    × ((j : ℕ) → has j xs ≡ counts (hold (s2.threads j)))
    × (length xs ≡ s2.shared_state.word.readers)
readers_counted_example = readers_counted readers.reach

two_readers : s2.shared_state.word.readers ≡ 2
unfolding play attempt step fast_step
two_readers = refl

upgrades_2 : hold (s2.threads 2) ≡ upgrades
unfolding play attempt step fast_step
upgrades_2 = refl

release_exact_example :
    (value token_upgradable ≤ encode s2.shared_state.word)
    × (encode (remove_token token_upgradable s2.shared_state.word)
        ≡ encode s2.shared_state.word - value token_upgradable)
release_exact_example = release_exact readers.reach 2 token_upgradable (rw upgrades_2 refl)

quiet_2 : (j : ℕ) → 3 ≤ j → counts (hold (s2.threads j)) ≡ false
unfolding play attempt step fast_step
quiet_2 j h = ground arith

readers_bounded_example :
    (s2.shared_state.word.readers ≤ 3) × (3 < max_readers → encode s2.shared_state.word < 2 ^ 64)
readers_bounded_example = readers_bounded readers.reach 3 quiet_2

add_exact_example :
    let s : Word = record free { parked = true; readers = 5 } in
    ((true ≡ true) ↔ (encode s + value token_upgradable < 2 ^ 64))
    × (encode (record s { upgradable = true; readers = 6 }) ≡ encode s + value token_upgradable)
add_exact_example =
    add_exact upgradable (record free { parked = true; readers = 5 }) refl (omega arith)

-- Thread 1 has a shared lock; thread 2 waits for it to leave and parks.
abbrev waiting : Run
waiting = play start_run (
    (1, call_lock (shared false) false)
    ∷ (1, run true)
    ∷ (2, call_lock exclusive false)
    ∷ steps 2 18)

queue_of_writer : waiting.last.shared_state.writer_queue ≡ 2 ∷ []
unfolding play attempt step fast_step attempt_step SpinWait.spin drain_step lock_writer
    drain_validate_step drain_enqueue_step
queue_of_writer = refl

one_waiting_writer_example : length waiting.last.shared_state.writer_queue ≤ 1
one_waiting_writer_example = one_waiting_writer waiting.reach

writer_is_woken_example :
    ((waiting.last.shared_state.word.writer_parked ≡ true)
      × (k : ℕ) × (counts (hold (waiting.last.threads k)) ≡ true))
    ⊎ ((k : ℕ) × (signals (waiting.last.threads k).pc ≡ true))
writer_is_woken_example = writer_is_woken waiting.reach 2 (rw queue_of_writer refl)

-- Thread 2 waits for the reader 1 and is about to park; the reader leaves and goes to wake it;
-- thread 2 sees that it has left and downgrades. The bit of the waiting writer is then set while the
-- writer bit is clear.
abbrev stale : Run
stale = play start_run (
    (1, call_lock (shared false) false)
    ∷ (1, run true)
    ∷ (2, call_lock exclusive false)
    ∷ (steps 2 15
        ++ (1, call_unlock false) ∷ (1, run true) ∷ (steps 2 5 ++ (2, call_downgrade) ∷ [])))

stale_bit :
    (stale.last.shared_state.word.writer_parked ≡ true)
    × (stale.last.shared_state.word.writer ≡ false)
unfolding play attempt step fast_step attempt_step SpinWait.spin drop_step drain_step lock_writer
    drain_validate_step downgrade_step
stale_bit = (refl, refl)
