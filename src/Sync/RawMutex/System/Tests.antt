-- ===== src/Sync/RawMutex/System/Tests.antt =====
-- Runs of two threads over the mutex of src/raw_mutex.rs, by a schedule.
use parking_lot.Prelude.{
  ℕ, ◌≡◌, refl, ◌⊎◌, true, false, Option, none, some, List, [], ◌∷◌, has_bit, ◌∈◌,
}
use parking_lot.Sync.RawMutex.{
  locked_bit, parked_bit, token_handoff, Action, call_lock, call_unlock, run, unpark, unparking,
  Effect, step, slow_step, lock_bucket,
}
use parking_lot.Core.SpinWait
use parking_lot.Sync.RawMutex.System.{System, apply, pick, init, Reach, initial, later}
use parking_lot.Sync.RawMutex.System.Moves.{sleeps}
use parking_lot.Sync.RawMutex.System.Invariant.{owns, is_trying}
use parking_lot.Sync.RawMutex.System.Safety.{
  mutual_exclusion, no_lost_wakeup, fair_unlock_serves_oldest,
}

record Run : Type 0 where
  last : System
  reach : Reach last

attempt :
    (r : Run) (i : ℕ) (a : Action) (o : Option Effect)
    → step i a r.last.shared (r.last.threads i).pc (r.last.threads i).mail ≡ o
    → Run
attempt r i a none h = r
attempt r i a (some e) h = record { last = apply i e r.last; reach = later r.reach (pick i a h) }

play : Run → List (ℕ × Action) → Run
unfolding attempt
play r [] = r
play r ((i, a) ∷ rest) =
    play (attempt r i a (step i a r.last.shared (r.last.threads i).pc (r.last.threads i).mail) refl)
      rest

-- Thread 1 takes the mutex; thread 2 spins ten times, sets the parked bit and parks.
abbrev contention : List (ℕ × Action)
contention =
    (1, call_lock false)
    ∷ (1, run true)
    ∷ (2, call_lock false)
    ∷ (2, run true)
    ∷ (2, run true)
    ∷ (2, run true)
    ∷ (2, run true)
    ∷ (2, run true)
    ∷ (2, run true)
    ∷ (2, run true)
    ∷ (2, run true)
    ∷ (2, run true)
    ∷ (2, run true)
    ∷ (2, run true)
    ∷ (2, run true)
    ∷ (2, run true)
    ∷ (2, run true)
    ∷ (2, run true)
    ∷ []

abbrev contended : Run
contended = play (record { last = init; reach = initial }) contention

-- Thread 1 is in `unlock_fair`, and holds the bucket.
abbrev releasing : Run
releasing = play contended ((1, call_unlock true) ∷ (1, run true) ∷ [])

contended_queue : contended.last.shared.queue ≡ 2 ∷ []
unfolding play attempt step slow_step SpinWait.spin lock_bucket
contended_queue = refl

releasing_pc : (releasing.last.threads 1).pc ≡ unparking true false
unfolding play attempt step slow_step SpinWait.spin lock_bucket
releasing_pc = refl

releasing_queue : releasing.last.shared.queue ≡ 2 ∷ []
unfolding play attempt step slow_step SpinWait.spin lock_bucket
releasing_queue = refl

asleep_2 : sleeps (contended.last.threads 2).pc ≡ true
unfolding play attempt step slow_step SpinWait.spin lock_bucket
asleep_2 = refl

no_mail_2 : (contended.last.threads 2).mail ≡ none
unfolding play attempt step slow_step SpinWait.spin lock_bucket
no_mail_2 = refl

abbrev s1 : System
s1 = contended.last

mutual_exclusion_example :
    ((i j : ℕ) → owns (s1.threads i) ≡ true → owns (s1.threads j) ≡ true → i ≡ j)
    × ((i : ℕ) → owns (s1.threads i) ≡ true → has_bit locked_bit s1.shared.word ≡ true)
    × (has_bit locked_bit s1.shared.word ≡ true → (i : ℕ) × (owns (s1.threads i) ≡ true))
mutual_exclusion_example = mutual_exclusion contended.reach

no_lost_wakeup_example :
    (2 ∈ s1.shared.queue)
    × (has_bit parked_bit s1.shared.word ≡ true)
    × (((j : ℕ) × (owns (s1.threads j) ≡ true)) ⊎ ((j : ℕ) × (is_trying (s1.threads j) ≡ true)))
no_lost_wakeup_example = no_lost_wakeup contended.reach 2 asleep_2 no_mail_2

fair_unlock_serves_oldest_example :
    (e : Effect) × (step 1
        (unpark false)
        releasing.last.shared
        (releasing.last.threads 1).pc
        (releasing.last.threads 1).mail
      ≡ some e)
    × (e.sent ≡ some (2, token_handoff))
    × (e.shared.queue ≡ [])
    × (has_bit locked_bit e.shared.word ≡ true)
    × (has_bit parked_bit e.shared.word ≡ false)
    × (owns ((apply 1 e releasing.last).threads 2) ≡ true)
fair_unlock_serves_oldest_example =
    fair_unlock_serves_oldest 1 2 [] false false releasing.reach releasing_pc releasing_queue
