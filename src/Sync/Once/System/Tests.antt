-- ===== src/Sync/Once/System/Tests.antt =====
-- Runs of two threads over the `Once` of src/once.rs, by a schedule.
use parking_lot.Prelude.{
  ℕ, ◌≡◌, ◌≤◌, ◌⊎◌, ◌↔◌, refl, true, false, Option, none, some, List, [], ◌∷◌, ◌∈◌,
}
use parking_lot.Core.SpinWait
use parking_lot.Sync.Once.{
  state, done, in_progress, returned, Action, call, run, Effect, step, slow_step, lock_bucket,
}
use parking_lot.Sync.Once.System.{System, apply, pick, init, Reach, initial, later}
use parking_lot.Sync.Once.System.Moves.{sleeps, runs, wakes}
use parking_lot.Sync.Once.System.Safety.{initializes_once, waiter_is_served, state_reports}

record Run : Type 0 where
  last : System
  reach : Reach false last

attempt :
    (r : Run) (i : ℕ) (a : Action) (o : Option Effect)
    → step i a r.last.shared (r.last.threads i).pc (r.last.threads i).woken ≡ o
    → Run
attempt r i a none h = r
attempt r i a (some e) h = record { last = apply i a e r.last; reach = later r.reach (pick i a h) }

play : Run → List (ℕ × Action) → Run
unfolding attempt
play r [] = r
play r ((i, a) ∷ rest) =
    play
      (attempt r i a (step i a r.last.shared (r.last.threads i).pc (r.last.threads i).woken) refl)
      rest

-- Thread 1 is in its closure; thread 2 spins ten times, sets the parked bit and parks.
abbrev contended : Run
contended =
    play (record { last = init false; reach = initial })
      ((1, call false)
        ∷ (1, run true)
        ∷ (1, run true)
        ∷ (1, run true)
        ∷ (2, call false)
        ∷ (2, run true)
        ∷ (2, run true)
        ∷ (2, run true)
        ∷ (2, run true)
        ∷ (2, run true)
        ∷ (2, run true)
        ∷ (2, run true)
        ∷ (2, run true)
        ∷ (2, run true)
        ∷ (2, run true)
        ∷ (2, run true)
        ∷ (2, run true)
        ∷ (2, run true)
        ∷ (2, run true)
        ∷ (2, run true)
        ∷ (2, run true)
        ∷ [])

asleep_2 : sleeps (contended.last.threads 2).pc ≡ true
unfolding play attempt step slow_step SpinWait.spin lock_bucket
asleep_2 = refl

not_woken_2 : (contended.last.threads 2).woken ≡ false
unfolding play attempt step slow_step SpinWait.spin lock_bucket
not_woken_2 = refl

abbrev s2 : System
s2 = contended.last

initializes_once_example :
    (s2.completions ≤ 1)
    × ((i j : ℕ) → runs (s2.threads i).pc ≡ true → runs (s2.threads j).pc ≡ true → i ≡ j)
    × ((i : ℕ) → runs (s2.threads i).pc ≡ true → (false ≡ false) × (s2.completions ≡ 0))
    × ((i : ℕ) → (s2.threads i).pc ≡ returned → s2.completions ≡ 1)
initializes_once_example = initializes_once contended.reach

waiter_is_served_example :
    (2 ∈ s2.shared.queue)
    × (((j : ℕ) × (runs (s2.threads j).pc ≡ true)) ⊎ ((j : ℕ) × (wakes (s2.threads j).pc ≡ true)))
waiter_is_served_example = waiter_is_served contended.reach 2 asleep_2 not_woken_2

state_reports_example :
    ((state s2.shared.word ≡ done) ↔ ((s2.completions ≡ 1) ⊎ (false ≡ true)))
    × ((state s2.shared.word ≡ in_progress) ↔ ((i : ℕ) × (runs (s2.threads i).pc ≡ true)))
state_reports_example = state_reports contended.reach
