-- ===== src/Sync/RawMutex/RawFairMutex/Tests.antt =====
-- A run of two threads over a fair mutex: the owner's `unlock` hands it to the parked thread.
use parking_lot.Prelude.{ℕ, ◌≡◌, refl, true, false, Option, none, some, List, [], ◌∷◌}
use parking_lot.Core.SpinWait
use parking_lot.Sync.RawMutex
use parking_lot.Sync.RawMutex.{
  Action, idle, token_handoff, call_lock, call_unlock, run, unpark, Effect, slow_step, lock_bucket,
  unpark_step, unlock_callback,
}
use parking_lot.Sync.RawMutex.System.{System, apply, init}
use parking_lot.Sync.RawMutex.System.Invariant.{owns}
use parking_lot.Sync.RawMutex.RawFairMutex.{
  fair_call, fair_step, fair_pick, FairReach, fair_initial, fair_later,
}
use parking_lot.Sync.RawMutex.RawFairMutex.Safety.{woken_owns}
use parking_lot.Sync.RawMutex.RawFairMutex.Order.{oldest_owns_next}

record Run : Type 0 where
  last : System
  reach : FairReach last

attempt :
    (r : Run) (i : ℕ) (a : Action) (o : Option Effect)
    → fair_step i a r.last.shared (r.last.threads i).pc (r.last.threads i).mail ≡ o
    → Run
attempt r i a none h = r
attempt r i a (some e) h = record {
  last = apply i e r.last;
  reach = fair_later r.reach (fair_pick i a h);
}

play : Run → List (ℕ × Action) → Run
unfolding attempt
play r [] = r
play r ((i, a) ∷ rest) =
    play
      (attempt r i a (fair_step i a r.last.shared (r.last.threads i).pc (r.last.threads i).mail)
        refl)
      rest

-- Thread 2 parks behind thread 1, which then calls `unlock` and locks the bucket.
abbrev parked : Run
parked =
    play (record { last = init; reach = fair_initial })
      ((1, call_lock false)
        ∷ (1, run true)
        ∷ (2, call_lock false)
        ∷ (2, run true)
        ∷ (2, run true)
        ∷ (2, run true)
        ∷ (2, run true)
        ∷ (2, run true)
        ∷ (2, run true)
        ∷ (2, run true)
        ∷ (2, run true)
        ∷ (2, run true)
        ∷ (2, run true)
        ∷ (2, run true)
        ∷ (2, run true)
        ∷ (2, run true)
        ∷ (2, run true)
        ∷ (2, run true)
        ∷ (1, call_unlock false)
        ∷ (1, run true)
        ∷ [])

-- Thread 1 unparks thread 2.
abbrev handed : Run
handed = play parked ((1, unpark false) ∷ [])

abbrev s1 : System
s1 = parked.last

-- The effect of an unlock that leaves the mutex locked for thread 2.
abbrev hand_over : Effect
hand_over = record {
  shared = record { word = 1; bucket = none; queue = [] };
  self = record { pc = idle; mail = none };
  sent = some (2, 1);
}

last_step :
    fair_step 1 (unpark false) s1.shared (s1.threads 1).pc (s1.threads 1).mail ≡ some hand_over
unfolding play attempt fair_step fair_call RawMutex.step slow_step SpinWait.spin lock_bucket
    unpark_step unlock_callback
last_step = refl

queue_2 : s1.shared.queue ≡ 2 ∷ []
unfolding play attempt fair_step fair_call RawMutex.step slow_step SpinWait.spin lock_bucket
    unpark_step unlock_callback
queue_2 = refl

before_2 : owns (s1.threads 2) ≡ false
unfolding play attempt fair_step fair_call RawMutex.step slow_step SpinWait.spin lock_bucket
    unpark_step unlock_callback
before_2 = refl

after_2 : owns ((apply 1 hand_over s1).threads 2) ≡ true
unfolding play attempt fair_step fair_call RawMutex.step slow_step SpinWait.spin lock_bucket
    unpark_step unlock_callback
after_2 = refl

oldest_owns_next_example :
    (◌≡◌ {A = ℕ} 2 2)
    × (((apply 1 hand_over s1).threads 2).mail ≡ some token_handoff)
    × ((apply 1 hand_over s1).shared.queue ≡ [])
oldest_owns_next_example =
    oldest_owns_next parked.reach (fair_pick 1 (unpark false) last_step) 2 [] queue_2 2 before_2
      after_2

mail_2 : (handed.last.threads 2).mail ≡ some 1
unfolding play attempt fair_step fair_call RawMutex.step slow_step SpinWait.spin lock_bucket
    unpark_step unlock_callback
mail_2 = refl

woken_owns_example :
    (owns (handed.last.threads 2) ≡ true) × ((j : ℕ) → owns (handed.last.threads j) ≡ true → j ≡ 2)
woken_owns_example = woken_owns handed.reach 2 1 mail_2
