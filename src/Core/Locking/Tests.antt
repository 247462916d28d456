-- ===== src/Core/Locking/Tests.antt =====
-- Thread 1 locks two buckets of the first table while thread 2 grows it.
use parking_lot.Prelude.{
  ℕ, ◌==◌, if◌then◌else◌, ◌≡◌, refl, Option, none, some, List, [], ◌∷◌, arith,
}
use parking_lot.Core.Hash.{hash}
use parking_lot.Core.Locking.{Pc, Shared, Action, call_pair, call_grow, run, inside_pair, step}
use parking_lot.Core.Locking.System.{System, apply, init, pick, Reach, initial, later}
use parking_lot.Core.Locking.System.Safety.{Guarded, Reach-Guarded}

-- Two entries in the first table, and twice as many in the next.
abbrev sizes : ℕ → ℕ
sizes t = if t == 0 then 1 else 2

record Run : Type 0 where
  last : System
  reach : Reach sizes last

attempt :
    (r : Run) (i : ℕ) (a : Action) (o : Option (Shared × Pc))
    → step sizes i a r.last.shared (r.last.threads i) ≡ o
    → Run
attempt r i a none h = r
attempt r i a (some e) h = record { last = apply i e r.last; reach = later r.reach (pick i a h) }

play : Run → List (ℕ × Action) → Run
unfolding attempt
play r [] = r
play r ((i, a) ∷ rest) =
    play (attempt r i a (step sizes i a r.last.shared (r.last.threads i)) refl) rest

abbrev contended : Run
contended =
    play (record { last = init; reach = initial })
      ((1, call_pair 64 128)
        ∷ (2, call_grow 5)
        ∷ (2, run)
        ∷ (1, run)
        ∷ (1, run)
        ∷ (1, run)
        ∷ (2, run)
        ∷ (1, run)
        ∷ (2, run)
        ∷ [])

inside_1 : contended.last.threads 1 ≡ inside_pair 64 128 0
unfolding play attempt step hash
inside_1 = refl

Reach-Guarded_example : Guarded sizes contended.last
Reach-Guarded_example = Reach-Guarded sizes (λ t. (ground arith, ground arith)) contended.reach
