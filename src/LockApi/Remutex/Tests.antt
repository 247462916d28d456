-- ===== src/LockApi/Remutex/Tests.antt =====
-- A run of one thread that locks a reentrant mutex twice.
use parking_lot.Prelude.{
  ℕ, ◌+◌, ◌≡◌, refl, true, false, Option, none, some, List, [], ◌∷◌, ◌==◌, arith,
}
use parking_lot.Sync.RawMutex
use parking_lot.LockApi.Remutex.{
  by_lock, by_try, out, counting, advance, Action, call_lock, run, in_mutex, State, init, step,
  with_inner, lock_step, Reach, initial, later,
}
use parking_lot.LockApi.Remutex.Safety.{touches, nested_owner, count_unshared}

abbrev id : ℕ → ℕ
id i = i + 1

id_pos : (i : ℕ) → (id i == 0) ≡ false
id_pos i = ground arith

id_apart : (i j : ℕ) → (i == j) ≡ false → (id i == id j) ≡ false
id_apart i j h = ground arith

record Run : Type 0 where
  last : State
  reach : Reach id last

attempt :
    (r : Run) (i : ℕ) (a : Action) (o : Option State)
    → step id i a r.last (r.last.threads i).pc ≡ o
    → Run
attempt r i a none h = r
attempt r i a (some s) h = record { last = s; reach = later i a r.reach h }

play : Run → List (ℕ × Action) → Run
unfolding attempt
play r [] = r
play r ((i, a) ∷ rest) = play (attempt r i a (step id i a r.last (r.last.threads i).pc) refl) rest

abbrev nested : Run
nested =
    play (record { last = init; reach = initial })
      ((1, call_lock by_lock)
        ∷ (1, run)
        ∷ (1, in_mutex (advance true))
        ∷ (1, run)
        ∷ (1, run)
        ∷ (1, run)
        ∷ (1, call_lock by_try)
        ∷ (1, run)
        ∷ (1, run)
        ∷ [])

abbrev s2 : State
s2 = nested.last

out_1 : (s2.threads 1).pc ≡ out
unfolding play attempt step with_inner RawMutex.step lock_step
out_1 = refl

depth_1 : (s2.threads 1).depth ≡ 2
unfolding play attempt step with_inner RawMutex.step lock_step
depth_1 = refl

nested_owner_example :
    ((s2.inner.threads 1).pc ≡ RawMutex.held)
    × (s2.owner ≡ 2)
    × (s2.lock_count ≡ (s2.threads 1).depth)
    × ((j : ℕ) → (s2.threads j).pc ≡ out → ((s2.threads j).depth == 0) ≡ false → 1 ≡ j)
nested_owner_example = nested_owner id id_pos id_apart nested.reach 1 out_1 (rw depth_1 refl)

count_unshared_example :
    ((i j : ℕ) → touches (s2.threads i).pc ≡ true → touches (s2.threads j).pc ≡ true → i ≡ j)
    × ((i : ℕ) → (s2.threads i).pc ≡ counting → s2.lock_count ≡ 0)
count_unshared_example = count_unshared id id_pos id_apart nested.reach
