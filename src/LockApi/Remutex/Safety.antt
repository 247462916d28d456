-- ===== src/LockApi/Remutex/Safety.antt =====
-- What holds of every reachable state of a reentrant mutex.
use parking_lot.Prelude.{ℕ, ◌≡◌, refl, Bool, true, false, ◌==◌, arith}
use parking_lot.Sync.RawMutex
use parking_lot.LockApi.Remutex.{
  Pc, out, nesting, counting, unlocking, zeroing, recounting, State, Reach, initial, later,
}
use parking_lot.LockApi.Remutex.Invariant.{holding, Inv, holding_unique}
use parking_lot.LockApi.Remutex.Steps.{init-Inv}
use parking_lot.LockApi.Remutex.Calls.{empty}
use parking_lot.LockApi.Remutex.Preserve.{step-Inv}

-- The thread changes the lock count next.
abbrev pub touches : Pc → Bool
touches nesting = true
touches counting = true
touches (unlocking fair) = true
touches (zeroing saved) = true
touches recounting = true
touches _ = false

touches-holding : (p : Pc) (n : ℕ) → touches p ≡ true → holding p n ≡ true
touches-holding p n h = ground arith

module _ (id : ℕ → ℕ) (pos : (i : ℕ) → (id i == 0) ≡ false)
    (apart : (i j : ℕ) → (i == j) ≡ false → (id i == id j) ≡ false) where
  pub Reach-Inv : {s : State} → Reach id s → Inv id s
  Reach-Inv initial = init-Inv id pos
  Reach-Inv (later {s} {t} i a r h) =
      step-Inv id pos apart (Reach-Inv r) i t a (s.threads i).pc refl h

  -- In every reachable state of a reentrant mutex, where each active thread has an identifier of its
  -- own that is not 0: of all threads that are outside of its calls at most one has it; that thread
  -- has the inner mutex, is the stored owner, and is counted as often as it has locked the mutex
  -- without unlocking it.
  pub nested_owner :
      {s : State}
      → Reach id s
      → (i : ℕ) → (s.threads i).pc ≡ out
      → ((s.threads i).depth == 0) ≡ false
      → ((s.inner.threads i).pc ≡ RawMutex.held)
        × (s.owner ≡ id i)
        × (s.lock_count ≡ (s.threads i).depth)
        × ((j : ℕ) → (s.threads j).pc ≡ out → ((s.threads j).depth == 0) ≡ false → i ≡ j)
  nested_owner {s} r i q n =
      let inv = Reach-Inv r in
      let h : holding (s.threads i).pc (s.threads i).depth ≡ true = rw q (ground arith) in
      (
        (inv.each i).held h,
        ground (arith, rw q at (inv.owner i)),
        (rw q at (inv.count i)) n,
        λ j k m. holding_unique inv i j h (rw k (ground arith)),
      )

  -- In every reachable state of a reentrant mutex, where each active thread has an identifier of its
  -- own that is not 0: at most one thread is about to change the lock count, which is no atomic
  -- variable; and where `lock_internal` has locked the inner mutex and stored the owner, the count is
  -- 0, as its debug assertion says.
  pub count_unshared :
      {s : State}
      → Reach id s
      → ((i j : ℕ) → touches (s.threads i).pc ≡ true → touches (s.threads j).pc ≡ true → i ≡ j)
        × ((i : ℕ) → (s.threads i).pc ≡ counting → s.lock_count ≡ 0)
  count_unshared {s} r =
      let inv = Reach-Inv r in
      (
        λ i j h k.
            holding_unique inv i j (touches-holding (s.threads i).pc (s.threads i).depth h)
              (touches-holding (s.threads j).pc (s.threads j).depth k),
        λ i q. ground (arith, empty id pos apart inv i counting q refl refl),
      )
