-- ===== src/LockApi/Remutex/Preserve.antt =====
-- Each step of a reentrant mutex keeps its invariant, by the place of the thread.
use parking_lot.Prelude.{
  ℕ, ◌+◌, ◌-◌, ◌^◌, ◌≡◌, refl, inl, inr, true, false, some, ◌==◌, ==_refl, ltb, arith, Bool-cases,
}
use parking_lot.Sync.RawMutex
use parking_lot.LockApi.Remutex.{
  call_of, Pc, out, panicked, entering, nesting, locking, claiming, counting, unlocking, clearing,
  releasing, leaving, forgetting, zeroing, yielding, bumping, restoring, recounting, Action,
  call_lock, call_unlock, call_bump, run, in_mutex, State, step,
}
use parking_lot.LockApi.Remutex.Invariant.{Inv}
use parking_lot.LockApi.Remutex.Steps.{goes-Inv, called-Inv, writes-Inv}
use parking_lot.LockApi.Remutex.Calls.{
  fact, empty, count_of, owner_of, lock-Inv, leave-Inv, bump-Inv, inner-Inv,
}

module _ (id : ℕ → ℕ) (pos : (i : ℕ) → (id i == 0) ≡ false)
    (apart : (i j : ℕ) → (i == j) ≡ false → (id i == id j) ≡ false) where
  module _ {s : State} (inv : Inv id s) (i : ℕ) where
    abbrev d : ℕ
    d = (s.threads i).depth

    abbrev mutex : RawMutex.Pc
    mutex = (s.inner.threads i).pc

    pub step-Inv :
        (t : State) (a : Action) (p : Pc)
        → (s.threads i).pc ≡ p
        → step id i a s p ≡ some t
        → Inv id t
    unfolding step
    step-Inv t (call_lock how) out q h =
        let l = fact id pos apart inv i out q in
        goes-Inv id pos apart inv i t out (entering how) q h
          (record { held = l.held; rests = l.rests; fits = refl; saved = refl }) (refl, refl)
    step-Inv t (call_unlock fair) out q h = elim (Bool-cases (d == 0)) [
      | inl z ↦ absurd (ground arith)
      | inr z ↦
          let l = fact id pos apart inv i out q in
          goes-Inv id pos apart inv i t out (unlocking fair) q (ground arith)
            (record {
              held = λ _. l.held (ground arith);
              rests = λ x. absurd (cc);
              fits = ground arith;
              saved = refl;
            })
            (ground arith, refl)
    ]
    step-Inv t call_bump out q h = elim (Bool-cases (d == 0)) [
      | inl z ↦ absurd (ground arith)
      | inr z ↦ elim (Bool-cases (s.lock_count == 1)) [
        | inl o ↦
            let l = fact id pos apart inv i out q in
            goes-Inv id pos apart inv i t out forgetting q (ground arith)
              (record {
                held = λ _. l.held (ground arith);
                rests = λ x. absurd (cc);
                fits = ground (arith, count_of id pos apart inv i out q);
                saved = refl;
              })
              (ground arith, refl)
        | inr o ↦
            goes-Inv id pos apart inv i t out out q (ground arith) (fact id pos apart inv i out q)
              (refl, refl)
      ]
    ]
    step-Inv t run (entering how) q h = elim (Bool-cases (s.owner == id i)) [
      | inl o ↦
          let l = fact id pos apart inv i (entering how) q in
          let n : (d == 0) ≡ false = ground (arith, owner_of id pos apart inv i (entering how) q) in
          goes-Inv id pos apart inv i t (entering how) nesting q (ground arith)
            (record {
              held = λ _. l.held (ground arith);
              rests = λ x. absurd (cc);
              fits = ground arith;
              saved = refl;
            })
            (ground arith, refl)
      | inr o ↦
          let n : (d == 0) ≡ true = ground (arith, owner_of id pos apart inv i (entering how) q) in
          called-Inv id pos apart inv i t (call_of how) (entering how) locking q (ground arith)
            (refl, refl) (n, refl) (ground arith, ground arith)
    ]
    step-Inv t run locking q h = lock-Inv id pos apart inv i t mutex q refl h
    step-Inv t run leaving q h = leave-Inv id pos apart inv i t mutex q refl h
    step-Inv t run (bumping saved) q h = bump-Inv id pos apart inv i t saved mutex q refl h
    step-Inv t (in_mutex a) p q h = inner-Inv id pos apart inv i t a p q h
    step-Inv t run nesting q h = elim (Bool-cases (ltb (s.lock_count + 1) (2 ^ 64))) [
      | inl z ↦
          let l = fact id pos apart inv i nesting q in
          let c = count_of id pos apart inv i nesting q in
          writes-Inv id pos apart inv i t nesting s.owner (s.lock_count + 1)
            (record { pc = out; depth = d + 1 }) q (ground arith) refl
            (record {
              held = λ _. l.held refl;
              rests = λ x. absurd (ground arith);
              fits = refl;
              saved = refl;
            })
            (ground (arith, owner_of id pos apart inv i nesting q)) (inl refl)
            (λ x. ground (arith, c, l.fits)) (λ x. ground arith)
      | inr z ↦
          let l = fact id pos apart inv i nesting q in
          goes-Inv id pos apart inv i t nesting panicked q (ground arith)
            (record { held = l.held; rests = l.rests; fits = l.fits; saved = refl }) (refl, refl)
    ]
    step-Inv t run claiming q h =
        let l = fact id pos apart inv i claiming q in
        writes-Inv id pos apart inv i t claiming (id i) s.lock_count
          (record { pc = counting; depth = d }) q (ground arith) refl
          (record { held = l.held; rests = l.rests; fits = l.fits; saved = refl }) (==_refl (id i))
          (inr (inr refl)) (λ x. absurd (cc))
          (λ x. absurd (ground (arith, empty id pos apart inv i claiming q refl refl)))
    step-Inv t run counting q h =
        let l = fact id pos apart inv i counting q in
        writes-Inv id pos apart inv i t counting s.owner 1 (record { pc = out; depth = 1 }) q
          (ground arith) refl
          (record {
            held = λ _. l.held refl;
            rests = λ x. absurd (ground arith);
            fits = refl;
            saved = refl;
          })
          (rw (owner_of id pos apart inv i counting q) refl) (inl refl) (λ x. refl) (λ x. refl)
    step-Inv t run (unlocking fair) q h = elim (Bool-cases (s.lock_count - 1 == 0)) [
      | inl z ↦
          let l = fact id pos apart inv i (unlocking fair) q in
          let c = count_of id pos apart inv i (unlocking fair) q in
          writes-Inv id pos apart inv i t (unlocking fair) s.owner (s.lock_count - 1)
            (record { pc = clearing fair; depth = d - 1 }) q (ground arith) refl
            (record {
              held = λ _. l.held refl;
              rests = λ x. absurd (cc);
              fits = ground (arith, c, l.fits);
              saved = refl;
            })
            (owner_of id pos apart inv i (unlocking fair) q) (inl refl) (λ x. absurd (cc))
            (λ x. absurd (cc))
      | inr z ↦
          let l = fact id pos apart inv i (unlocking fair) q in
          let c = count_of id pos apart inv i (unlocking fair) q in
          writes-Inv id pos apart inv i t (unlocking fair) s.owner (s.lock_count - 1)
            (record { pc = out; depth = d - 1 }) q (ground arith) refl
            (record {
              held = λ _. l.held refl;
              rests = λ x. absurd (ground (arith, c, l.fits));
              fits = refl;
              saved = refl;
            })
            (ground (arith, owner_of id pos apart inv i (unlocking fair) q, c, l.fits)) (inl refl)
            (λ x. ground (arith, c, l.fits)) (λ x. ground (arith, c, l.fits))
    ]
    step-Inv t run (clearing fair) q h =
        let l = fact id pos apart inv i (clearing fair) q in
        writes-Inv id pos apart inv i t (clearing fair) 0 s.lock_count
          (record { pc = releasing fair; depth = d }) q (ground arith) refl
          (record {
            held = λ _. l.held refl;
            rests = λ x. absurd (cc);
            fits = l.fits;
            saved = refl;
          })
          (ground (arith, pos i)) (inr (inl refl)) (λ x. absurd (cc))
          (λ x. absurd (ground (arith, empty id pos apart inv i (clearing fair) q refl refl)))
    step-Inv t run (releasing fair) q h =
        called-Inv id pos apart inv i t (RawMutex.call_unlock fair) (releasing fair) leaving q
          (ground arith) (refl, refl) ((fact id pos apart inv i (releasing fair) q).fits, refl)
          (refl, refl)
    step-Inv t run forgetting q h =
        let l = fact id pos apart inv i forgetting q in
        writes-Inv id pos apart inv i t forgetting 0 s.lock_count
          (record { pc = zeroing s.owner; depth = d }) q (ground arith) refl
          (record {
            held = λ _. l.held refl;
            rests = λ x. absurd (cc);
            fits = l.fits;
            saved = owner_of id pos apart inv i forgetting q;
          })
          (ground (arith, pos i)) (inr (inl refl)) (λ x. count_of id pos apart inv i forgetting q x)
          (λ x. ground (arith, l.fits))
    step-Inv t run (zeroing saved) q h =
        let l = fact id pos apart inv i (zeroing saved) q in
        writes-Inv id pos apart inv i t (zeroing saved) s.owner 0
          (record { pc = yielding saved; depth = d }) q (ground arith) refl
          (record {
            held = λ _. l.held refl;
            rests = λ x. absurd (cc);
            fits = l.fits;
            saved = l.saved;
          })
          (owner_of id pos apart inv i (zeroing saved) q) (inl refl) (λ x. absurd (cc))
          (λ x. absurd (cc))
    step-Inv t run (yielding saved) q h =
        let l = fact id pos apart inv i (yielding saved) q in
        called-Inv id pos apart inv i t RawMutex.call_bump (yielding saved) (bumping saved) q
          (ground arith) (refl, refl) (l.fits, l.saved) (refl, refl)
    step-Inv t run (restoring saved) q h =
        let l = fact id pos apart inv i (restoring saved) q in
        writes-Inv id pos apart inv i t (restoring saved) saved s.lock_count
          (record { pc = recounting; depth = d }) q (ground arith) refl
          (record {
            held = λ _. l.held refl;
            rests = λ x. absurd (cc);
            fits = l.fits;
            saved = refl;
          })
          (l.saved) (inr (inr (ground (arith, l.saved)))) (λ x. absurd (cc))
          (λ x. absurd (ground (arith, empty id pos apart inv i (restoring saved) q refl refl)))
    step-Inv t run recounting q h =
        let l = fact id pos apart inv i recounting q in
        writes-Inv id pos apart inv i t recounting s.owner 1 (record { pc = out; depth = d }) q
          (ground arith) refl
          (record {
            held = λ _. l.held refl;
            rests = λ x. absurd (ground (arith, l.fits));
            fits = refl;
            saved = refl;
          })
          (ground (arith, l.fits, owner_of id pos apart inv i recounting q)) (inl refl)
          (λ x. ground (arith, l.fits)) (λ x. ground (arith, l.fits))
    step-Inv t _ _ q h = absurd (cc)
