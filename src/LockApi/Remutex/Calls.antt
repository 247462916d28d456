-- ===== src/LockApi/Remutex/Calls.antt =====
-- The return of a call of the inner mutex, and its steps in between, keep the invariant.
use parking_lot.Prelude.{ℕ, ◌≡◌, refl, inl, inr, true, false, Option, some, ◌==◌, arith, Bool-cases}
use parking_lot.Sync.RawMutex
use parking_lot.LockApi.Remutex.{
  Pc, out, locking, claiming, leaving, bumping, restoring, Inner, advance, expire, unpark,
  action_of, State, with_inner, lock_step, leave_step, bump_step,
}
use parking_lot.LockApi.Remutex.Invariant.{
  holding, marks, counted, Local, Inv, holding_unique, counted-holding,
}
use parking_lot.LockApi.Remutex.Steps.{goes-Inv, joined-Inv}

-- Outside a call the inner mutex takes no step for a thread.
held_stays :
    (i : ℕ) (a : Inner) (m : RawMutex.Shared) (p : RawMutex.Pc) (mail : Option ℕ)
    (e : RawMutex.Effect)
    → p ≡ RawMutex.held
    → ¬ (RawMutex.step i (action_of a) m p mail ≡ some e)
unfolding RawMutex.step
held_stays i (advance lucky) m p mail e q h = absurd (cc)
held_stays i expire m p mail e q h = absurd (cc)
held_stays i (unpark be_fair) m p mail e q h = absurd (cc)

idle_stays :
    (i : ℕ) (a : Inner) (m : RawMutex.Shared) (p : RawMutex.Pc) (mail : Option ℕ)
    (e : RawMutex.Effect)
    → p ≡ RawMutex.idle
    → ¬ (RawMutex.step i (action_of a) m p mail ≡ some e)
unfolding RawMutex.step
idle_stays i (advance lucky) m p mail e q h = absurd (cc)
idle_stays i expire m p mail e q h = absurd (cc)
idle_stays i (unpark be_fair) m p mail e q h = absurd (cc)

module _ (id : ℕ → ℕ) (pos : (i : ℕ) → (id i == 0) ≡ false)
    (apart : (i j : ℕ) → (i == j) ≡ false → (id i == id j) ≡ false) where
  module _ {s : State} (inv : Inv id s) (i : ℕ) where
    abbrev pub d : ℕ
    d = (s.threads i).depth

    abbrev pub mutex : RawMutex.Pc
    mutex = (s.inner.threads i).pc

    pub fact : (p : Pc) → (s.threads i).pc ≡ p → Local (id i) (record { pc = p; depth = d }) mutex
    fact p q = rw (← q) (inv.each i)

    -- The count is 0 where the thread that has the inner mutex does not count.
    pub empty :
        (p : Pc)
        → (s.threads i).pc ≡ p
        → holding p d ≡ true
        → (counted p d == 0) ≡ true
        → (s.lock_count == 0) ≡ true
    empty p q h c = elim (Bool-cases (s.lock_count == 0)) [
      | inl z ↦ z
      | inr z ↦
          let (j, k) = inv.someone z in
          let e : i ≡ j =
            holding_unique inv i j (rw q h)
              (counted-holding (s.threads j).pc (s.threads j).depth k) in
          absurd (ground (arith, rw (← e, q) at k))
    ]

    pub count_of :
        (p : Pc) → (s.threads i).pc ≡ p → (counted p d == 0) ≡ false → s.lock_count ≡ counted p d
    count_of p q = rw q at (inv.count i)

    pub owner_of : (p : Pc) → (s.threads i).pc ≡ p → (s.owner == id i) ≡ marks p d
    owner_of p q = rw q at (inv.owner i)

    pub lock-Inv :
        (t : State) (p : RawMutex.Pc)
        → (s.threads i).pc ≡ locking
        → mutex ≡ p
        → lock_step i s p ≡ some t
        → Inv id t
    unfolding lock_step
    lock-Inv t RawMutex.held q m h =
        goes-Inv id pos apart inv i t locking claiming q h
          (record {
            held = λ _. m;
            rests = λ x. absurd (cc);
            fits = (fact locking q).fits;
            saved = refl;
          })
          (refl, refl)
    lock-Inv t RawMutex.idle q m h =
        let z = (fact locking q).fits in
        goes-Inv id pos apart inv i t locking out q h
          (record { held = λ x. absurd (ground arith); rests = λ _. m; fits = refl; saved = refl })
          (ground arith, ground arith)
    lock-Inv t _ q m h = absurd (cc)

    pub leave-Inv :
        (t : State) (p : RawMutex.Pc)
        → (s.threads i).pc ≡ leaving
        → mutex ≡ p
        → leave_step i s p ≡ some t
        → Inv id t
    unfolding leave_step
    leave-Inv t RawMutex.idle q m h =
        let z = (fact leaving q).fits in
        goes-Inv id pos apart inv i t leaving out q h
          (record { held = λ x. absurd (ground arith); rests = λ _. m; fits = refl; saved = refl })
          (ground arith, ground arith)
    leave-Inv t _ q m h = absurd (cc)

    pub bump-Inv :
        (t : State) (saved : ℕ) (p : RawMutex.Pc)
        → (s.threads i).pc ≡ bumping saved
        → mutex ≡ p
        → bump_step i saved s p ≡ some t
        → Inv id t
    unfolding bump_step
    bump-Inv t saved RawMutex.held q m h =
        let l = fact (bumping saved) q in
        goes-Inv id pos apart inv i t (bumping saved) (restoring saved) q h
          (record { held = λ _. m; rests = λ x. absurd (cc); fits = l.fits; saved = l.saved })
          (refl, refl)
    bump-Inv t saved _ q m h = absurd (cc)

    -- A step of the inner mutex by itself: only within a call of it.
    pub inner-Inv :
        (t : State) (a : Inner) (p : Pc)
        → (s.threads i).pc ≡ p
        → with_inner i (action_of a) p s ≡ some t
        → Inv id t
    unfolding with_inner
    inner-Inv t a p q h =
        let l = fact p q in
        joined-Inv id pos apart inv i t (action_of a) p p _ q refl h
          (λ e n. record {
            held = λ y.
                absurd
                  (held_stays i a s.inner.shared mutex (s.inner.threads i).mail e (l.held y) n);
            rests = λ y.
                absurd
                  (idle_stays i a s.inner.shared mutex (s.inner.threads i).mail e (l.rests y) n);
            fits = l.fits;
            saved = l.saved;
          })
          (refl, refl)
