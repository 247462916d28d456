-- ===== src/Core/Locking/System/Classify.antt =====
-- Every step of a thread is of one of the kinds.
use parking_lot.Prelude.{ℕ, suc, ◌*◌, ◌≡◌, refl, inl, inr, some, arith, ◌==◌, ltb, leb, Bool-cases}
use parking_lot.Core.Hash.{load_factor}
use parking_lot.Core.Locking.{
  reading_key, comparing_own, Pc, idle, reading, locking, checking, inside, reading_own,
  locking_own, checking_own, inside_own, reading_pair, locking_pair, checking_pair, locking_second,
  inside_pair, leaving_pair, growing, sweeping, backing, moving, finishing, Action, call_lock,
  call_own, call_pair, call_grow, store_key, requeue, run, Shared, len, index, lower, higher, step,
}
use parking_lot.Core.Locking.System.{Valid, local, locks, unlocks, publishes, stores, Outcome}

module _ (bits : ℕ → ℕ) (me : ℕ) (m : Shared) (e : Shared × Pc) where
  idle-Outcome : (a : Action) → step bits me a m idle ≡ some e → Outcome bits me idle m e
  unfolding step
  idle-Outcome (call_lock key) h = (local, reading key, ground arith, (λ u c. refl), tt)
  idle-Outcome call_own h = (local, reading_own, ground arith, (λ u c. refl), tt)
  idle-Outcome (call_pair key1 key2) h =
      (local, reading_pair key1 key2, ground arith, (λ u c. refl), tt)
  idle-Outcome (call_grow n) h = (local, growing n, ground arith, (λ u c. refl), tt)
  idle-Outcome store_key h = absurd (cc)
  idle-Outcome (requeue x) h = absurd (cc)
  idle-Outcome run h = absurd (cc)

  inside-Outcome :
      (key t : ℕ) (a : Action)
      → Valid bits (inside key t) m.table (m.keys me)
      → step bits me a m (inside key t) ≡ some e
      → Outcome bits me (inside key t) m e
  unfolding step
  inside-Outcome key t store_key v h =
      (stores me key, inside key t, ground arith, ((λ u c. refl), inl refl), v)
  inside-Outcome key t run v h =
      (unlocks t (index bits key t), idle, ground arith, (ground arith, λ u c. ground arith), tt)
  inside-Outcome key t (call_lock k) v h = absurd (cc)
  inside-Outcome key t call_own v h = absurd (cc)
  inside-Outcome key t (call_pair k l) v h = absurd (cc)
  inside-Outcome key t (call_grow n) v h = absurd (cc)
  inside-Outcome key t (requeue x) v h = absurd (cc)

  pair-Outcome :
      (key1 key2 t : ℕ) (a : Action)
      → Valid bits (inside_pair key1 key2 t) m.table (m.keys me)
      → step bits me a m (inside_pair key1 key2 t) ≡ some e
      → Outcome bits me (inside_pair key1 key2 t) m e
  unfolding step
  pair-Outcome key1 key2 t (requeue x) v h =
      let same : m.keys x ≡ key1 = ground arith in
      (
        stores x key2,
        inside_pair key1 key2 t,
        ground arith,
        ((λ u c. refl), inr (rw (same, v) (ground arith))),
        v,
      )
  pair-Outcome key1 key2 t run v h = (
    unlocks t (index bits key1 t),
    leaving_pair key1 key2 t,
    ground arith,
    (ground arith, λ u c. ground arith),
    tt,
  )
  pair-Outcome key1 key2 t (call_lock k) v h = absurd (cc)
  pair-Outcome key1 key2 t call_own v h = absurd (cc)
  pair-Outcome key1 key2 t (call_pair k l) v h = absurd (cc)
  pair-Outcome key1 key2 t (call_grow n) v h = absurd (cc)
  pair-Outcome key1 key2 t store_key v h = absurd (cc)

  pub step-Outcome :
      (p : Pc) (a : Action)
      → Valid bits p m.table (m.keys me)
      → step bits me a m p ≡ some e
      → Outcome bits me p m e
  unfolding step
  step-Outcome idle a v h = idle-Outcome a h
  step-Outcome (reading key) a v h = (local, locking key m.table, ground arith, (λ u c. refl), tt)
  step-Outcome (locking key t) a v h = (
    locks t (index bits key t),
    checking key t,
    ground arith,
    (ground arith, λ u c. ground arith),
    tt,
  )
  step-Outcome (checking key t) a v h = elim (Bool-cases (m.table == t)) [
    | inl g ↦ (local, inside key t, ground arith, (λ u c. refl), ground arith)
    | inr g ↦ (
      unlocks t (index bits key t),
      reading key,
      ground arith,
      (ground arith, λ u c. ground arith),
      tt,
    )
  ]
  step-Outcome (inside key t) a v h = inside-Outcome key t a v h
  step-Outcome reading_own a v h = (local, reading_key m.table, ground arith, (λ u c. refl), tt)
  step-Outcome (reading_key t) a v h =
      (local, locking_own (m.keys me) t, ground arith, (λ u c. refl), tt)
  step-Outcome (locking_own key t) a v h = (
    locks t (index bits key t),
    checking_own key t,
    ground arith,
    (ground arith, λ u c. ground arith),
    tt,
  )
  step-Outcome (checking_own key t) a v h = elim (Bool-cases (m.table == t)) [
    | inl g ↦ (local, comparing_own key t, ground arith, (λ u c. refl), ground arith)
    | inr g ↦ (
      unlocks t (index bits key t),
      reading_own,
      ground arith,
      (ground arith, λ u c. ground arith),
      tt,
    )
  ]
  step-Outcome (comparing_own key t) a v h = elim (Bool-cases (m.keys me == key)) [
    | inl g ↦ (local, inside_own key t, ground arith, (λ u c. refl), (v, ground arith))
    | inr g ↦ (
      unlocks t (index bits key t),
      reading_own,
      ground arith,
      (ground arith, λ u c. ground arith),
      tt,
    )
  ]
  step-Outcome (inside_own key t) a v h =
      (unlocks t (index bits key t), idle, ground arith, (ground arith, λ u c. ground arith), tt)
  step-Outcome (reading_pair key1 key2) a v h =
      (local, locking_pair key1 key2 m.table, ground arith, (λ u c. refl), tt)
  step-Outcome (locking_pair key1 key2 t) a v h = (
    locks t (lower bits key1 key2 t),
    checking_pair key1 key2 t,
    ground arith,
    (ground arith, λ u c. ground arith),
    tt,
  )
  step-Outcome (checking_pair key1 key2 t) a v h = elim (Bool-cases (m.table == t)) [
    | inr g ↦ (
      unlocks t (lower bits key1 key2 t),
      reading_pair key1 key2,
      ground arith,
      (ground arith, λ u c. ground arith),
      tt,
    )
    | inl g ↦ elim (Bool-cases (index bits key1 t == index bits key2 t)) [
      | inl same ↦
          (local, inside_pair key1 key2 t, ground arith, (λ u c. ground arith), ground arith)
      | inr differ ↦ (local, locking_second key1 key2 t, ground arith, (λ u c. refl), ground arith)
    ]
  ]
  step-Outcome (locking_second key1 key2 t) a v h = (
    locks t (higher bits key1 key2 t),
    inside_pair key1 key2 t,
    ground arith,
    (ground arith, λ u c. ground arith),
    v.0,
  )
  step-Outcome (inside_pair key1 key2 t) a v h = pair-Outcome key1 key2 t a v h
  step-Outcome (leaving_pair key1 key2 t) a v h =
      elim (Bool-cases (index bits key1 t == index bits key2 t)) [
        | inl g ↦ (local, idle, ground arith, (λ u c. ground arith), tt)
        | inr g ↦ (
          unlocks t (index bits key2 t),
          idle,
          ground arith,
          (ground arith, λ u c. ground arith),
          tt,
        )
      ]
  step-Outcome (growing n) a v h = elim (Bool-cases (leb (load_factor * n) (len bits m.table))) [
    | inl g ↦ (local, idle, ground arith, (λ u c. refl), tt)
    | inr g ↦ (local, sweeping n m.table 0, ground arith, (λ u c. ground arith), omega arith)
  ]
  step-Outcome (sweeping n t i) a v h = elim (Bool-cases (ltb i (len bits t))) [
    | inl g ↦ (
      locks t i,
      sweeping n t (suc i),
      ground arith,
      (ground arith, λ u c. ground arith),
      ground arith,
    )
    | inr g ↦ elim (Bool-cases (m.table == t)) [
      | inl current ↦ (local, moving t, ground arith, (λ u c. ground arith), ground arith)
      | inr old ↦ (local, backing n t 0, ground arith, (λ u c. ground arith), tt)
    ]
  ]
  step-Outcome (backing n t i) a v h = elim (Bool-cases (ltb i (len bits t))) [
    | inl g ↦
        (unlocks t i, backing n t (suc i), ground arith, (ground arith, λ u c. ground arith), tt)
    | inr g ↦ (local, growing n, ground arith, (λ u c. ground arith), tt)
  ]
  step-Outcome (moving t) a v h =
      (publishes, finishing t 0, ground arith, ((λ u c. ground arith), λ b lt. ground arith), tt)
  step-Outcome (finishing t i) a v h = elim (Bool-cases (ltb i (len bits t))) [
    | inl g ↦
        (unlocks t i, finishing t (suc i), ground arith, (ground arith, λ u c. ground arith), tt)
    | inr g ↦ (local, idle, ground arith, (λ u c. ground arith), tt)
  ]
