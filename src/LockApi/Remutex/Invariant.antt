-- ===== src/LockApi/Remutex/Invariant.antt =====
-- What holds of a reentrant mutex in every state.
use parking_lot.Prelude.{
  ℕ, ◌≡◌, refl, inl, inr, Bool, true, false, not, ◌==◌, ==_refl, sym, arith, Bool-cases, update,
}
use parking_lot.Sync.RawMutex
use parking_lot.Sync.RawMutex.System.{System, apply}
use parking_lot.Sync.RawMutex.System
use parking_lot.Sync.RawMutex.System.Safety.{mutual_exclusion}
use parking_lot.LockApi.Remutex.{
  Pc, out, panicked, entering, nesting, locking, counting, unlocking, clearing, leaving, forgetting,
  zeroing, yielding, bumping, restoring, recounting, Thread, State,
}

-- The thread has the inner mutex.
abbrev pub holding : Pc → (depth : ℕ) → Bool
holding out depth = not (depth == 0)
holding (entering how) depth = not (depth == 0)
holding locking depth = false
holding leaving depth = false
holding (bumping saved) depth = false
holding _ depth = true

-- The thread is in no call of the inner mutex, and does not have it.
abbrev pub resting : Pc → (depth : ℕ) → Bool
resting out depth = depth == 0
resting (entering how) depth = depth == 0
resting _ depth = false

-- The owner that is stored is the thread.
abbrev pub marks : Pc → (depth : ℕ) → Bool
marks out depth = not (depth == 0)
marks (entering how) depth = not (depth == 0)
marks nesting depth = true
marks counting depth = true
marks (unlocking fair) depth = true
marks (clearing fair) depth = true
marks forgetting depth = true
marks recounting depth = true
marks panicked depth = true
marks _ depth = false

-- What the count is, if the thread is the one that is counted.
abbrev pub counted : Pc → (depth : ℕ) → ℕ
counted out depth = depth
counted (entering how) depth = depth
counted nesting depth = depth
counted (unlocking fair) depth = depth
counted forgetting depth = depth
counted (zeroing saved) depth = depth
counted panicked depth = depth
counted _ depth = 0

-- The depths at which a thread can stand there.
abbrev pub fitting : Pc → (depth : ℕ) → Bool
fitting out depth = true
fitting (entering how) depth = true
fitting nesting depth = not (depth == 0)
fitting (unlocking fair) depth = not (depth == 0)
fitting panicked depth = not (depth == 0)
fitting forgetting depth = depth == 1
fitting (zeroing saved) depth = depth == 1
fitting (yielding saved) depth = depth == 1
fitting (bumping saved) depth = depth == 1
fitting (restoring saved) depth = depth == 1
fitting recounting depth = depth == 1
fitting _ depth = depth == 0

abbrev pub keeps_id : ℕ → Pc → Bool
keeps_id n (zeroing saved) = saved == n
keeps_id n (yielding saved) = saved == n
keeps_id n (bumping saved) = saved == n
keeps_id n (restoring saved) = saved == n
keeps_id n _ = true

-- What holds of one thread.
pub record Local (n : ℕ) (t : Thread) (p : RawMutex.Pc) : Type 0 where
  pub held : holding t.pc t.depth ≡ true → p ≡ RawMutex.held
  pub rests : resting t.pc t.depth ≡ true → p ≡ RawMutex.idle
  pub fits : fitting t.pc t.depth ≡ true
  pub saved : keeps_id n t.pc ≡ true

pub record Inv (id : ℕ → ℕ) (s : State) : Type 0 where
  pub reach : RawMutex.System.Reach s.inner
  pub each : (i : ℕ) → Local (id i) (s.threads i) (s.inner.threads i).pc
  pub owner : (i : ℕ) → (s.owner == id i) ≡ marks (s.threads i).pc (s.threads i).depth
  pub count :
      (i : ℕ)
      → (counted (s.threads i).pc (s.threads i).depth == 0) ≡ false
      → s.lock_count ≡ counted (s.threads i).pc (s.threads i).depth
  pub someone :
      (s.lock_count == 0) ≡ false
      → (i : ℕ) × ((counted (s.threads i).pc (s.threads i).depth == 0) ≡ false)

pub marks-holding : (p : Pc) (n : ℕ) → marks p n ≡ true → holding p n ≡ true
marks-holding p n h = ground arith

pub counted-holding : (p : Pc) (n : ℕ) → (counted p n == 0) ≡ false → holding p n ≡ true
counted-holding p n h = ground arith

module _ {id : ℕ → ℕ} {s : State} (inv : Inv id s) where
  abbrev holds : ℕ → Bool
  holds i = holding (s.threads i).pc (s.threads i).depth

  -- The inner mutex has one owner.
  pub holding_unique : (i j : ℕ) → holds i ≡ true → holds j ≡ true → i ≡ j
  holding_unique i j h k =
      (mutual_exclusion inv.reach).0 i j (rw ((inv.each i).held h) refl)
        (rw ((inv.each j).held k) refl)

  pub alone : (i j : ℕ) → holds i ≡ true → (i == j) ≡ false → holds j ≡ false
  alone i j h q = elim (Bool-cases (holds j)) [
    | inl k ↦ let e = holding_unique i j h k in absurd (ground arith)
    | inr k ↦ k
  ]

  pub unmarked : (j : ℕ) → holds j ≡ false → marks (s.threads j).pc (s.threads j).depth ≡ false
  unmarked j h = elim (Bool-cases (marks (s.threads j).pc (s.threads j).depth)) [
    | inl k ↦ absurd (ground (arith, marks-holding (s.threads j).pc (s.threads j).depth k))
    | inr k ↦ k
  ]

  uncounted : (j : ℕ) → holds j ≡ false → (counted (s.threads j).pc (s.threads j).depth == 0) ≡ true
  uncounted j h = elim (Bool-cases (counted (s.threads j).pc (s.threads j).depth == 0)) [
    | inl k ↦ k
    | inr k ↦ absurd (ground (arith, counted-holding (s.threads j).pc (s.threads j).depth k))
  ]

  -- A step after which the owner, the count and what is said of the thread are as before.
  pub Inv-moves :
      (i : ℕ) (t : Thread) (inner : System)
      → RawMutex.System.Reach inner
      → ((j : ℕ) → (i == j) ≡ false → (inner.threads j).pc ≡ (s.inner.threads j).pc)
      → Local (id i) t (inner.threads i).pc
      → marks t.pc t.depth ≡ marks (s.threads i).pc (s.threads i).depth
      → counted t.pc t.depth ≡ counted (s.threads i).pc (s.threads i).depth
      → Inv id (record s { inner = inner; threads = update s.threads i t })
  Inv-moves i t inner r f l a b = record {
    reach = r;
    each = λ j. elim (Bool-cases (i == j)) [
      | inl q ↦ let e : j ≡ i = ground arith in rw (q, e) l
      | inr q ↦ rw (q, f j q) (inv.each j)
    ];
    owner = λ j. elim (Bool-cases (i == j)) [
      | inl q ↦ let e : j ≡ i = ground arith in rw (q, e, a) (inv.owner i)
      | inr q ↦ rw q (inv.owner j)
    ];
    count = λ j. elim (Bool-cases (i == j)) [
      | inl q ↦ rw (q, b) (inv.count i)
      | inr q ↦ rw q (inv.count j)
    ];
    someone = λ h.
        let (j, k) = inv.someone h in
        elim (Bool-cases (i == j)) [
          | inl q ↦ let e : j ≡ i = ground arith in (i, rw (==_refl i, b) (rw e at k))
          | inr q ↦ (j, rw q k)
        ];
  }

  -- A step of the thread that has the inner mutex.
  pub Inv-writes :
      (i : ℕ) (t : Thread) (owner' count' : ℕ)
      → holds i ≡ true
      → Local (id i) t (s.inner.threads i).pc
      → (owner' == id i) ≡ marks t.pc t.depth
      → ((j : ℕ) → (i == j) ≡ false → (owner' == id j) ≡ false)
      → ((counted t.pc t.depth == 0) ≡ false → count' ≡ counted t.pc t.depth)
      → ((count' == 0) ≡ false → (counted t.pc t.depth == 0) ≡ false)
      → Inv id (record s { owner = owner'; lock_count = count'; threads = update s.threads i t })
  Inv-writes i t owner' count' h l a b c d = record {
    reach = inv.reach;
    each = λ j. elim (Bool-cases (i == j)) [
      | inl q ↦ let e : j ≡ i = ground arith in rw (q, e) l
      | inr q ↦ rw q (inv.each j)
    ];
    owner = λ j. elim (Bool-cases (i == j)) [
      | inl q ↦ let e : j ≡ i = ground arith in rw (q, e) a
      | inr q ↦ rw (q, b j q) (sym (unmarked j (alone i j h q)))
    ];
    count = λ j. elim (Bool-cases (i == j)) [
      | inl q ↦ rw q c
      | inr q ↦ rw q (λ k. absurd (ground (arith, uncounted j (alone i j h q))))
    ];
    someone = λ k. (i, rw (==_refl i) (d k));
  }
