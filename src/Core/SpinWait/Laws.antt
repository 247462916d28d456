-- ===== src/Core/SpinWait/Laws.antt =====
-- A lock's loop spins a bounded number of times before its thread parks.
use parking_lot.Prelude.{ℕ, zero, suc, ◌-◌, ◌≤◌, ◌<◌, ◌≡◌, inl, inr, leb, arith, Bool-cases}
use parking_lot.Core.SpinWait.{SpinWait, spin, spins}

-- From a counter of at most ten, `spin` answers `true` ten less the counter times and then `false`;
-- any fuel above that number of calls is enough.
pub spins-eq :
    (f : ℕ) (s : SpinWait) → s.counter ≤ 10 → 10 - s.counter < f → spins f s ≡ 10 - s.counter
unfolding spins spin
spins-eq zero s h k = absurd (omega arith)
spins-eq (suc f) s h k = elim (Bool-cases (leb 10 s.counter)) [
  | inl full ↦ ground arith
  | inr more ↦
      let e = spins-eq f (record { counter = suc s.counter }) (ground arith) (ground arith) in
      ground arith
]
