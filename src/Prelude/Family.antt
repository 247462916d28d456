-- ===== src/Prelude/Family.antt =====
-- Families of values, one for each thread or address, with one of them replaced.
use Prim.Native.Nat.{ℕ}
use parking_lot.Prelude.Tests.{◌==◌, if◌then◌else◌}

abbrev pub update {ℓ} : {A : Type ℓ} → (ℕ → A) → ℕ → A → ℕ → A
update f i a j = if i == j then a else f j
