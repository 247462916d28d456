-- ===== src/Core/SpinWait/Tests.antt =====
-- A counter that has been reset.
use parking_lot.Prelude.{◌≡◌, ◌-◌, arith}
use parking_lot.Core.SpinWait
use parking_lot.Core.SpinWait.{spins}
use parking_lot.Core.SpinWait.Laws.{spins-eq}

spins-eq_example : spins 12 SpinWait.new ≡ 10 - 0
spins-eq_example = spins-eq 12 SpinWait.new (omega arith) (omega arith)
