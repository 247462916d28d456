-- ===== src/Core/FairTimeout/Tests.antt =====
-- A timer that has run out.
use parking_lot.Prelude.{arith}
use parking_lot.Core.FairTimeout.{FairTimeout, should_timeout}
use parking_lot.Core.FairTimeout.Laws.{Answers, should_timeout-Answers}

abbrev timer : FairTimeout
timer = record { timeout = 10; seed = 1 }

should_timeout-Answers_example :
    Answers 12 timer (should_timeout 12 timer).0 (should_timeout 12 timer).1
should_timeout-Answers_example = should_timeout-Answers 12 timer (omega arith, omega arith)
