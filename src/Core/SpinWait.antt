-- ===== src/Core/SpinWait.antt =====
-- core/src/spinwait.rs: the counter behind exponential backoff.
pub mod Laws
mod Tests
use parking_lot.Prelude.{
  ℕ, zero, suc, ◌+◌, ◌^◌, Bool, true, false, List, [], ◌∷◌, ltb, leb, if◌then◌else◌,
}

-- What a call does to the processor: `cpu_relax(n)` or `thread_yield()`.
pub data Pause : Type 0 where
  relax : ℕ → Pause
  yields : Pause

pub record SpinWait : Type 0 where
  pub counter : ℕ

abbrev pub new : SpinWait
new = record { counter = 0 }

abbrev pub reset : SpinWait → SpinWait
reset s = new

-- `spin`: the new counter, the pause taken, and whether it spun.
unfoldable pub spin : SpinWait → SpinWait × List Pause × Bool
spin s =
    if leb 10 s.counter
    then (s, [], false)
    else let c = s.counter + 1 in
      (record { counter = c }, (if leb c 3 then relax (2 ^ c) else yields) ∷ [], true)

pub spin_no_yield : SpinWait → SpinWait × Pause
spin_no_yield s =
    let c = s.counter + 1 in
    let c' = if ltb 10 c then 10 else c in (record { counter = c' }, relax (2 ^ c'))

-- Calls `spin` until it answers `false`, on fuel, and counts the calls that spun.
pub spins : ℕ → SpinWait → ℕ
spins zero s = 0
spins (suc f) s = let r = spin s in let more = spins f r.0 in if r.2 then suc more else 0
