-- ===== src/Core/FairTimeout.antt =====
-- core/src/parking_lot.rs, `FairTimeout`: when an unlock has to be fair.
-- Instants are nanoseconds, and the clock's reading is an argument; `<<` on `u32` drops high bits.
pub mod Laws
mod Tests
use parking_lot.Prelude.{ℕ, ◌+◌, ◌*◌, ◌/◌, ◌%◌, ◌^◌, Bool, true, false, ltb, if◌then◌else◌, bit_xor}

pub record FairTimeout : Type 0 where
  pub timeout : ℕ
  pub seed : ℕ

abbrev pub u32_mod : ℕ
u32_mod = 2 ^ 32

-- `a ^= a << 13`, `a ^= a >> 17` and `a ^= a << 5`
pub shift_left_xor : ℕ → ℕ → ℕ
shift_left_xor k a = bit_xor a (a * 2 ^ k % u32_mod)

pub shift_right_xor : ℕ → ℕ → ℕ
shift_right_xor k a = bit_xor a (a / 2 ^ k)

pub gen_u32 : ℕ → ℕ
gen_u32 seed = shift_left_xor 5 (shift_right_xor 17 (shift_left_xor 13 seed))

-- Whether an unlock now is to be fair, and the new state.
unfoldable pub should_timeout : (now : ℕ) → FairTimeout → Bool × FairTimeout
should_timeout now t =
    if ltb t.timeout now
    then (true, record { timeout = now + gen_u32 t.seed % 1_000_000; seed = gen_u32 t.seed })
    else (false, t)
