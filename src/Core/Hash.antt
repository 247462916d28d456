-- ===== src/Core/Hash.antt =====
-- core/src/parking_lot.rs: the hash function and the sizes of the table, for a 64-bit target.
pub mod Laws
mod Tests
use parking_lot.Prelude.{
  ℕ, zero, suc, ◌+◌, ◌-◌, ◌*◌, ◌/◌, ◌%◌, ◌^◌, Option, none, some, ltb, leb, if◌then◌else◌,
}

abbrev pub usize_bits : ℕ
usize_bits = 64

abbrev pub load_factor : ℕ
load_factor = 3

-- key.wrapping_mul(0x9E3779B97F4A7C15) >> (64 - bits), where the shift counts modulo 64, as in a
-- release build; a debug build panics unless `bits` is one of 1 to 64.
unfoldable pub hash : ℕ → ℕ → ℕ
hash key bits =
    key * 0x9E3779B97F4A7C15 % 2 ^ usize_bits / 2 ^ ((usize_bits - bits % usize_bits) % usize_bits)

-- `usize::leading_zeros` with `w` bits: the number of leading binary zeros.
pub leading_zeros : ℕ → ℕ → ℕ
leading_zeros zero n = 0
leading_zeros (suc w) n = if leb (2 ^ w) n then 0 else suc (leading_zeros w n)

-- `usize::next_power_of_two`: the least power of two from `2 ^ k` on that is at least `n`. An
-- overflow is `none`.
power_from : ℕ → ℕ → ℕ → Option ℕ
power_from zero k n = none
power_from (suc f) k n =
    let rest = power_from f (suc k) n in if leb n (2 ^ k) then some (2 ^ k) else rest

pub next_power_of_two : ℕ → Option ℕ
next_power_of_two n = power_from usize_bits 0 n

-- The number of entries and `hash_bits` of a table for so many threads.
pub record Sizes : Type 0 where
  pub entries : ℕ
  pub hash_bits : ℕ

pub new_sizes : ℕ → Option Sizes
new_sizes num_threads = elim (next_power_of_two (num_threads * load_factor)) [
  | none ↦ none
  | some new_size ↦ some (record {
    entries = new_size;
    hash_bits = leading_zeros usize_bits 0 - leading_zeros usize_bits new_size - 1;
  })
]
