-- ===== src/Sync/RawRwLock/Usize.antt =====
-- src/raw_rwlock.rs: the `usize` behind a word, and the source's arithmetic and masks on it.
use parking_lot.Prelude.{
  ℕ, ◌+◌, ◌-◌, ◌*◌, ◌^◌, ◌<◌, ◌≤◌, ◌≡◌, ◌↔◌, Bool, true, false, Option, none, some, if◌then◌else◌,
  arith,
}
use parking_lot.Sync.RawRwLock.{
  Word, ParkToken, Want, shared, upgradable, exclusive, token_of, blocked, token_shared,
  token_upgradable, token_exclusive, fits, add_token, remove_token, max_readers,
}
use parking_lot.Sync.RawRwLock.System.Holds.{Hold, nothing, reads, upgrades, awaits, writes, Shows}

abbrev pub parked_bit : ℕ
parked_bit = 1

abbrev pub writer_parked_bit : ℕ
writer_parked_bit = 2

abbrev pub upgradable_bit : ℕ
upgradable_bit = 4

abbrev pub writer_bit : ℕ
writer_bit = 8

abbrev pub one_reader : ℕ
one_reader = 16

-- The value of a park token.
abbrev pub value : ParkToken → ℕ
value token_shared = one_reader
value token_upgradable = one_reader + upgradable_bit
value token_exclusive = writer_bit

abbrev pub bit_value : ℕ → Bool → ℕ
bit_value k b = if b then k else 0

-- The word as the source's `usize`.
abbrev pub encode : Word → ℕ
encode s =
    bit_value parked_bit s.parked
    + bit_value writer_parked_bit s.writer_parked
    + bit_value upgradable_bit s.upgradable
    + bit_value writer_bit s.writer
    + one_reader * s.readers

-- It fits into 64 bits exactly when the reader count is below 2⁶⁰.
pub fits_usize : (s : Word) → (encode s < 2 ^ 64) ↔ (s.readers < max_readers)
fits_usize s = (λ h. ground arith, λ h. ground arith)

-- The lock that a thread holds, as the token that it subtracts.
abbrev pub token_held : Hold → Option ParkToken
token_held nothing = none
token_held reads = some token_shared
token_held upgrades = some token_upgradable
token_held awaits = some token_exclusive
token_held writes = some token_exclusive

-- Where the word shows what a thread holds, the source's subtraction does not wrap around and
-- carries into no other field.
pub remove_exact :
    (s : Word) (h : Hold) (t : ParkToken)
    → token_held h ≡ some t
    → Shows s h
    → (value t ≤ encode s) × (encode (remove_token t s) ≡ encode s - value t)
remove_exact s nothing t k w = absurd (cc)
remove_exact s reads t k w = let q : t ≡ token_shared = cc in rw q (ground (arith, w.counted))
remove_exact s upgrades t k w =
    let q : t ≡ token_upgradable = cc in rw q (ground (arith, w.counted, w.upgrade))
remove_exact s awaits t k w = let q : t ≡ token_exclusive = cc in rw q (ground (arith, w.write))
remove_exact s writes t k w = let q : t ≡ token_exclusive = cc in rw q (ground (arith, w.write))

-- When the word does not block a lock of the kind that is wanted, and fits into 64 bits: the test
-- of the reader count says exactly that the source's `checked_add` of the token does not overflow
-- (for the exclusive token, that `state | WRITER_BIT` fits), and the fields change as the sum does,
-- so that no carry reaches another field.
pub add_exact :
    (w : Want) (s : Word)
    → blocked w s ≡ false
    → encode s < 2 ^ 64
    → ((fits (token_of w) s ≡ true) ↔ (encode s + value (token_of w) < 2 ^ 64))
      × (encode (add_token (token_of w) s) ≡ encode s + value (token_of w))
add_exact (shared recursive) s b h = ((λ f. ground arith, λ f. ground arith), ground arith)
add_exact upgradable s b h = ((λ f. ground arith, λ f. ground arith), ground arith)
add_exact exclusive s b h = ((λ f. ground arith, λ f. ground arith), ground arith)
