-- ===== src/Prelude/Bits.antt =====
-- Exclusive or at variables, from its digit recursion, and the binary digits of shifted numbers.
use Prim.Native.Nat.{
  ℕ, zero, suc, ◌+◌, ◌*◌, ◌/◌, ◌%◌, ◌^◌, ◌≤◌, ◌<◌, bit_xor, digits, differ, bit_xor-bitwise,
}
use mathlib.Core.Path.{◌≡◌, refl, sym, ap, ◌∙◌}
use native.Mathlib.Omega.{arith}
use native.Mathlib.Nat.{pow-suc, div-add-mod', div-div-eq-div-mul, mul_assoc, add-zero, add-suc}

abbrev xor_digits : ℕ → ℕ → ℕ → ℕ
xor_digits n a b = digits (λ c. c) differ n a b

differ-eq_of_zero : (x y : ℕ) → differ x y ≡ 0 → x ≡ y
differ-eq_of_zero zero y h = omega arith
differ-eq_of_zero (suc x) zero h = absurd (omega arith)
differ-eq_of_zero (suc x) (suc y) h = omega (arith, differ-eq_of_zero x y h)

xor_digits-eq_of_zero : (n a b : ℕ) → a ≤ n → xor_digits n a b ≡ 0 → a ≡ b
xor_digits-eq_of_zero zero zero b p h = omega arith
xor_digits-eq_of_zero zero (suc a) b p h = absurd (omega arith)
xor_digits-eq_of_zero (suc n) zero b p h = omega arith
xor_digits-eq_of_zero (suc n) (suc a) b p h = omega (
  arith,
  xor_digits-eq_of_zero n (suc a / 2) (b / 2) (omega arith) (omega arith),
  differ-eq_of_zero (suc a % 2) (b % 2) (omega arith),
)

pub eq_of_bit_xor : (a b : ℕ) → bit_xor a b ≡ 0 → a ≡ b
eq_of_bit_xor a b h = xor_digits-eq_of_zero a a b (omega arith) (omega (arith, bit_xor-bitwise a b))

differ-le : (x y : ℕ) → x ≤ 1 → y ≤ 1 → differ x y ≤ 1
differ-le zero y p q = q
differ-le (suc x) zero p q = p
differ-le (suc x) (suc y) p q = differ-le x y (omega arith) (omega arith)

xor_digits-lt : (k n a b : ℕ) → a < 2 ^ k → b < 2 ^ k → xor_digits n a b < 2 ^ k
xor_digits-lt k zero a b p q = q
xor_digits-lt k (suc n) zero b p q = q
xor_digits-lt zero (suc n) (suc a) b p q = absurd (omega arith)
xor_digits-lt (suc k) (suc n) (suc a) b p q = omega (
  arith,
  pow-suc 2 k,
  xor_digits-lt k n (suc a / 2) (b / 2) (omega (arith, pow-suc 2 k)) (omega (arith, pow-suc 2 k)),
  differ-le (suc a % 2) (b % 2) (omega arith) (omega arith),
)

-- It stays within the width of its operands.
pub bit_xor-lt : (k a b : ℕ) → a < 2 ^ k → b < 2 ^ k → bit_xor a b < 2 ^ k
bit_xor-lt k a b p q = omega (arith, bit_xor-bitwise a b, xor_digits-lt k a a b p q)

xor_digits_fuel : (n m a b : ℕ) → a ≤ n → a ≤ m → xor_digits n a b ≡ xor_digits m a b
xor_digits_fuel zero zero a b p q = refl
xor_digits_fuel zero (suc m) zero b p q = refl
xor_digits_fuel zero (suc m) (suc a) b p q = absurd (omega arith)
xor_digits_fuel (suc n) zero zero b p q = refl
xor_digits_fuel (suc n) zero (suc a) b p q = absurd (omega arith)
xor_digits_fuel (suc n) (suc m) zero b p q = refl
xor_digits_fuel (suc n) (suc m) (suc a) b p q =
    omega (arith, xor_digits_fuel n m (suc a / 2) (b / 2) (omega arith) (omega arith))

zero-bit_xor : (b : ℕ) → bit_xor 0 b ≡ b
zero-bit_xor b = bit_xor-bitwise 0 b

bit_xor_step : (a b : ℕ) → bit_xor a b ≡ bit_xor (a / 2) (b / 2) * 2 + differ (a % 2) (b % 2)
bit_xor_step zero b = omega (arith, zero-bit_xor b, zero-bit_xor (b / 2))
bit_xor_step (suc a) b = omega (
  arith,
  bit_xor-bitwise (suc a) b,
  bit_xor-bitwise (suc a / 2) (b / 2),
  xor_digits_fuel a (suc a / 2) (suc a / 2) (b / 2) (omega arith) (omega arith),
)

-- The binary digit `i` of a number, from the lowest, 0, on.
abbrev pub bit : ℕ → ℕ → ℕ
bit zero a = a % 2
bit (suc i) a = bit i (a / 2)

pub bit-bit_xor : (i a b : ℕ) → bit i (bit_xor a b) ≡ differ (bit i a) (bit i b)
bit-bit_xor zero a b =
    omega (arith, bit_xor_step a b, differ-le (a % 2) (b % 2) (omega arith) (omega arith))
bit-bit_xor (suc i) a b =
    let half : bit_xor a b / 2 ≡ bit_xor (a / 2) (b / 2) =
      omega (arith, bit_xor_step a b, differ-le (a % 2) (b % 2) (omega arith) (omega arith)) in
    rw half (bit-bit_xor i (a / 2) (b / 2))

twice : (q k : ℕ) → q * 2 ^ suc k ≡ q * 2 ^ k * 2
twice q k = rw (pow-suc 2 k) (sym (mul_assoc q (2 ^ k) 2))

-- What stands above a digit does not change it.
pub bit_below : (i w q r : ℕ) → i < w → bit i (q * 2 ^ w + r) ≡ bit i r
bit_below i zero q r h = absurd (omega arith)
bit_below zero (suc w) q r h = omega (arith, twice q w)
bit_below (suc i) (suc w) q r h =
    let half : (q * 2 ^ suc w + r) / 2 ≡ q * 2 ^ w + r / 2 = omega (arith, twice q w) in
    rw half (bit_below i w q (r / 2) (omega arith))

pub bit-mod : (i w a : ℕ) → i < w → bit i (a % 2 ^ w) ≡ bit i a
bit-mod i w a h =
    let whole : a / 2 ^ w * 2 ^ w + a % 2 ^ w ≡ a = div-add-mod' a (2 ^ w) in
    sym (bit_below i w (a / 2 ^ w) (a % 2 ^ w) h) ∙ ap (bit i) whole

pub bit-shift_left : (i k a : ℕ) → bit (i + k) (a * 2 ^ k) ≡ bit i a
bit-shift_left i zero a = rw add-zero (ap (bit i) (omega arith))
bit-shift_left i (suc k) a =
    let half : (a * 2 ^ suc k) / 2 ≡ a * 2 ^ k = omega (arith, twice a k) in
    ap (λ j. bit j (a * 2 ^ suc k)) (add-suc i k) ∙ ap (bit (i + k)) half ∙ bit-shift_left i k a

bit-zero : (i : ℕ) → bit i 0 ≡ 0
bit-zero zero = refl
bit-zero (suc i) = bit-zero i

-- The places below the shift are filled with zeros.
pub bit-shift_left_low : (i k a : ℕ) → i < k → bit i (a * 2 ^ k) ≡ 0
bit-shift_left_low i k a h =
    ap (bit i) (sym (add-zero (a * 2 ^ k))) ∙ bit_below i k a 0 h ∙ bit-zero i

pub bit-shift_right : (i k a : ℕ) → bit i (a / 2 ^ k) ≡ bit (i + k) a
bit-shift_right i zero a = rw add-zero (ap (bit i) (omega arith))
bit-shift_right i (suc k) a =
    let half : a / 2 ^ suc k ≡ a / 2 / 2 ^ k =
      sym (div-div-eq-div-mul a 2 (2 ^ k) ∙ ap (λ (n : ℕ). a / n) (omega (arith, pow-suc 2 k))) in
    rw (add-suc, half) (bit-shift_right i k (a / 2))

-- A number has no digits from its width on.
pub bit_above : (i w a : ℕ) → a < 2 ^ w → w ≤ i → bit i a ≡ 0
bit_above i zero a h le = let e : a ≡ 0 = omega arith in rw e (bit-zero i)
bit_above zero (suc w) a h le = absurd (omega arith)
bit_above (suc i) (suc w) a h le = bit_above i w (a / 2) (omega (arith, pow-suc 2 w)) (omega arith)
