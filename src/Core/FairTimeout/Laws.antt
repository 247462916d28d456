-- ===== src/Core/FairTimeout/Laws.antt =====
-- The generator is the xorshift on binary digits and never gets to zero, and the timer draws from it.
use parking_lot.Prelude.{
  ℕ, ◌+◌, ◌*◌, ◌/◌, ◌%◌, ◌^◌, ◌≤◌, ◌<◌, ◌≡◌, ◌≢◌, Bool, true, false, ltb, arith, Bool-cases, inl,
  inr, refl, sym, ap, ◌∙◌, ◌-◌, if◌then◌else◌,
}
use parking_lot.Prelude.Bits.{
  eq_of_bit_xor, bit_xor-lt, bit, bit-bit_xor, bit-mod, bit-shift_left, bit-shift_left_low,
  bit-shift_right, bit_above,
}
use Prim.Native.Nat.{differ}
use parking_lot.Core.FairTimeout.{
  FairTimeout, u32_mod, shift_left_xor, shift_right_xor, gen_u32, should_timeout,
}

-- A seed that the generator accepts.
abbrev pub IsSeed : ℕ → Type 0
IsSeed a = (a ≢ 0) × (a < u32_mod)

shift_left_13 : (a : ℕ) → IsSeed a → IsSeed (shift_left_xor 13 a)
unfolding shift_left_xor
shift_left_13 a h = (
  λ e. h.0 (omega (arith, eq_of_bit_xor a (a * 2 ^ 13 % u32_mod) e)),
  bit_xor-lt 32 a _ h.1 (omega arith),
)

shift_left_5 : (a : ℕ) → IsSeed a → IsSeed (shift_left_xor 5 a)
unfolding shift_left_xor
shift_left_5 a h = (
  λ e. h.0 (omega (arith, eq_of_bit_xor a (a * 2 ^ 5 % u32_mod) e)),
  bit_xor-lt 32 a _ h.1 (omega arith),
)

shift_right_17 : (a : ℕ) → IsSeed a → IsSeed (shift_right_xor 17 a)
unfolding shift_right_xor
shift_right_17 a h =
    (λ e. h.0 (omega (arith, eq_of_bit_xor a (a / 2 ^ 17) e)), bit_xor-lt 32 a _ h.1 (omega arith))

pub gen_u32-IsSeed : (a : ℕ) → IsSeed a → IsSeed (gen_u32 a)
unfolding gen_u32
gen_u32-IsSeed a h = shift_left_5 _ (shift_right_17 _ (shift_left_13 a h))

-- Marsaglia's xorshift step on a row of 32 binary digits, the lowest first: each digit is combined
-- by exclusive or with the one `k` places below or above it, if there is one.
abbrev pub xor_left : ℕ → (ℕ → ℕ) → ℕ → ℕ
xor_left k f i = differ (f i) (if ltb i k then 0 else f (i - k))

abbrev pub xor_right : ℕ → (ℕ → ℕ) → ℕ → ℕ
xor_right k f i = differ (f i) (if ltb (i + k) 32 then f (i + k) else 0)

abbrev pub xorshift : (ℕ → ℕ) → ℕ → ℕ
xorshift f = xor_left 5 (xor_right 17 (xor_left 13 f))

-- The digits of a 32-bit number.
abbrev IsRow : ℕ → (ℕ → ℕ) → Type 0
IsRow a f = (i : ℕ) → i < 32 → bit i a ≡ f i

moved_left :
    (k a : ℕ) (f : ℕ → ℕ)
    → IsRow a f
    → (i : ℕ) → i < 32
    → bit i (a * 2 ^ k % u32_mod) ≡ (if ltb i k then 0 else f (i - k))
moved_left k a f row i h = bit-mod i 32 (a * 2 ^ k) h ∙ elim (Bool-cases (ltb i k)) [
  | inl low ↦ rw low (bit-shift_left_low i k a (ground arith))
  | inr high ↦
      let back : (i - k) + k ≡ i = ground arith in
      rw high (
        sym (ap (λ j. bit j (a * 2 ^ k)) back)
        ∙ bit-shift_left (i - k) k a
        ∙ row (i - k) (omega arith))
]

shift_left-IsRow : (k a : ℕ) (f : ℕ → ℕ) → IsRow a f → IsRow (shift_left_xor k a) (xor_left k f)
unfolding shift_left_xor
shift_left-IsRow k a f row i h =
    rw (bit-bit_xor i a (a * 2 ^ k % u32_mod), row i h, moved_left k a f row i h) refl

moved_right :
    (k a : ℕ) (f : ℕ → ℕ)
    → a < u32_mod
    → IsRow a f
    → (i : ℕ) → bit i (a / 2 ^ k) ≡ (if ltb (i + k) 32 then f (i + k) else 0)
moved_right k a f small row i = bit-shift_right i k a ∙ elim (Bool-cases (ltb (i + k) 32)) [
  | inl low ↦ rw low (row (i + k) (ground arith))
  | inr high ↦ rw high (bit_above (i + k) 32 a small (ground arith))
]

shift_right-IsRow :
    (k a : ℕ) (f : ℕ → ℕ) → a < u32_mod → IsRow a f → IsRow (shift_right_xor k a) (xor_right k f)
unfolding shift_right_xor
shift_right-IsRow k a f small row i h =
    rw (bit-bit_xor i a (a / 2 ^ k), row i h, moved_right k a f small row i) refl

gen_u32-IsRow : (a : ℕ) → IsSeed a → IsRow (gen_u32 a) (xorshift (λ i. bit i a))
unfolding gen_u32
gen_u32-IsRow a h =
    shift_left-IsRow 5 _ _
      (shift_right-IsRow 17 _ _ (shift_left_13 a h).1 (shift_left-IsRow 13 a _ (λ i p. refl)))

-- What a call at `now` answers, and what it leaves.
pub record Answers (now : ℕ) (t : FairTimeout) (fair : Bool) (t' : FairTimeout) : Type 0 where
  pub kept : fair ≡ false → (now ≤ t.timeout) × (t' ≡ t)
  pub drawn : fair ≡ true → (t.timeout < now) × (t'.timeout ≡ now + t'.seed % 1_000_000)
  pub next : fair ≡ true → (i : ℕ) → i < 32 → bit i t'.seed ≡ xorshift (λ j. bit j t.seed) i
  pub seeded : IsSeed t'.seed

-- From a nonzero 32-bit seed, `should_timeout` answers `true` exactly when `now` is past the
-- stored instant. Then each of the 32 binary digits of the new seed is the one that the xorshift
-- with the shifts 13, 17 and 5 gives from the digits of the old one, and the next instant is `now`
-- and the new seed's remainder by a million, in nanoseconds. Otherwise nothing changes. The stored
-- seed is again nonzero and fits 32 bits.
pub should_timeout-Answers :
    (now : ℕ) (t : FairTimeout)
    → IsSeed t.seed
    → Answers now t (should_timeout now t).0 (should_timeout now t).1
unfolding should_timeout
should_timeout-Answers now t h = elim (Bool-cases (ltb t.timeout now)) [
  | inl e ↦ rw e (record {
    kept = λ c. cc;
    drawn = λ c. (ground arith, refl);
    next = λ c. gen_u32-IsRow t.seed h;
    seeded = gen_u32-IsSeed t.seed h;
  })
  | inr e ↦
      rw e
        (record { kept = λ c. (ground arith, refl); drawn = λ c. cc; next = λ c. cc; seeded = h })
]
