-- ===== src/Core/Hash/Laws.antt =====
-- A table is large enough for its threads, and a hash is an index of it.
use native.Mathlib.Nat.{pow-suc, add-zero, add-suc, div-lt_iff_lt-mul, mod-lt}
use parking_lot.Prelude.{
  ℕ, false, zero, suc, ◌+◌, ◌-◌, ◌*◌, ◌%◌, ◌^◌, ◌≤◌, ◌<◌, ◌≡◌, refl, inl, inr, some, arith, leb,
  Bool-cases, ap, sym, ◌∙◌, ◌⊎◌, dec_lt,
}
use parking_lot.Core.Hash.{
  usize_bits, load_factor, hash, leading_zeros, power_from, next_power_of_two, Sizes, new_sizes,
}

pow-pos : (k : ℕ) → 0 < 2 ^ k
pow-pos zero = omega arith
pow-pos (suc k) = omega (arith, pow-suc 2 k, pow-pos k)

pow_add : (a b : ℕ) → 2 ^ (a + b) ≡ 2 ^ a * 2 ^ b
pow_add a zero = rw add-zero (omega arith)
pow_add a (suc b) =
    rw (add-suc, pow-suc 2 (a + b), pow-suc 2 b)
      (omega (arith, ap (λ (t : ℕ). t * 2) (pow_add a b)))

pow-lt_of_lt : (w j : ℕ) → j < w → 2 ^ j < 2 ^ w
pow-lt_of_lt zero j h = absurd (omega arith)
pow-lt_of_lt (suc w) j h = elim (dec_lt j w) [
  | yes p ↦ omega (arith, pow-suc 2 w, pow-lt_of_lt w j p)
  | no p ↦ let e : j ≡ w = omega arith in rw e (omega (arith, pow-suc 2 w, pow-pos w))
]

-- The power found is the least from `2 ^ k` on that is at least `n`.
record Least (k n j : ℕ) : Type 0 where
  above : n ≤ 2 ^ j
  from : k ≤ j
  least : (j ≡ k) ⊎ (2 ^ (j - 1) < n)

next_least : (k n j : ℕ) → leb n (2 ^ k) ≡ false → (j ≡ suc k) ⊎ (2 ^ (j - 1) < n) → 2 ^ (j - 1) < n
next_least k n j e (inr h) = h
next_least k n j e (inl q) = let r : j - 1 ≡ k = omega arith in rw r (ground arith)

power_from-Least :
    (f k n : ℕ)
    → n ≤ 2 ^ (k + f)
    → (j : ℕ) × (power_from (suc f) k n ≡ some (2 ^ j)) × Least k n j × (j ≤ k + f)
unfolding power_from
power_from-Least zero k n h =
    let h' : n ≤ 2 ^ k = rw add-zero at h in
    (k, ground arith, record { above = h'; from = omega arith; least = inl refl }, omega arith)
power_from-Least (suc f) k n h = elim (Bool-cases (leb n (2 ^ k))) [
  | inl e ↦
      (k, rw e, record { above = ground arith; from = omega arith; least = inl refl }, omega arith)
  | inr e ↦
      let h' : n ≤ 2 ^ (suc k + f) = rw shift at h in
      let (j, found, l, small) = power_from-Least f (suc k) n h' in
      (
        j,
        rw e found,
        record { above = l.above; from = omega arith; least = inr (next_least k n j e l.least) },
        omega arith,
      )
]
  where
    shift : k + suc f ≡ suc k + f
    shift = omega arith

Least-large : (n j : ℕ) → 1 < n → Least 0 n j → (0 < j) × (2 ^ (j - 1) < n)
Least-large n zero h l = absurd (omega (arith, l.above))
Least-large n (suc j) h l = elim l.least [ inl e ↦ absurd (omega arith) | inr b ↦ (omega arith, b) ]

leading_zeros-zero : (w : ℕ) → leading_zeros w 0 ≡ w
unfolding leading_zeros
leading_zeros-zero zero = refl
leading_zeros-zero (suc w) = ground (arith, pow-pos w, leading_zeros-zero w)

leading_zeros-pow : (w j : ℕ) → j < w → leading_zeros w (2 ^ j) + j + 1 ≡ w
unfolding leading_zeros
leading_zeros-pow zero j h = absurd (omega arith)
leading_zeros-pow (suc w) j h = elim (dec_lt j w) [
  | yes p ↦ ground (arith, pow-lt_of_lt w j p, leading_zeros-pow w j p)
  | no p ↦ let e : j ≡ w = omega arith in rw e (ground arith)
]

next_power_of_two_found : (n p : ℕ) → power_from 64 0 n ≡ some p → next_power_of_two n ≡ some p
unfolding next_power_of_two
next_power_of_two_found n p e = e

new_sizes_found :
    (t p b : ℕ)
    → next_power_of_two (t * load_factor) ≡ some p
    → leading_zeros 64 0 - leading_zeros 64 p - 1 ≡ b
    → new_sizes t ≡ some (record { entries = p; hash_bits = b })
unfolding new_sizes
new_sizes_found t p b e h = rw (e, new_sizes, h)

-- A table for `num_threads` threads.
pub record Fits (num_threads : ℕ) (z : Sizes) : Type 0 where
  pub indexed : z.entries ≡ 2 ^ z.hash_bits
  pub shifts : (0 < z.hash_bits) × (z.hash_bits < usize_bits)
  pub loaded : num_threads * load_factor ≤ z.entries
  pub least : 2 ^ (z.hash_bits - 1) < num_threads * load_factor

-- For at least one thread and at most 2^63 / 3 of them, `HashTable::new` finds its sizes: the
-- number of entries is two to the power `hash_bits`, it is at least `LOAD_FACTOR` for each
-- thread, no smaller power of two would do, and `hash_bits` makes the hash's shift a valid one.
pub new_sizes-Fits :
    (num_threads : ℕ)
    → 0 < num_threads
    → num_threads * load_factor ≤ 2 ^ 63
    → (z : Sizes) × (new_sizes num_threads ≡ some z) × Fits num_threads z
new_sizes-Fits t pos small =
    let (j, found, l, bound) = power_from-Least 63 0 (t * load_factor) small in
    let z : Sizes = record { entries = 2 ^ j; hash_bits = j } in
    let large = Least-large (t * load_factor) j (omega arith) l in
    let zeros : leading_zeros 64 (2 ^ j) + j + 1 ≡ 64 = leading_zeros-pow 64 j (omega arith) in
    let bits : leading_zeros 64 0 - leading_zeros 64 (2 ^ j) - 1 ≡ j =
      omega (arith, leading_zeros-zero 64) in
    (
      z,
      new_sizes_found t (2 ^ j) j (next_power_of_two_found _ _ found) bits,
      record { indexed = refl; shifts = (large.0, omega arith); loaded = l.above; least = large.1 },
    )

-- For the `hash_bits` at which the shift does not overflow, from 1 to 64, it is by `64 - bits`.
hash_shift :
    (bits : ℕ)
    → 0 < bits
    → bits ≤ usize_bits
    → (usize_bits - bits % usize_bits) % usize_bits ≡ usize_bits - bits
hash_shift bits pos h = omega arith

-- For 1 to 64 hash bits (those at which the source's shift does not overflow), a hash is the index
-- of one of the `2 ^ bits` entries.
pub hash-lt : (key bits : ℕ) → 0 < bits → bits ≤ usize_bits → hash key bits < 2 ^ bits
unfolding hash
hash-lt key bits pos h =
    let sum : bits + (usize_bits - bits) ≡ usize_bits = omega arith in
    let split : 2 ^ bits * 2 ^ (usize_bits - bits) ≡ 2 ^ usize_bits =
      sym (pow_add bits (usize_bits - bits)) ∙ ap (λ (k : ℕ). 2 ^ k) sum in
    rw (hash_shift bits pos h)
      ((div-lt_iff_lt-mul (pow-pos (usize_bits - bits))).1 (rw split (mod-lt _ (omega arith))))
