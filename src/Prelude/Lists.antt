-- ===== src/Prelude/Lists.antt =====
-- Lists measured by native numbers, and lists of thread identifiers.
use Prim.Native.Nat.{◌≤◌, ◌<◌, ℕ, zero, suc, ◌+◌}
use mathlib.Core.Path.{◌≡◌, refl}
use mathlib.Core.Bool.{Bool, true, false, not, ◌&&◌, ◌||◌}
use mathlib.Core.List.{List, [], ◌∷◌, ◌++◌}
use mathlib.Core.Option.{Option, none, some}
use native.Mathlib.Omega.{arith}
use mathlib.Core.Logic.{inl, inr}
use parking_lot.Prelude.Tests.{Bool-cases, ◌==◌, if◌then◌else◌}

module _ {ℓ} {A : Type ℓ} where
  abbrev pub length : List A → ℕ
  length [] = 0
  length (x ∷ xs) = suc (length xs)

  pub length-append : (xs ys : List A) → length (xs ++ ys) ≡ length xs + length ys
  length-append [] ys = omega arith
  length-append (x ∷ xs) ys = omega (arith, length-append xs ys)

  abbrev pub get_elem? : List A → ℕ → Option A
  get_elem? [] i = none
  get_elem? (x ∷ xs) zero = some x
  get_elem? (x ∷ xs) (suc i) = get_elem? xs i

  abbrev pub any : (A → Bool) → List A → Bool
  any p [] = false
  any p (x ∷ xs) = p x || any p xs

  pub any-append : (p : A → Bool) (xs ys : List A) → any p (xs ++ ys) ≡ (any p xs || any p ys)
  any-append p [] ys = refl
  any-append p (x ∷ xs) ys = ground (arith, any-append p xs ys)

  -- The elements that pass, in their order.
  abbrev pub keep : (A → Bool) → List A → List A
  keep p [] = []
  keep p (x ∷ xs) = if p x then x ∷ keep p xs else keep p xs

  pub keep-append : (p : A → Bool) (xs ys : List A) → keep p (xs ++ ys) ≡ keep p xs ++ keep p ys
  keep-append p [] ys = refl
  keep-append p (x ∷ xs) ys = ground (arith, keep-append p xs ys)

  abbrev pub is_empty : List A → Bool
  is_empty [] = true
  is_empty (x ∷ xs) = false

-- Membership as a test.
abbrev pub has : ℕ → List ℕ → Bool
has a [] = false
has a (x ∷ xs) = (a == x) || has a xs

infix 40 ◌∈◌ ◌∉◌
abbrev pub ◌∈◌ : ℕ → List ℕ → Type 0
a ∈ xs = has a xs ≡ true

abbrev pub ◌∉◌ : ℕ → List ℕ → Type 0
a ∉ xs = has a xs ≡ false

pub has-append : (a : ℕ) (xs ys : List ℕ) → has a (xs ++ ys) ≡ (has a xs || has a ys)
has-append a [] ys = refl
has-append a (x ∷ xs) ys = ground (arith, has-append a xs ys)

abbrev pub Distinct : List ℕ → Type 0
Distinct [] = Unit {0}
Distinct (x ∷ xs) = (x ∉ xs) × Distinct xs

-- The last element, or the given one if there is none.
abbrev pub last_or : ℕ → List ℕ → ℕ
last_or d [] = d
last_or d (x ∷ xs) = last_or x xs

pub Distinct-append_left : (xs ys : List ℕ) → Distinct (xs ++ ys) → Distinct xs
Distinct-append_left [] ys d = tt
Distinct-append_left (x ∷ xs) ys d =
    (ground (arith, has-append x xs ys), Distinct-append_left xs ys d.1)

pub Distinct-append_right : (xs ys : List ℕ) → Distinct (xs ++ ys) → Distinct ys
Distinct-append_right [] ys d = d
Distinct-append_right (x ∷ xs) ys d = Distinct-append_right xs ys d.1

pub Distinct-apart : (xs ys : List ℕ) (a : ℕ) → Distinct (xs ++ ys) → a ∈ xs → a ∉ ys
Distinct-apart [] ys a d h = absurd (cc)
Distinct-apart (x ∷ xs) ys a d h = ground (arith, has-append x xs ys, Distinct-apart xs ys a d.1)

pub Distinct-remove :
    (xs : List ℕ) (a : ℕ) (ys : List ℕ) → Distinct (xs ++ a ∷ ys) → Distinct (xs ++ ys)
Distinct-remove [] a ys d = d.1
Distinct-remove (x ∷ xs) a ys d =
    (ground (arith, has-append x xs (a ∷ ys), has-append x xs ys), Distinct-remove xs a ys d.1)

pub last_or-append : (d : ℕ) (xs ys : List ℕ) → last_or d (xs ++ ys) ≡ last_or (last_or d xs) ys
last_or-append d [] ys = refl
last_or-append d (x ∷ xs) ys = last_or-append x xs ys

pub last_or-mem : (d x : ℕ) (xs : List ℕ) → last_or d (x ∷ xs) ∈ (x ∷ xs)
last_or-mem d x [] = ground arith
last_or-mem d x (y ∷ ys) = ground (arith, last_or-mem x y ys)

pub not-mem-append : (a : ℕ) (xs ys : List ℕ) → a ∉ xs → a ∉ ys → a ∉ (xs ++ ys)
not-mem-append a xs ys p q = ground (arith, has-append a xs ys)

module _ {ℓ} {A : Type ℓ} (p : A → Bool) where
  pub keep-eq_nil : (xs : List A) → any p xs ≡ false → keep p xs ≡ []
  keep-eq_nil [] h = refl
  keep-eq_nil (x ∷ xs) h = ground (arith, keep-eq_nil xs)

  pub any-keep : (xs : List A) → any p xs ≡ not (is_empty (keep p xs))
  any-keep [] = refl
  any-keep (x ∷ xs) = ground (arith, any-keep xs)

  pub keep_cong : (q : A → Bool) (xs : List A) → ((a : A) → q a ≡ p a) → keep q xs ≡ keep p xs
  keep_cong q [] h = refl
  keep_cong q (x ∷ xs) h = rw (h x, keep_cong q xs h)

-- Two tests one after the other.
pub keep-keep : (p q : ℕ → Bool) (xs : List ℕ) → keep p (keep q xs) ≡ keep (λ a. p a && q a) xs
keep-keep p q [] = refl
keep-keep p q (x ∷ xs) = ground (arith, keep-keep p q xs)

pub keep-none : (p : ℕ → Bool) (xs : List ℕ) → keep (λ a. p a && not (p a)) xs ≡ []
keep-none p [] = refl
keep-none p (x ∷ xs) = ground (arith, keep-none p xs)

pub keep-nil : (p : ℕ → Bool) (xs : List ℕ) → ((a : ℕ) → a ∈ xs → p a ≡ false) → keep p xs ≡ []
keep-nil p [] out = refl
keep-nil p (x ∷ xs) out = rw (out x (ground arith)) (keep-nil p xs λ a m. out a (ground arith))

pub keep-whole : (p : ℕ → Bool) (xs : List ℕ) → ((a : ℕ) → a ∈ xs → p a ≡ true) → keep p xs ≡ xs
keep-whole p [] every = refl
keep-whole p (x ∷ xs) every =
    rw (every x (ground arith), keep-whole p xs (λ a m. every a (ground arith))) refl

pub has-keep_by : (a : ℕ) (p : ℕ → Bool) (xs : List ℕ) → has a (keep p xs) ≡ (has a xs && p a)
has-keep_by a p [] = refl
has-keep_by a p (x ∷ xs) = elim (Bool-cases (a == x)) [
  | inl e ↦ let f : x ≡ a = ground arith in rw f (ground (arith, has-keep_by a p xs))
  | inr e ↦ ground (arith, has-keep_by a p xs)
]

pub keep_cong_mem :
    (p q : ℕ → Bool) (xs : List ℕ) → ((a : ℕ) → a ∈ xs → q a ≡ p a) → keep q xs ≡ keep p xs
keep_cong_mem p q [] h = refl
keep_cong_mem p q (x ∷ xs) h =
    let rest = keep_cong_mem p q xs (λ a m. h a (ground arith)) in rw (h x (ground arith), rest)

pub has-keep :
    (a b : ℕ) (xs : List ℕ) → has a (keep (λ x. not (x == b)) xs) ≡ (has a xs && not (a == b))
has-keep a b [] = refl
has-keep a b (x ∷ xs) = ground (arith, has-keep a b xs)

pub Distinct-keep : (b : ℕ) (xs : List ℕ) → Distinct xs → Distinct (keep (λ x. not (x == b)) xs)
Distinct-keep b [] d = tt
Distinct-keep b (x ∷ xs) d = ground (arith, has-keep x b xs, Distinct-keep b xs d.1)

pub Distinct-snoc : (a : ℕ) (xs : List ℕ) → Distinct xs → a ∉ xs → Distinct (xs ++ a ∷ [])
Distinct-snoc a [] d out = (refl, tt)
Distinct-snoc a (x ∷ xs) d out =
    (ground (arith, has-append x xs (a ∷ [])), Distinct-snoc a xs d.1 (ground arith))

keep-absent :
    (p : ℕ → Bool) (b : ℕ) (xs : List ℕ) → b ∉ xs → keep (λ x. not (x == b)) (keep p xs) ≡ keep p xs
keep-absent p b [] h = refl
keep-absent p b (x ∷ xs) h = ground (arith, keep-absent p b xs)

-- To drop one element of a list without repetition is to cut it out.
pub keep-cut :
    (p : ℕ → Bool) (b : ℕ) (xs ys : List ℕ)
    → Distinct (xs ++ b ∷ ys)
    → keep p (xs ++ ys) ≡ keep (λ x. not (x == b)) (keep p (xs ++ b ∷ ys))
keep-cut p b [] ys d = ground (arith, keep-absent p b ys d.0)
keep-cut p b (x ∷ xs) ys d = ground (arith, keep-cut p b xs ys d.1, has-append x xs (b ∷ ys))

pub length_pos : (a : ℕ) (xs : List ℕ) → a ∈ xs → 1 ≤ length xs
length_pos a [] h = absurd (cc)
length_pos a (x ∷ xs) h = omega arith

keep-all : (b : ℕ) (xs : List ℕ) → b ∉ xs → keep (λ x. not (x == b)) xs ≡ xs
keep-all b [] h = refl
keep-all b (x ∷ xs) h = ground (arith, keep-all b xs)

-- A list without repetition loses at most one element to the removal of a value.
pub length-keep_other :
    (b : ℕ) (xs : List ℕ)
    → Distinct xs
    → length (keep (λ x. not (x == b)) xs) + (if has b xs then 1 else 0) ≡ length xs
length-keep_other b [] d = refl
length-keep_other b (x ∷ xs) d = ground (arith, length-keep_other b xs d.1, keep-all b xs)

pub Distinct-keep_by : (p : ℕ → Bool) (xs : List ℕ) → Distinct xs → Distinct (keep p xs)
Distinct-keep_by p [] d = tt
Distinct-keep_by p (x ∷ xs) d = ground (arith, has-keep_by x p xs, Distinct-keep_by p xs d.1)

pub Distinct-append :
    (xs ys : List ℕ) → Distinct xs → Distinct ys → ((a : ℕ) → a ∈ xs → a ∉ ys) → Distinct (xs ++ ys)
Distinct-append [] ys d e apart = e
Distinct-append (x ∷ xs) ys d e apart = (
  ground (arith, has-append x xs ys, apart x),
  Distinct-append xs ys d.1 e λ a m. apart a (ground arith),
)

-- A list without repetition of numbers below `n` has at most `n` members.
pub length-below : (n : ℕ) (xs : List ℕ) → Distinct xs → ((a : ℕ) → a ∈ xs → a < n) → length xs ≤ n
length-below zero [] d h = omega arith
length-below zero (x ∷ xs) d h = absurd (ground (arith, h x))
length-below (suc n) xs d h =
    let others : (a : ℕ) → a ∈ keep (λ k. not (k == n)) xs → a < n =
      λ a m. ground (arith, h a, has-keep a n xs) in
    ground (
      arith,
      length-below n (keep (λ k. not (k == n)) xs) (Distinct-keep n xs d) others,
      length-keep_other n xs d,
    )
