-- ===== src/Core/Lot/Filter/Sieve.antt =====
-- What a filter takes out of a list of threads: the specification of the loop of `unpark_filter`.
use parking_lot.Prelude.{
  ℕ, ◌≡◌, refl, inl, inr, Bool, true, false, List, [], ◌∷◌, ◌==◌, if◌then◌else◌, arith, Bool-cases,
  keep, ◌∈◌, ◌∉◌, Distinct,
}
use parking_lot.Core.Queue.{Ptr}
use parking_lot.Core.Lot.{FilterOp, unpark, skip, stop}

pub record Sift (S : Type 0) : Type 0 where
  pub taken : List Ptr
  pub left : List Ptr
  pub more : Bool
  pub captured : S

module _ {S : Type 0} where
  -- What one answer does, given what becomes of the threads behind.
  abbrev pub sifted : FilterOp → Ptr → List Ptr → S → Sift S → Sift S
  sifted unpark x xs c r = record r { taken = x ∷ r.taken }
  sifted skip x xs c r = record r { left = x ∷ r.left; more = true }
  sifted stop x xs c r = record { taken = []; left = x ∷ xs; more = true; captured = c }

  module _ (filter : ℕ → S → FilterOp × S) where
    -- `here`: whether the thread waits for the key; the others are passed.
    unfoldable pub sift : (here : Ptr → Bool) → (token : Ptr → ℕ) → List Ptr → S → Sift S
    sift here token [] c = record { taken = []; left = []; more = false; captured = c }
    sift here token (x ∷ xs) c =
        let (op, c') = filter (token x) c in
        let r = sift here token xs (if here x then c' else c) in
        if here x then sifted op x xs c' r else (record r { left = x ∷ r.left })

    pub sift_cong :
        (here here' : Ptr → Bool) (token token' : Ptr → ℕ) (xs : List Ptr) (c : S)
        → ((a : Ptr) → here' a ≡ here a)
        → ((a : Ptr) → token' a ≡ token a)
        → sift here' token' xs c ≡ sift here token xs c
    unfolding sift
    sift_cong here here' token token' [] c h t = refl
    sift_cong here here' token token' (x ∷ xs) c h t =
        rw
          (
            h x,
            t x,
            sift_cong here here' token token' xs (if here x then (filter (token x) c).1 else c) h t,
          )
          refl

    -- The threads that wait for the key are sifted as if they stood alone.
    pub sift-alone :
        (here : Ptr → Bool) (token : Ptr → ℕ) (xs : List Ptr) (c : S)
        → let r = sift here token xs c in
          sift (λ _. true) token (keep here xs) c ≡ record {
            taken = r.taken;
            left = keep here r.left;
            more = r.more;
            captured = r.captured;
          }
    unfolding sift
    sift-alone here token [] c = refl
    sift-alone here token (x ∷ xs) c = elim (Bool-cases (here x)) [
      | inl e ↦
          let c' = (filter (token x) c).1 in
          rw e (ground (arith, e, sift-alone here token xs c', (filter (token x) c).0))
      | inr e ↦ rw e (ground (arith, e, sift-alone here token xs c))
    ]

    pub sift-others :
        (here other : Ptr → Bool) (token : Ptr → ℕ) (xs : List Ptr) (c : S)
        → ((a : Ptr) → other a ≡ true → here a ≡ false)
        → keep other (sift here token xs c).left ≡ keep other xs
    unfolding sift
    sift-others here other token [] c h = refl
    sift-others here other token (x ∷ xs) c h =
        let c' = if here x then (filter (token x) c).1 else c in
        ground (arith, sift-others here other token xs c' h, h x, (filter (token x) c).0)

    -- The threads that are taken out and those that are left.
    pub record Split (here : Ptr → Bool) (xs : List Ptr) (r : Sift S) : Type 0 where
      pub taken : (a : Ptr) → a ∈ r.taken → (a ∈ xs) × (here a ≡ true) × (a ∉ r.left)
      pub left : (a : Ptr) → a ∈ r.left → a ∈ xs
      pub distinct : Distinct r.taken

    pub sift-Split :
        (here : Ptr → Bool) (token : Ptr → ℕ) (xs : List Ptr) (c : S)
        → Distinct xs
        → Split here xs (sift here token xs c)
    unfolding sift
    sift-Split here token [] c d = record { taken = λ a m. cc; left = λ a m. cc; distinct = tt }
    sift-Split here token (x ∷ xs) c d =
        let c' = if here x then (filter (token x) c).1 else c in
        let s = sift-Split here token xs c' d.1 in
        record {
          taken = λ a m. ground (arith, s.taken a, s.left a, d.0, (filter (token x) c).0, at a);
          left = λ a m. ground (arith, s.left a, (filter (token x) c).0);
          distinct = ground (arith, s.distinct, s.taken x, d.0, (filter (token x) c).0);
        }
      where
        at : (a : Ptr) → (a == x) ≡ true → here a ≡ here x
        at a e = let f : a ≡ x = ground arith in rw f
