-- ===== src/Sync/RawRwLock/System/Sift.antt =====
-- Which threads the filter of `wake_parked_threads` takes out of the queue, and the word that it
-- builds for them.
use parking_lot.Prelude.{
  ℕ, ◌+◌, ◌≡◌, ◌⊎◌, refl, inl, inr, Bool, true, false, ◌&&◌, ◌||◌, List, [], ◌∷◌, ◌==◌,
  if◌then◌else◌, arith, Bool-cases, length, keep, has, ◌∈◌, ◌∉◌, Distinct,
}
use parking_lot.Core.Lot.{unpark, skip, stop}
use parking_lot.Sync.RawRwLock.{
  Word, ParkToken, token_shared, token_upgradable, token_exclusive, add_token,
}
use parking_lot.Sync.RawRwLock.Wake.{filter, Filtered, filter_all}
use parking_lot.Sync.RawRwLock.System.Holds.{hold_token, counts, is_upgrade, is_writer, is_major}

abbrev pub token_counts : (ℕ → ParkToken) → ℕ → Bool
token_counts token a = counts (hold_token (token a))

abbrev pub token_major : (ℕ → ParkToken) → ℕ → Bool
token_major token a = is_major (hold_token (token a))

-- What the filter does to the queue `xs` from the word `s` on.
pub record Sifted (token : ℕ → ParkToken) (s : Word) (xs : List ℕ) (r : Filtered) : Type 0 where
  pub split : (a : ℕ) → has a xs ≡ (has a r.taken || has a r.left)
  pub apart : (a : ℕ) → a ∈ r.taken → a ∉ r.left
  pub distinct_taken : Distinct r.taken
  pub distinct_left : Distinct r.left
  pub total : r.new_state.readers ≡ s.readers + length (keep (token_counts token) r.taken)
  pub kept :
      (s.upgradable || s.writer) ≡ true
      → (r.new_state.upgradable ≡ s.upgradable) × (r.new_state.writer ≡ s.writer)
  pub majors :
      (a : ℕ)
      → a ∈ r.taken
      → token_major token a ≡ true
      → ((s.upgradable || s.writer) ≡ false)
        × (r.new_state.upgradable ≡ is_upgrade (hold_token (token a)))
        × (r.new_state.writer ≡ is_writer (hold_token (token a)))
  pub unique :
      (a b : ℕ)
      → a ∈ r.taken
      → b ∈ r.taken
      → token_major token a ≡ true
      → token_major token b ≡ true
      → a ≡ b
  pub owner :
      (r.new_state.upgradable || r.new_state.writer) ≡ true
      → ((s.upgradable || s.writer) ≡ true)
        ⊎ ((a : ℕ) × (a ∈ r.taken) × (token_major token a ≡ true))

add_token_parts :
    (t : ParkToken) (s : Word)
    → ((add_token t s).readers ≡ s.readers + (if counts (hold_token t) then 1 else 0))
      × ((add_token t s).upgradable ≡ (s.upgradable || is_upgrade (hold_token t)))
      × ((add_token t s).writer ≡ (s.writer || is_writer (hold_token t)))
add_token_parts token_shared s = ground arith
add_token_parts token_upgradable s = ground arith
add_token_parts token_exclusive s = ground arith

filter-stop : (s : Word) (t : ParkToken) → s.writer ≡ true → filter s t ≡ stop
unfolding filter
filter-stop s token_shared w = ground arith
filter-stop s token_upgradable w = ground arith
filter-stop s token_exclusive w = ground arith

filter-skip :
    (s : Word) (t : ParkToken)
    → s.writer ≡ false
    → (is_major (hold_token t) && s.upgradable) ≡ true
    → filter s t ≡ skip
unfolding filter
filter-skip s token_shared w u = absurd (cc)
filter-skip s token_upgradable w u = ground arith
filter-skip s token_exclusive w u = ground arith

filter-unpark :
    (s : Word) (t : ParkToken)
    → s.writer ≡ false
    → (is_major (hold_token t) && s.upgradable) ≡ false
    → filter s t ≡ unpark
unfolding filter
filter-unpark s token_shared w u = ground arith
filter-unpark s token_upgradable w u = ground arith
filter-unpark s token_exclusive w u = ground arith

module _ (token : ℕ → ParkToken) (s : Word) (x : ℕ) (xs : List ℕ) (d : Distinct (x ∷ xs)) where
  stopped :
      (r : Filtered)
      → r ≡ record { taken = []; left = x ∷ xs; more = true; new_state = s }
      → Sifted token s (x ∷ xs) r
  stopped r e = rw e (record {
    split = λ a. refl;
    apart = λ a m. cc;
    distinct_taken = tt;
    distinct_left = d;
    total = omega arith;
    kept = λ h. (refl, refl);
    majors = λ a m. cc;
    unique = λ a b m. cc;
    owner = λ h. inl h;
  })

  skipped :
      (r : Filtered)
      → Sifted token s xs r
      → Sifted token s (x ∷ xs) (record r { left = x ∷ r.left; more = true })
  skipped r h = record {
    split = λ a. ground (arith, h.split a);
    apart = λ a m. ground (arith, h.apart a, h.split a, d.0);
    distinct_taken = h.distinct_taken;
    distinct_left = (ground (arith, h.split x, d.0), h.distinct_left);
    total = h.total;
    kept = h.kept;
    majors = h.majors;
    unique = h.unique;
    owner = h.owner;
  }

  took :
      (r : Filtered)
      → (s.writer ≡ false)
      → (token_major token x ≡ true → s.upgradable ≡ false)
      → Sifted token (add_token (token x) s) xs r
      → Sifted token s (x ∷ xs) (record r { taken = x ∷ r.taken })
  took r w u h = record {
    split = λ a. ground (arith, h.split a);
    apart = λ a m. ground (arith, h.apart a, h.split a, d.0);
    distinct_taken = (ground (arith, h.split x, d.0), h.distinct_taken);
    distinct_left = h.distinct_left;
    total = ground (arith, h.total, add.0);
    kept = λ k. ground (arith, h.kept, add.1);
    majors = λ a m t. majors_of a m t;
    unique =
        λ a b m n t v. ground (arith, h.unique a b, at_x a, at_x b, h.majors a, h.majors b, add.1);
    owner = λ o. owner_of (h.owner o);
  }
    where
      t : ParkToken
      t = token x

      add :
          ((add_token t s).readers ≡ s.readers + (if token_counts token x then 1 else 0))
          × ((add_token t s).upgradable ≡ (s.upgradable || is_upgrade (hold_token t)))
          × ((add_token t s).writer ≡ (s.writer || is_writer (hold_token t)))
      add = add_token_parts t s

      at_x : (a : ℕ) → (a == x) ≡ true → token_major token a ≡ token_major token x
      at_x a e = let f : a ≡ x = ground arith in rw f

      majors_of :
          (a : ℕ)
          → a ∈ (x ∷ r.taken)
          → token_major token a ≡ true
          → ((s.upgradable || s.writer) ≡ false)
            × (r.new_state.upgradable ≡ is_upgrade (hold_token (token a)))
            × (r.new_state.writer ≡ is_writer (hold_token (token a)))
      majors_of a m v = elim (Bool-cases (a == x)) [
        | inl e ↦ let f : a ≡ x = ground arith in rw f (ground (arith, h.kept, add.1, at_x a))
        | inr e ↦ let k = h.majors a (ground arith) v in (ground (arith, k.0, add.1), k.1, k.2)
      ]

      owner_of :
          (((add_token t s).upgradable || (add_token t s).writer) ≡ true)
            ⊎ ((a : ℕ) × (a ∈ r.taken) × (token_major token a ≡ true))
          → ((s.upgradable || s.writer) ≡ true)
            ⊎ ((a : ℕ) × (a ∈ (x ∷ r.taken)) × (token_major token a ≡ true))
      owner_of (inr (a, m, v)) = inr (a, ground arith, v)
      owner_of (inl f) = elim (Bool-cases (token_major token x)) [
        | inl v ↦ inr (x, ground arith, v)
        | inr v ↦ inl (ground (arith, add.1))
      ]

pub filter_all-Sifted :
    (token : ℕ → ParkToken) (s : Word) (xs : List ℕ)
    → Distinct xs
    → Sifted token s xs (filter_all token s xs)
unfolding filter_all
filter_all-Sifted token s [] d = record {
  split = λ a. refl;
  apart = λ a m. cc;
  distinct_taken = tt;
  distinct_left = tt;
  total = omega arith;
  kept = λ h. (refl, refl);
  majors = λ a m. cc;
  unique = λ a b m. cc;
  owner = λ h. inl h;
}
filter_all-Sifted token s (x ∷ xs) d = elim (Bool-cases s.writer) [
  | inl w ↦ stopped token s x xs d _ (rw (filter-stop s (token x) w) refl)
  | inr w ↦ elim (Bool-cases (token_major token x && s.upgradable)) [
    | inl u ↦
        rw (filter-skip s (token x) w (ground arith))
          (skipped token s x xs d (filter_all token s xs) (filter_all-Sifted token s xs d.1))
    | inr u ↦ rw (filter-unpark s (token x) w (ground arith)) (
        took token s x xs d (filter_all token (add_token (token x) s) xs) w (λ v. ground arith)
          (filter_all-Sifted token (add_token (token x) s) xs d.1))
  ]
]
