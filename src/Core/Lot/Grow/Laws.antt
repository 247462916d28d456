-- ===== src/Core/Lot/Grow/Laws.antt =====
-- Growing the table keeps the queue of each key.
use parking_lot.Prelude.{
  ℕ, zero, suc, ◌*◌, ◌^◌, ◌≤◌, ◌<◌, ◌≡◌, ◌∙◌, sym, refl, ap, inl, inr, Bool, false, ◌&&◌, some,
  List, [], ◌++◌, arith, ◌==◌, leb, Bool-cases, ◌∈◌, ◌∉◌, has, length, keep, has-append,
  has-keep_by, keep-append, keep-keep, keep_cong_mem, keep_cong, keep-nil,
}
use mathlib.Core.List.{append-nil}
use parking_lot.Core.Hash.{load_factor, usize_bits, Sizes}
use parking_lot.Core.Hash.Laws.{new_sizes-Fits, hash-lt}
use parking_lot.Core.Queue.{Ptr, next_of, key_of}
use parking_lot.Core.Queue.Frames.{waits}
use parking_lot.Core.Lot.{Lot, home}
use parking_lot.Core.Lot.Table.{IsLot, view}
use parking_lot.Core.Lot.Grow.{entries_len, new_table, rehash_first, grow_hashtable}
use parking_lot.Core.Lot.Grow.Rehash.{Holds, leads, rehash_loop-Holds}

-- The threads of the first `n` buckets.
abbrev pub gather : (ℕ → List Ptr) → ℕ → List Ptr
gather q zero = []
gather q (suc n) = gather q n ++ q n

gather-below : (q : ℕ → List Ptr) (a : Ptr) (n : ℕ) → a ∈ gather q n → (b : ℕ) × (b < n) × (a ∈ q b)
gather-below q a zero i = absurd (cc)
gather-below q a (suc n) i = elim (Bool-cases (has a (q n))) [
  | inl e ↦ (n, omega arith, e)
  | inr e ↦
      let (b, lt, j) = gather-below q a n (ground (arith, has-append a (gather q n) (q n))) in
      (b, omega arith, j)
]

-- A choice that finds nothing in any bucket but `h`.
keep-gather_none :
    (p : Ptr → Bool) (q : ℕ → List Ptr) (h n : ℕ)
    → ((b : ℕ) → (h == b) ≡ false → keep p (q b) ≡ [])
    → n ≤ h
    → keep p (gather q n) ≡ []
keep-gather_none p q h zero empty le = refl
keep-gather_none p q h (suc n) empty le =
    keep-append p (gather q n) (q n)
    ∙ rw (keep-gather_none p q h n empty (omega arith), empty n (ground arith)) refl

keep-gather :
    (p : Ptr → Bool) (q : ℕ → List Ptr) (h n : ℕ)
    → ((b : ℕ) → (h == b) ≡ false → keep p (q b) ≡ [])
    → h < n
    → keep p (gather q n) ≡ keep p (q h)
keep-gather p q h zero empty lt = absurd (omega arith)
keep-gather p q h (suc n) empty lt = keep-append p (gather q n) (q n) ∙ elim (Bool-cases (h == n)) [
  | inl e ↦
      let f : n ≡ h = ground arith in rw (keep-gather_none p q h n empty (omega arith), f) refl
  | inr e ↦ rw (keep-gather p q h n empty (ground arith), empty n e) (append-nil _)
]

module _ (now : ℕ) (s : Lot) (q : ℕ → List Ptr) (i : IsLot s q) (z : Sizes) where
  start-Holds : Holds z.hash_bits s.memory [] (new_table now z s.memory)
  start-Holds = record {
    hash_bits = refl;
    queue = λ h. record { chain = refl; tail = refl; distinct = tt };
    fields = λ a. refl;
    outside = λ a o. refl;
    distinct = tt;
  }

  rehash_first-Holds :
      (fuel : ℕ)
      → ((b : ℕ) → length (q b) < fuel)
      → (n : ℕ)
      → (u : Lot) × (rehash_first fuel s.entries n (new_table now z s.memory) ≡ some u)
        × Holds z.hash_bits s.memory (gather q n) u
  unfolding rehash_first
  rehash_first-Holds fuel enough zero = (_, refl, start-Holds)
  rehash_first-Holds fuel enough (suc n) =
      let (t, e, k) = rehash_first-Holds fuel enough n in
      let (u, f, k') =
        rehash_loop-Holds z.hash_bits s.memory fuel _ (gather q n) (q n) t k (i.queue n).chain
          (i.queue n).distinct apart (enough n) in
      (u, rw e f, k')
    where
      apart : (a : Ptr) → a ∈ q n → a ∉ gather q n
      apart a j = elim (Bool-cases (has a (gather q n))) [
        | inl e ↦ let (b, lt, l) = gather-below q a n e in absurd (omega (arith, i.apart b n a l j))
        | inr e ↦ e
      ]

-- Each key has the threads of before, in their order, on a table for `num_threads` threads.
pub record Grown (num_threads : ℕ) (s : Lot) (q : ℕ → List Ptr) (s' : Lot) (q' : ℕ → List Ptr)
    : Type 0 where
  pub table : IsLot s' q'
  pub queues : (key : ℕ) → view s' q' key ≡ view s q key
  pub threads :
      (a : Ptr) → s'.memory a ≡ record (s.memory a) { next_in_queue = next_of s'.memory a }
  pub bits : (0 < s'.hash_bits) × (s'.hash_bits ≤ usize_bits)
  pub loaded : load_factor * num_threads ≤ entries_len s'

module _ (num_threads : ℕ) (s : Lot) (q : ℕ → List Ptr) (i : IsLot s q) (bits : ℕ) (u : Lot)
    (k : Holds bits s.memory (gather q (entries_len s)) u) where
  abbrev all : List Ptr
  all = gather q (entries_len s)

  abbrev pub q' : ℕ → List Ptr
  q' h = keep (leads bits s.memory h) all

  keys : (a : Ptr) → key_of u.memory a ≡ key_of s.memory a
  keys a = ap (λ d. d.key) (k.fields a)

  grown-IsLot : IsLot u q'
  grown-IsLot = record {
    queue = k.queue;
    apart = λ a b p m n. ground (
      arith,
      has-keep_by p (leads bits s.memory a) all,
      has-keep_by p (leads bits s.memory b) all,
    );
    placed = λ b p m.
        rw (keys p, k.hash_bits) (ground (arith, has-keep_by p (leads bits s.memory b) all));
  }

  elsewhere : (key b : ℕ) → (home s key == b) ≡ false → keep (waits s.memory key) (q b) ≡ []
  elsewhere key b n = keep-nil (waits s.memory key) (q b) λ a m.
      elim (Bool-cases (waits s.memory key a)) [
        | inl e ↦
            let f : key_of s.memory a ≡ key = ground arith in
            let g : home s key ≡ b = rw (sym f) (i.placed b a m) in absurd (ground arith)
        | inr e ↦ e
      ]

  grown-view :
      (0 < s.hash_bits) × (s.hash_bits ≤ usize_bits) → (key : ℕ) → view u q' key ≡ view s q key
  grown-view le key =
      keep_cong (waits s.memory key) (waits u.memory key) _ (λ a. rw (keys a))
      ∙ keep-keep (waits s.memory key) (leads bits s.memory (home u key)) all
      ∙ keep_cong_mem (waits s.memory key) _ all leading
      ∙ keep-gather (waits s.memory key) q (home s key) (entries_len s) (elsewhere key)
          (hash-lt key s.hash_bits le.0 le.1)
    where
      leading :
          (a : Ptr)
          → a ∈ all
          → (waits s.memory key a && leads bits s.memory (home u key) a) ≡ waits s.memory key a
      leading a m = elim (Bool-cases (waits s.memory key a)) [
        | inl e ↦
            let f : key_of s.memory a ≡ key = ground arith in rw (k.hash_bits, f) (ground arith)
        | inr e ↦ rw e refl
      ]

-- On a well-formed table of 1 to 64 hash bits, with fuel for each bucket's queue and no more than 2^63 / 3 threads,
-- `grow_hashtable` succeeds; the new table is well formed, with
-- 1 to 64 hash bits, and has at least three buckets for each
-- thread, each key has the same parked threads in the same order as before, and of a thread's
-- data only `next_in_queue` has changed.
pub grow_hashtable-Grown :
    (now fuel num_threads : ℕ) (s : Lot) (q : ℕ → List Ptr)
    → IsLot s q
    → (0 < s.hash_bits) × (s.hash_bits ≤ usize_bits)
    → ((b : ℕ) → length (q b) < fuel)
    → 0 < num_threads
    → num_threads * load_factor ≤ 2 ^ 63
    → (s' : Lot) × (q' : ℕ → List Ptr) × (grow_hashtable now fuel num_threads s ≡ some s')
      × Grown num_threads s q s' q'
unfolding grow_hashtable
grow_hashtable-Grown now fuel num_threads s q i le enough some_threads few =
    elim (Bool-cases (leb (load_factor * num_threads) (entries_len s))) [
      | inl e ↦ (
        s,
        q,
        rw e refl,
        (record {
          table = i;
          queues = λ key. refl;
          threads = λ a. refl;
          bits = le;
          loaded = ground arith;
        }),
      )
      | inr e ↦
          let (z, found, fits) = new_sizes-Fits num_threads some_threads few in
          let (u, ran, k) = rehash_first-Holds now s q i z fuel enough (entries_len s) in
          (
            u,
            q' num_threads s q i z.hash_bits u k,
            rw (e, found) ran,
            (record {
              table = grown-IsLot num_threads s q i z.hash_bits u k;
              queues = grown-view num_threads s q i z.hash_bits u k le;
              threads = k.fields;
              bits = rw k.hash_bits (fits.shifts.0, omega (arith, fits.shifts.1));
              loaded = rw k.hash_bits (omega (arith, fits.loaded, fits.indexed));
            }),
          )
    ]
