-- ===== src/Core/Lot/Grow/Rehash.antt =====
-- The loop of `rehash_bucket_into` puts the threads of a bucket at the ends of the new queues.
use mathlib.Core.List.{append_assoc, append-nil}
use parking_lot.Prelude.{
  ℕ, zero, suc, ◌<◌, ◌≡◌, ◌≢◌, ◌∙◌, sym, refl, ap, subst, inl, inr, Bool, false, not, ◌&&◌, some,
  List, [], ◌∷◌, ◌++◌, arith, ◌==◌, if◌then◌else◌, Bool-cases, ◌∈◌, ◌∉◌, length, keep, has-append,
  has-keep_by, keep-append, Distinct, Distinct-snoc, ==_refl, last_or, last_or-mem, last_or-append,
}
use parking_lot.Core.Hash.{hash}
use parking_lot.Core.Queue.{Ptr, null, Memory, next_of, key_of, Bucket, set_next}
use parking_lot.Core.Queue.Cursor.{IsQueue, Seg, Seg-last_ne, Seg-append, Seg-frame, Seg-relink}
use parking_lot.Core.Lot.{Lot}
use parking_lot.Core.Lot.Grow.{rehash_round, rehash_loop}

-- Whether a thread's key leads to the new bucket `h`.
abbrev pub leads : (bits : ℕ) → Memory → (h : ℕ) → Ptr → Bool
leads bits m h a = hash (key_of m a) bits == h

-- The new table holds the threads `xs` of the old memory `m`, each new bucket in their order.
pub record Holds (bits : ℕ) (m : Memory) (xs : List Ptr) (t : Lot) : Type 0 where
  pub hash_bits : t.hash_bits ≡ bits
  pub queue : (h : ℕ) → IsQueue t.memory (t.entries h) (keep (leads bits m h) xs)
  pub fields : (a : Ptr) → t.memory a ≡ record (m a) { next_in_queue = next_of t.memory a }
  pub outside : (a : Ptr) → a ∉ xs → next_of t.memory a ≡ next_of m a
  pub distinct : Distinct xs

tail_mem : (ys : List Ptr) (p : Ptr) → p ≡ last_or null ys → (p == null) ≡ false → p ∈ ys
tail_mem [] p e n = absurd (ground arith)
tail_mem (y ∷ ys) p e n = ground (arith, last_or-mem null y ys)

-- A thread `x` is linked behind the tail of a queue.
linked-IsQueue :
    (m n : Memory) (b : Bucket) (zs : List Ptr) (x : Ptr)
    → IsQueue m b zs
    → x ≢ null
    → x ∉ zs
    → ((a : Ptr)
        → next_of n a ≡ (
            if x == a
            then null
            else if not (b.queue_tail == null) && (b.queue_tail == a)
            then x
            else next_of m a))
    → IsQueue n
        (if b.queue_tail == null
          then record b { queue_head = x; queue_tail = x }
          else record b { queue_tail = x })
        (zs ++ x ∷ [])
linked-IsQueue m n b [] x q nonnull out next = rw (q.tail) (record {
  chain = (refl, nonnull, next x ∙ rw (==_refl x) refl);
  tail = refl;
  distinct = (refl, tt);
})
linked-IsQueue m n b (y ∷ ys) x q nonnull out next =
    rw (q.tail, not_null)
      (record {
        chain =
            Seg-append n b.queue_head (y ∷ ys) x (x ∷ []) null
              (Seg-frame (set_next (last_or null (y ∷ ys)) x m) n b.queue_head (y ∷ ys) x
                (Seg-relink m _ y ys null x q.chain q.distinct)
                (λ a i. next a ∙ ground (arith, q.tail, not_null)))
              (refl, nonnull, next x ∙ rw (==_refl x) refl);
        tail = sym (last_or-append y ys (x ∷ []));
        distinct = Distinct-snoc x (y ∷ ys) q.distinct out;
      })
  where
    not_null : (last_or y ys == null) ≡ false
    not_null = ground (arith, Seg-last_ne m b.queue_head y ys null q.chain)

module _ (bits : ℕ) (m : Memory) (xs : List Ptr) (t : Lot) (k : Holds bits m xs t) (x : Ptr)
    (nonnull : x ≢ null) (fresh : x ∉ xs) where
  abbrev h : ℕ
  h = hash (key_of m x) bits

  abbrev t' : Lot
  t' = rehash_round x t

  abbrev ys : List Ptr
  ys = keep (leads bits m h) xs

  same_key : hash (key_of t.memory x) t.hash_bits ≡ h
  same_key = rw k.hash_bits (ap (λ d. hash d.key bits) (k.fields x))

  abbrev old : Bucket
  old = t.entries h

  tail_in : (old.queue_tail == null) ≡ false → old.queue_tail ∈ ys
  tail_in n = tail_mem ys old.queue_tail (k.queue h).tail n

  round_bits : t'.hash_bits ≡ bits
  unfolding rehash_round
  round_bits = k.hash_bits

  round_entries :
      (c : ℕ)
      → t'.entries c ≡ (
          if h == c
          then (if old.queue_tail == null
              then record old { queue_head = x; queue_tail = x }
              else record old { queue_tail = x })
          else t.entries c)
  unfolding rehash_round
  round_entries c = rw same_key refl

  round_next :
      (a : Ptr)
      → next_of t'.memory a ≡ (
          if x == a
          then null
          else if not (old.queue_tail == null) && (old.queue_tail == a)
          then x
          else next_of t.memory a)
  unfolding rehash_round
  round_next a = rw same_key (ground arith)

  round_fields : (a : Ptr) → t'.memory a ≡ record (m a) { next_in_queue = next_of t'.memory a }
  unfolding rehash_round
  round_fields a = rw same_key (ground (arith, k.fields a, k.fields x, k.fields old.queue_tail))

  round_outside : (a : Ptr) → a ∉ (xs ++ x ∷ []) → next_of t'.memory a ≡ next_of m a
  round_outside a out =
      round_next a
      ∙ ground (
        arith,
        k.outside a,
        has-append a xs (x ∷ []),
        has-keep_by old.queue_tail (leads bits m h) xs,
        tail_in,
      )

  -- The other queues.
  round_other :
      (c : ℕ)
      → (h == c) ≡ false
      → IsQueue t'.memory (t'.entries c) (keep (leads bits m c) (xs ++ x ∷ []))
  round_other c n =
      rw (round_entries c, n, keep-append (leads bits m c) xs (x ∷ []), n, append-nil)
        (record {
          chain =
              Seg-frame t.memory t'.memory _ (keep (leads bits m c) xs) null (k.queue c).chain
                (λ a i.
                  round_next a
                  ∙ ground (
                    arith,
                    has-keep_by a (leads bits m c) xs,
                    has-keep_by a (leads bits m h) xs,
                    tail_in,
                  ));
          tail = (k.queue c).tail;
          distinct = (k.queue c).distinct;
        })

  round_own : IsQueue t'.memory (t'.entries h) (keep (leads bits m h) (xs ++ x ∷ []))
  round_own =
      rw (round_entries h, ==_refl h, keep-append (leads bits m h) xs (x ∷ []), ==_refl h)
        (linked-IsQueue t.memory t'.memory old ys x (k.queue h) nonnull not_in round_next)
    where
      not_in : x ∉ ys
      not_in = ground (arith, has-keep_by x (leads bits m h) xs)

  round-IsQueue : (c : ℕ) → IsQueue t'.memory (t'.entries c) (keep (leads bits m c) (xs ++ x ∷ []))
  round-IsQueue c = elim (Bool-cases (h == c)) [
    | inl e ↦
        let f : c ≡ h = ground arith in
        subst (λ d. IsQueue t'.memory (t'.entries d) (keep (leads bits m d) (xs ++ x ∷ []))) (sym f)
          round_own
    | inr e ↦ round_other c e
  ]

  round-Holds : Holds bits m (xs ++ x ∷ []) t'
  round-Holds = record {
    hash_bits = round_bits;
    queue = round-IsQueue;
    fields = round_fields;
    outside = round_outside;
    distinct = Distinct-snoc x xs k.distinct fresh;
  }

-- The loop empties the rest `ys` of a bucket's queue into the new table.
pub rehash_loop-Holds :
    (bits : ℕ) (m : Memory) (f : ℕ) (current : Ptr) (xs ys : List Ptr) (t : Lot)
    → Holds bits m xs t
    → Seg m current ys null
    → Distinct ys
    → ((a : Ptr) → a ∈ ys → a ∉ xs)
    → length ys < f
    → (u : Lot) × (rehash_loop f current t ≡ some u) × Holds bits m (xs ++ ys) u
unfolding rehash_loop
rehash_loop-Holds bits m zero current xs ys t k s d apart h = absurd (omega arith)
rehash_loop-Holds bits m (suc f) current xs [] t k s d apart h =
    (t, ground (arith, s), rw append-nil k)
rehash_loop-Holds bits m (suc f) current xs (y ∷ ys) t k s d apart h =
    let fresh : y ∉ xs = apart y (ground arith) in
    let k' = round-Holds bits m xs t k y s.1 fresh in
    let next : next_of t.memory y ≡ next_of m y = k.outside y fresh in
    let (u, e, k'') =
      rehash_loop-Holds bits m f (next_of m y) (xs ++ y ∷ []) ys (rehash_round y t) k' s.2 d.1
        (λ a i. ground (arith, apart a, has-append a xs (y ∷ []))) (omega arith) in
    let not_null : (y == null) ≡ false = ground (arith, s.1) in
    (u, rw (s.0, not_null, next) e, rw (append_assoc xs (y ∷ []) ys) at k'')
