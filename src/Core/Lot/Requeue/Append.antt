-- ===== src/Core/Lot/Requeue/Append.antt =====
-- `bucket_to` takes the chain of requeued threads behind its own queue.
use mathlib.Core.List.{append-nil}
use parking_lot.Prelude.{
  ◌≡◌, sym, refl, false, List, [], ◌∷◌, ◌++◌, arith, ◌==◌, ◌∈◌, ◌∉◌, last_or, last_or-append,
  last_or-mem, Distinct, Distinct-append,
}
use parking_lot.Core.Queue.{Ptr, null, Memory, next_of, Locked, set_next}
use parking_lot.Core.Queue.Cursor.{IsQueue, Seg, Seg-append, Seg-frame, Seg-relink}
use parking_lot.Core.Lot.Requeue.{append_requeued}
use parking_lot.Core.Lot.Requeue.Chain.{IsChain}

module _ (h t : Ptr) (l : Locked) where
  abbrev after : Locked
  after = append_requeued h t l

  pub append-fields :
      (a : Ptr) → after.memory a ≡ record (l.memory a) { next_in_queue = next_of after.memory a }
  unfolding append_requeued
  append-fields a = ground arith

  pub append-fair : after.bucket.fair_timeout ≡ l.bucket.fair_timeout
  unfolding append_requeued
  append-fair = ground arith

  pub append-outside :
      (xs zs : List Ptr)
      → IsQueue l.memory l.bucket xs
      → IsChain l.memory h t zs
      → (a : Ptr) → a ∉ xs
      → a ∉ zs
      → next_of after.memory a ≡ next_of l.memory a
  unfolding append_requeued
  append-outside xs [] q c a o p = rw c (refl)
  append-outside [] (z ∷ zs) q (r, s, e) a o p =
      ground (arith, q.chain, s.0, s.1, e, last_or-mem null z zs)
  append-outside (x ∷ xs) (z ∷ zs) q (r, s, e) a o p = ground (
    arith,
    q.chain.0,
    q.chain.1,
    q.tail,
    s.0,
    s.1,
    e,
    last_or-mem null z zs,
    last_or-mem null x xs,
  )

  pub append-IsQueue :
      (xs zs : List Ptr)
      → IsQueue l.memory l.bucket xs
      → IsChain l.memory h t zs
      → Distinct zs
      → ((a : Ptr) → a ∈ xs → a ∉ zs)
      → IsQueue after.memory after.bucket (xs ++ zs)
  unfolding append_requeued
  append-IsQueue xs [] q c d apart = rw (c, append-nil) q
  append-IsQueue [] (z ∷ zs) q (r, s, e) d apart =
      rw (some_chain, q.chain, e)
        (record { chain = Seg-relink l.memory h z zs r null s d; tail = refl; distinct = d })
    where
      some_chain : (h == null) ≡ false
      some_chain = ground (arith, s.0, s.1)
  append-IsQueue (x ∷ xs) (z ∷ zs) q (r, s, e) d apart =
      rw (some_chain, some_head, q.tail, e)
        (record {
          chain =
              Seg-append (set_next (last_or x xs) h m) l.bucket.queue_head (x ∷ xs) h (z ∷ zs) null
                (Seg-relink m _ x xs null h framed q.distinct)
                (Seg-frame m (set_next (last_or x xs) h m) h (z ∷ zs) null
                  (Seg-relink l.memory h z zs r null s d)
                  (λ a i. ground (arith, apart a, last_or-mem null x xs)));
          tail = sym (last_or-append x xs (z ∷ zs));
          distinct = Distinct-append (x ∷ xs) (z ∷ zs) q.distinct d apart;
        })
    where
      some_chain : (h == null) ≡ false
      some_chain = ground (arith, s.0, s.1)

      some_head : (l.bucket.queue_head == null) ≡ false
      some_head = ground (arith, q.chain.0, q.chain.1)

      m : Memory
      m = set_next (last_or z zs) null l.memory

      framed : Seg m l.bucket.queue_head (x ∷ xs) null
      framed =
          Seg-frame l.memory m _ (x ∷ xs) null q.chain
            (λ a i. ground (arith, apart a, last_or-mem null z zs))
