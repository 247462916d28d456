-- ===== src/Core/Lot/Table.antt =====
-- The table as one queue of threads for each bucket, and as one queue for each key.
use parking_lot.Prelude.{
  ℕ, ◌≡◌, inl, inr, false, List, ◌∷◌, ◌++◌, arith, ◌==◌, if◌then◌else◌, Bool-cases, ◌∈◌, ◌∉◌,
  update, any, keep, keep-append, keep-eq_nil, keep_cong,
}
use parking_lot.Core.Queue.{Ptr, null, Memory, next_of, key_of, Bucket, Locked}
use parking_lot.Core.FairTimeout.{FairTimeout}
use parking_lot.Core.Queue.Cursor.{IsQueue, Seg-frame}
use parking_lot.Core.Queue.Frames.{waits}
use parking_lot.Core.Lot.{Lot, home, unlock_bucket, wake}

-- Bucket `b` holds the threads `q b`, oldest first; no thread is in two buckets, and each is in the
-- one that its key hashes to.
pub record IsLot (s : Lot) (q : ℕ → List Ptr) : Type 0 where
  pub queue : (b : ℕ) → IsQueue s.memory (s.entries b) (q b)
  pub apart : (a b : ℕ) (p : Ptr) → p ∈ q a → p ∈ q b → a ≡ b
  pub placed : (b : ℕ) (p : Ptr) → p ∈ q b → home s (key_of s.memory p) ≡ b

-- The threads that wait for a key, oldest first.
abbrev pub view : Lot → (ℕ → List Ptr) → ℕ → List Ptr
view s q key = keep (waits s.memory key) (q (home s key))

-- A write-back to one bucket that does not relink the other queues.
pub unlock-IsQueue :
    (s : Lot) (q : ℕ → List Ptr) (b : ℕ) (l : Locked) (ys : List Ptr)
    → ((c : ℕ) → IsQueue s.memory (s.entries c) (q c))
    → IsQueue l.memory l.bucket ys
    → ((c : ℕ) (a : Ptr) → (b == c) ≡ false → a ∈ q c → next_of l.memory a ≡ next_of s.memory a)
    → (c : ℕ) → IsQueue l.memory (update s.entries b l.bucket c) (update q b ys c)
unlock-IsQueue s q b l ys queues own same c = elim (Bool-cases (b == c)) [
  | inl e ↦ rw e own
  | inr e ↦ rw e (record {
    chain = Seg-frame s.memory l.memory _ (q c) null (queues c).chain (λ a m. same c a e m);
    tail = (queues c).tail;
    distinct = (queues c).distinct;
  })
]

-- The queues do not depend on the timers, nor on the other data of the threads.
pub record Alike (s s' : Lot) : Type 0 where
  pub next : (a : Ptr) → next_of s'.memory a ≡ next_of s.memory a
  pub keys : (a : Ptr) → key_of s'.memory a ≡ key_of s.memory a
  pub heads : (b : ℕ) → (s'.entries b).queue_head ≡ (s.entries b).queue_head
  pub tails : (b : ℕ) → (s'.entries b).queue_tail ≡ (s.entries b).queue_tail
  pub bits : s'.hash_bits ≡ s.hash_bits

module _ (s s' : Lot) (q : ℕ → List Ptr) (h : Alike s s') where
  pub Alike-IsLot : IsLot s q → IsLot s' q
  Alike-IsLot i = record {
    queue = λ b. record {
      chain =
          rw (h.heads b)
            (Seg-frame s.memory s'.memory _ (q b) null (i.queue b).chain (λ a m. h.next a));
      tail = rw (h.tails b) (i.queue b).tail;
      distinct = (i.queue b).distinct;
    };
    apart = i.apart;
    placed = λ b p m. rw (h.keys p, h.bits) (i.placed b p m);
  }

  pub Alike-view : (key : ℕ) → view s' q key ≡ view s q key
  Alike-view key =
      rw h.bits (keep_cong (waits s.memory key) (waits s'.memory key) _ (λ a. rw (h.keys a)))

-- What a critical section on bucket `b` may do: take threads out of it.
pub record Shrinks (s : Lot) (q : ℕ → List Ptr) (b : ℕ) (l : Locked) (ys : List Ptr) : Type 0 where
  pub queue : IsQueue l.memory l.bucket ys
  pub subset : (a : Ptr) → a ∈ ys → a ∈ q b
  pub outside : (a : Ptr) → a ∉ q b → next_of l.memory a ≡ next_of s.memory a
  pub keys : (a : Ptr) → key_of l.memory a ≡ key_of s.memory a

module _ (s : Lot) (q : ℕ → List Ptr) (b : ℕ) (l : Locked) (ys : List Ptr) (i : IsLot s q)
    (h : Shrinks s q b l ys) where
  pub Shrinks-IsLot : IsLot (unlock_bucket s b l) (update q b ys)
  Shrinks-IsLot = record {
    queue =
        unlock-IsQueue s q b l ys i.queue h.queue
          (λ c a e m. h.outside a (ground (arith, i.apart b c a)));
    apart = λ a c p m n. ground (arith, i.apart a c p, h.subset p);
    placed = λ c p m. rw (h.keys p) (ground (arith, i.placed c p, h.subset p));
  }

  -- The queues of the keys afterwards, read off the list that is left.
  pub view_after :
      (k : ℕ)
      → view (unlock_bucket s b l) (update q b ys) k
        ≡ keep (waits s.memory k) (if b == home s k then ys else q (home s k))
  view_after k = keep_cong (waits s.memory k) (waits l.memory k) _ (λ a. rw (h.keys a))

-- A wake-up and the bucket's timer do not touch the queue.
pub IsQueue-wake :
    (m : Memory) (b : Bucket) (xs : List Ptr) (x token : ℕ) (t : FairTimeout)
    → IsQueue m b xs
    → IsQueue (wake x token m) (record b { fair_timeout = t }) xs
IsQueue-wake m b xs x token t i = record {
  chain = Seg-frame m (wake x token m) b.queue_head xs null i.chain (λ a e. ground arith);
  tail = i.tail;
  distinct = i.distinct;
}

-- Taking the oldest thread that waits for `key` out of its bucket takes it off the queue of `key`
-- and leaves the other queues alone.
module _ (m : Memory) (key : ℕ) (pre : List Ptr) (x : Ptr) (post : List Ptr)
    (first : any (waits m key) pre ≡ false) (here : key_of m x ≡ key) where
  pub keep_oldest : keep (waits m key) (pre ++ x ∷ post) ≡ x ∷ keep (waits m key) post
  keep_oldest =
      ground (arith, keep-append (waits m key) pre (x ∷ post), keep-eq_nil (waits m key) pre first)

  pub keep_removed : keep (waits m key) (pre ++ post) ≡ keep (waits m key) post
  keep_removed =
      ground (arith, keep-append (waits m key) pre post, keep-eq_nil (waits m key) pre first)

  pub keep_other :
      (k : ℕ)
      → (key == k) ≡ false
      → keep (waits m k) (pre ++ post) ≡ keep (waits m k) (pre ++ x ∷ post)
  keep_other k ne =
      ground (arith, keep-append (waits m k) pre post, keep-append (waits m k) pre (x ∷ post))
