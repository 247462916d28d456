-- ===== src/Core/Lot/Park.antt =====
-- `park` puts the thread at the end of the queue of its key.
use mathlib.Core.List.{append-nil}
use parking_lot.Prelude.{
  sym, last_or-append, ℕ, ◌≡◌, ◌≢◌, refl, inl, inr, Bool, true, false, some, none, List, [], ◌∷◌,
  ◌++◌, suc, ◌≤◌, length, length-append, arith, ◌==◌, ◌∙◌, if◌then◌else◌, Bool-cases, ◌∈◌, ◌∉◌,
  update, keep, last_or, last_or-mem, Distinct-snoc, has-append, keep-append, keep_cong_mem,
  ==_refl,
}
use parking_lot.Core.Queue.{Ptr, null, Memory, next_of, key_of, Locked, set_next}
use parking_lot.Core.Queue.Cursor.{IsQueue, Seg, Seg-append, Seg-frame, Seg-relink}
use parking_lot.Core.Queue.Frames.{waits}
use parking_lot.Core.Lot.{Lot, home, lock_bucket, unlock_bucket, enqueue, park_start}
use parking_lot.Core.Lot.Table.{IsLot, view, unlock-IsQueue}

module _ (me key park_token : ℕ) (timeout : Bool) (l : Locked) (nonnull : me ≢ null) where
  abbrev after : Locked
  after = enqueue me key park_token timeout l

  abbrev own : Memory
  own = update l.memory me (record (l.memory me) {
    parker = 1;
    key = key;
    next_in_queue = null;
    park_token = park_token;
    parked_with_timeout = timeout;
  })

  pub enqueue-keys :
      (a : Ptr) → key_of after.memory a ≡ (if me == a then key else key_of l.memory a)
  unfolding enqueue
  enqueue-keys a = ground arith

  enqueue-asleep : (after.memory me).parker ≡ 1
  unfolding enqueue
  enqueue-asleep = ground arith

  pub enqueue-outside :
      (xs : List Ptr) (a : Ptr)
      → IsQueue l.memory l.bucket xs
      → a ≢ me
      → a ∉ xs
      → next_of after.memory a ≡ next_of l.memory a
  unfolding enqueue
  enqueue-outside [] a q ne out = ground (arith, q.chain)
  enqueue-outside (x ∷ xs) a q ne out =
      ground (arith, q.chain.0, q.chain.1, q.tail, last_or-mem null x xs)

  pub enqueue-IsQueue :
      (xs : List Ptr)
      → IsQueue l.memory l.bucket xs
      → me ∉ xs
      → IsQueue after.memory after.bucket (xs ++ me ∷ [])
  unfolding enqueue
  enqueue-IsQueue [] q out =
      rw (q.chain)
        (record { chain = (refl, nonnull, ground arith); tail = refl; distinct = (refl, tt) })
  enqueue-IsQueue (x ∷ xs) q out =
      rw (some_head, q.tail)
        (record {
          chain =
              Seg-append (set_next (last_or x xs) me own) l.bucket.queue_head (x ∷ xs) me (me ∷ [])
                null (Seg-relink own _ x xs null me framed q.distinct)
                (refl, nonnull, ground (arith, last_or-mem null x xs));
          tail = sym (last_or-append x xs (me ∷ []));
          distinct = Distinct-snoc me (x ∷ xs) q.distinct out;
        })
    where
      some_head : (l.bucket.queue_head == null) ≡ false
      some_head = ground (arith, q.chain.0, q.chain.1)

      framed : Seg own l.bucket.queue_head (x ∷ xs) null
      framed = Seg-frame l.memory own _ (x ∷ xs) null q.chain (λ a i. ground arith)

module _ (me key park_token : ℕ) (timeout : Bool) (s : Lot) (q : ℕ → List Ptr) (i : IsLot s q)
    (nonnull : me ≢ null) (fresh : (b : ℕ) → me ∉ q b) where
  abbrev b : ℕ
  b = home s key

  abbrev l : Locked
  l = enqueue me key park_token timeout (lock_bucket s b)

  abbrev pub s' : Lot
  s' = unlock_bucket s b l

  abbrev pub q' : ℕ → List Ptr
  q' = update q b (q b ++ me ∷ [])

  keys : (a : Ptr) → key_of l.memory a ≡ (if me == a then key else key_of s.memory a)
  keys a = enqueue-keys me key park_token timeout (lock_bucket s b) nonnull a

  placed_of : (c : ℕ) (p : Ptr) → p ∈ q' c → home s' (key_of l.memory p) ≡ c
  placed_of c p m = elim (Bool-cases (me == p)) [
    | inl e ↦
        let f : p ≡ me = ground arith in
        let out : p ∉ q c = rw f (fresh c) in
        let k : key_of l.memory p ≡ key = rw (keys p, e) refl in rw k (ground arith)
    | inr e ↦
        let k : key_of l.memory p ≡ key_of s.memory p = rw (keys p, e) refl in
        rw k (ground (arith, i.placed c p, has-append p (q b) (me ∷ [])))
  ]

  pub enqueue-IsLot : IsLot s' q'
  enqueue-IsLot = record {
    queue =
        unlock-IsQueue s q b l (q b ++ me ∷ []) i.queue
          (enqueue-IsQueue me key park_token timeout (lock_bucket s b) nonnull (q b) (i.queue b)
            (fresh b))
          (λ c a e m.
            enqueue-outside me key park_token timeout (lock_bucket s b) nonnull (q b) a (i.queue b)
              (ground (arith, fresh c)) (ground (arith, i.apart b c a)));
    apart =
        λ a c p m n. ground (arith, i.apart a c p, fresh a, fresh c, has-append p (q b) (me ∷ []));
    placed = placed_of;
  }

  kept : (k c : ℕ) → keep (waits l.memory k) (q c) ≡ keep (waits s.memory k) (q c)
  kept k c =
      keep_cong_mem (waits s.memory k) (waits l.memory k) (q c)
        λ a m. rw (keys a) (ground (arith, fresh c))

  view_grows : view s' q' key ≡ view s q key ++ me ∷ []
  view_grows = rw (==_refl b) (
      keep-append (waits l.memory key) (q b) (me ∷ [])
      ∙ rw (kept key b, keys me, ==_refl me, ==_refl key))

  view_other : (k : ℕ) → (key == k) ≡ false → view s' q' k ≡ view s q k
  view_other k ne = elim (Bool-cases (b == home s k)) [
    | inl e ↦
        let f : home s k ≡ b = ground arith in
        rw (e, f)
          (keep-append (waits l.memory k) (q b) (me ∷ [])
            ∙ rw (kept k b, keys me, ==_refl me, ne) (append-nil _))
    | inr e ↦ rw e (kept k (home s k))
  ]

  lengths_grow : (c : ℕ) → length (q' c) ≤ suc (length (q c))
  lengths_grow c = elim (Bool-cases (b == c)) [
    | inl e ↦
        let f : c ≡ b = ground arith in
        rw (f, ==_refl b) (omega (arith, length-append (q b) (me ∷ [])))
    | inr e ↦ rw e (omega arith)
  ]

-- The thread `me` is asleep at the end of the queue of `key`, the other queues are as before, and
-- at most one thread is added to each bucket.
pub record Joined (me key : ℕ) (s : Lot) (q : ℕ → List Ptr) (s' : Lot) (q' : ℕ → List Ptr)
    : Type 0 where
  pub table : IsLot s' q'
  pub queue : view s' q' key ≡ view s q key ++ me ∷ []
  pub queues : (k : ℕ) → (key == k) ≡ false → view s' q' k ≡ view s q k
  pub asleep : (s'.memory me).parker ≡ 1
  pub lengths : (b : ℕ) → length (q' b) ≤ suc (length (q b))

-- A thread that is in no queue and parks with a key: if the caller's validation holds, it is
-- afterwards asleep and the last thread in the queue of that key, the queues of all other keys are
-- as they were, no bucket has more than one thread more, and the table is well formed; if it does not, `park` returns without having
-- touched the table. Either way the validation has run once.
pub park_start-Joined :
    {S : Type 0} (me key park_token : ℕ) (timeout : Bool) (validate : S → Bool × S) (s : Lot)
    (c : S) (q : ℕ → List Ptr)
    → IsLot s q
    → me ≢ null
    → ((b : ℕ) → me ∉ q b)
    → ((validate c).0 ≡ true
        → (s' : Lot) × (q' : ℕ → List Ptr) × (park_start me key park_token timeout validate (s, c)
            ≡ (some s', (validate c).1))
          × Joined me key s q s' q')
      × ((validate c).0 ≡ false
          → park_start me key park_token timeout validate (s, c) ≡ (none, (validate c).1))
unfolding park_start
park_start-Joined me key park_token timeout validate s c q i nonnull fresh = (
  (λ valid. (
    _,
    q' me key park_token timeout s q i nonnull fresh,
    rw valid,
    (record {
      table = enqueue-IsLot me key park_token timeout s q i nonnull fresh;
      queue = view_grows me key park_token timeout s q i nonnull fresh;
      queues = view_other me key park_token timeout s q i nonnull fresh;
      asleep = enqueue-asleep me key park_token timeout (lock_bucket s (home s key)) nonnull;
      lengths = lengths_grow me key park_token timeout s q i nonnull fresh;
    }),
  )),
  λ not_valid. rw not_valid,
)
