-- ===== src/Core/Lot/UnparkAll.antt =====
-- `unpark_all` empties the queue of its key.
use parking_lot.Prelude.{
  keep-keep, has-keep_by, keep-none, ==_refl, ℕ, ◌<◌, ◌≡◌, ◌∙◌, inl, inr, false, not, some, List,
  [], arith, ◌==◌, Bool-cases, ◌∈◌, ◌∉◌, update, length, keep, keep_cong,
}
use parking_lot.Core.Queue.{Ptr, null, Locked, at_head}
use parking_lot.Core.Queue.Cursor.{Cursor-start}
use parking_lot.Core.Queue.Frames.{waits}
use parking_lot.Core.Lot.Table.{IsLot, view, Shrinks, Shrinks-IsLot, view_after}
use parking_lot.Core.Lot.{Lot, home, lock_bucket, unlock_bucket, unpark_all_at}
use parking_lot.Core.Lot.AllLoop.{Emptied, all_loop-Emptied}

module _ (key token : ℕ) (s : Lot) (q : ℕ → List Ptr) (i : IsLot s q) (l : Locked)
    (em : Emptied key token (lock_bucket s (home s key)) [] (q (home s key)) l) where
  abbrev b : ℕ
  b = home s key

  abbrev left : List Ptr
  left = keep (λ a. not (waits s.memory key a)) (q b)

  left-Shrinks : Shrinks s q b l left
  left-Shrinks = record {
    queue = em.queue;
    subset = λ a m. ground (arith, has-keep_by a (λ a. not (waits s.memory key a)) (q b));
    outside = em.outside;
    keys = em.keys;
  }

  no_more : view (unlock_bucket s b l) (update q b left) key ≡ []
  no_more =
      view_after s q b l left i left-Shrinks key
      ∙ (rw (==_refl b, keep-keep (waits s.memory key) (λ a. not (waits s.memory key a)) (q b))
          (keep-none (waits s.memory key) (q b)))

  others_stay :
      (k : ℕ) → (key == k) ≡ false → view (unlock_bucket s b l) (update q b left) k ≡ view s q k
  others_stay k ne = view_after s q b l left i left-Shrinks k ∙ elim (Bool-cases (b == home s k)) [
    | inl e ↦
        let f : home s k ≡ b = ground arith in
        rw (e, f, keep-keep (waits s.memory k) (λ a. not (waits s.memory key a)) (q b))
          (keep_cong (waits s.memory k) _ (q b) (λ a. ground arith))
    | inr e ↦ rw e
  ]

-- What a run of `unpark_all` returns: the queue of the key is empty, each thread that stood in it is
-- awake with the token, and they are counted; all other queues and threads are as they were.
pub record Freed (key token : ℕ) (s : Lot) (q : ℕ → List Ptr) (s' : Lot) (q' : ℕ → List Ptr)
    : Type 0 where
  pub table : IsLot s' q'
  pub queue : view s' q' key ≡ []
  pub queues : (k : ℕ) → (key == k) ≡ false → view s' q' k ≡ view s q k
  pub awake :
      (a : Ptr)
      → a ∈ view s q key
      → ((s'.memory a).unpark_token ≡ token) × ((s'.memory a).parker ≡ 0)
  pub asleep : (a : Ptr) → a ∉ view s q key → (s'.memory a).parker ≡ (s.memory a).parker

-- On a well-formed table `unpark_all` ends, with fuel for the threads of the bucket, and returns
-- the number of threads that waited for the key. None waits for it afterwards, each of them is
-- awake with the token, and the queues of the other keys, all other sleeping threads and the
-- table's well-formedness are kept.
pub unpark_all-Freed :
    (fuel key token : ℕ) (s : Lot) (q : ℕ → List Ptr)
    → IsLot s q
    → length (q (home s key)) < fuel
    → (s' : Lot) × (q' : ℕ → List Ptr) × (unpark_all_at fuel key token s
        ≡ some (s', length (view s q key)))
      × Freed key token s q s' q'
unfolding unpark_all_at
unpark_all-Freed fuel key token s q i h =
    let l0 = lock_bucket s (home s key) in
    let (l, ran, em) =
      all_loop-Emptied key token fuel at_head (s.entries (home s key)).queue_head null []
        (q (home s key)) l0 (Cursor-start l0 (q (home s key)) (i.queue (home s key))) h in
    (
      unlock_bucket s (home s key) l,
      update q (home s key) (left key token s q i l em),
      rw ran,
      record {
        table =
            Shrinks-IsLot s q (home s key) l (left key token s q i l em) i
              (left-Shrinks key token s q i l em);
        queue = no_more key token s q i l em;
        queues = others_stay key token s q i l em;
        awake = λ a m.
            let x = has-keep_by a (waits s.memory key) (q (home s key)) in
            em.woken a (ground (arith, x)) (ground (arith, x));
        asleep = λ a m.
            (em.asleep a (ground (arith, has-keep_by a (waits s.memory key) (q (home s key))))).1;
      },
    )
