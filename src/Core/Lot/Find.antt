-- ===== src/Core/Lot/Find.antt =====
-- The loop that looks for one thread finds the oldest that waits for the key, takes it out of the
-- queue, and tells whether another one waits.
use mathlib.Core.List.{append_assoc, append-nil}
use parking_lot.Prelude.{
  ℕ, zero, suc, ◌<◌, ◌≡◌, refl, ap, ◌∙◌, inl, inr, false, some, List, [], ◌∷◌, ◌++◌, subst, arith,
  ◌==◌, Bool-cases, length, any, if◌then◌else◌, any-append, last_or-append, last_or-mem,
  Distinct-append_right,
}
use parking_lot.Core.Queue.{
  Ptr, null, next_of, key_of, Locked, Link, at_head, at_next, unlink, scan,
}
use parking_lot.Core.Queue.Cursor.{
  IsQueue, Cursor, Cursor-start, Cursor-stop, Cursor-next, Cursor-unlink,
}
use parking_lot.Core.Queue.Frames.{
  waits, scan-any, any-waits, unlink-keys, unlink-fair, Frames, unlink-Frames,
}
use parking_lot.Core.Lot.{Found, missing, found, find_loop}

-- What the search for a thread that waits for `key` ends with, in the queue `xs`.
pub data Search (key : ℕ) (l : Locked) (xs : List Ptr) (r : Found) : Type 0 where
  absent : any (waits l.memory key) xs ≡ false → r ≡ missing → Search key l xs r
  present :
      (pre : List Ptr) (x : Ptr) (post : List Ptr) (l' : Locked)
      → xs ≡ pre ++ x ∷ post
      → any (waits l.memory key) pre ≡ false
      → key_of l.memory x ≡ key
      → r ≡ found x (any (waits l.memory key) post) l'
      → IsQueue l'.memory l'.bucket (pre ++ post)
      → Frames pre l.memory l'.memory
      → l'.bucket.fair_timeout ≡ l.bucket.fair_timeout
      → Search key l xs r

module _ (key : ℕ) (l : Locked) where
  -- The queue's tail is the current thread only if no thread follows.
  not_tail :
      (link : Link) (current previous : Ptr) (pre : List Ptr) (x y : Ptr) (ys : List Ptr)
      → Cursor l link current previous pre (x ∷ y ∷ ys)
      → (l.bucket.queue_tail == current) ≡ false
  not_tail link current previous pre x y ys c = ground (
    arith,
    c.tail,
    c.back.0,
    last_or-append null pre (x ∷ y ∷ ys),
    last_or-mem null y ys,
    Distinct-append_right pre (x ∷ y ∷ ys) c.distinct,
  )

  pub more_lem :
      (f : ℕ) (link : Link) (current previous : Ptr) (pre : List Ptr) (x : Ptr) (rest : List Ptr)
      → Cursor l link current previous pre (x ∷ rest)
      → length rest < f
      → (if l.bucket.queue_tail == current
          then some false
          else scan f key
              (unlink link previous current (next_of l.memory current) l).memory
              (next_of l.memory current))
        ≡ some (any (waits l.memory key) rest)
  more_lem f link current previous pre x [] c h =
      ground (arith, c.tail, c.back.0, last_or-append null pre (x ∷ []))
  more_lem f link current previous pre x (y ∷ ys) c h =
      let after = unlink link previous current (next_of l.memory current) l in
      let walk =
        scan-any f key after.memory (next_of l.memory current) (y ∷ ys)
          (Cursor-unlink l link current previous x (y ∷ ys) pre c).back h in
      rw (not_tail link current previous pre x y ys c) (
        walk
        ∙ ap some (
            any-waits l.memory after.memory key (y ∷ ys)
              (unlink-keys link previous current (next_of l.memory current) l)))

  find_loop-Search :
      (f : ℕ) (link : Link) (current previous : Ptr) (pre rest : List Ptr)
      → Cursor l link current previous pre rest
      → any (waits l.memory key) pre ≡ false
      → length rest < f
      → (r : Found) × (find_loop f key link current previous l ≡ some r)
        × Search key l (pre ++ rest) r
  unfolding find_loop
  find_loop-Search zero link current previous pre rest c none_yet h = absurd (omega arith)
  find_loop-Search (suc f) link current previous pre [] c none_yet h =
      (missing, ground (arith, c.back), absent (rw append-nil none_yet) refl)
  find_loop-Search (suc f) link current previous pre (x ∷ rest) c none_yet h =
      elim (Bool-cases (waits l.memory key current)) [
        | inl e ↦ (
          found current (any (waits l.memory key) rest) after,
          rw (nonnull, e, more_lem f link current previous pre x rest c (omega arith)),
          present pre x rest after refl none_yet (ground arith)
              (ap (λ p. found p (any (waits l.memory key) rest) after) c.back.0)
              (Cursor-stop after pre rest (Cursor-unlink l link current previous x rest pre c))
              (unlink-Frames l next pre (x ∷ rest) c) (unlink-fair link previous current next l),
        )
        | inr e ↦
            rw (nonnull, e)
              (let s =
                  find_loop-Search f (at_next current) next current (pre ++ x ∷ []) rest
                    (Cursor-next l pre x rest c) (passed e) (omega arith) in
                (s.0, s.1, subst (λ zs. Search key l zs s.0) (append_assoc pre (x ∷ []) rest) s.2))
      ]
    where
      next : Ptr
      next = next_of l.memory current

      after : Locked
      after = unlink link previous current next l

      passed : waits l.memory key current ≡ false → any (waits l.memory key) (pre ++ x ∷ []) ≡ false
      passed e = ground (arith, any-append (waits l.memory key) pre (x ∷ []), c.back.0)

      nonnull : (current == null) ≡ false
      nonnull = ground (arith, c.back.0, c.back.1)

  pub find_loop_lem :
      (f : ℕ) (xs : List Ptr)
      → IsQueue l.memory l.bucket xs
      → length xs < f
      → (r : Found) × (find_loop f key at_head l.bucket.queue_head null l ≡ some r)
        × Search key l xs r
  find_loop_lem f xs q h =
      find_loop-Search f at_head l.bucket.queue_head null [] xs (Cursor-start l xs q) refl h
