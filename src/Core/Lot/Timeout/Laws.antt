-- ===== src/Core/Lot/Timeout/Laws.antt =====
-- A thread that times out leaves the queue of its key, and the callback is told the truth.
use mathlib.Core.List.{append_assoc}
use parking_lot.Prelude.{
  ℕ, zero, suc, ◌<◌, ◌≡◌, ◌≢◌, ◌∙◌, sym, ap, subst, inl, inr, Bool, false, not, ◌&&◌, some, List,
  [], ◌∷◌, ◌++◌, arith, ◌==◌, if◌then◌else◌, Bool-cases, ◌∈◌, ◌∉◌, update, length, any, keep,
  has-append, any-append, is_empty, ==_refl, keep-cut, keep-append, any-keep, Distinct,
}
use parking_lot.Core.Queue.{Ptr, null, next_of, key_of, Locked, Link, at_head, at_next, unlink}
use parking_lot.Core.Queue.Cursor.{
  IsQueue, Cursor, Cursor-start, Cursor-stop, Cursor-next, Cursor-unlink,
}
use parking_lot.Core.Queue.Frames.{waits, Frames, unlink-Frames}
use parking_lot.Core.Lot.{Lot, home, lock_bucket, unlock_bucket, timed_out, unparked}
use parking_lot.Core.Lot.Find.{more_lem}
use parking_lot.Core.Lot.Table.{IsLot, view, Shrinks, Shrinks-IsLot, view_after}
use parking_lot.Core.Lot.Timeout.{timeout_loop, called, park_timeout_at}

-- The loop has taken `me` out of the queue `xs`.
pub record Left (me key : ℕ) (l : Locked) (xs : List Ptr) (l' : Locked) (was_last : Bool)
    : Type 0 where
  pub pre : List Ptr
  pub post : List Ptr
  pub whole : xs ≡ pre ++ me ∷ post
  pub queue : IsQueue l'.memory l'.bucket (pre ++ post)
  pub frames : Frames pre l.memory l'.memory
  pub last : was_last ≡ not (any (waits l.memory key) (pre ++ post))

module _ (me key : ℕ) (l : Locked) where
  timeout_loop-Left :
      (f : ℕ) (link : Link) (current previous : Ptr) (pre rest : List Ptr)
      → Cursor l link current previous pre rest
      → me ∈ rest
      → length rest < f
      → (l' : Locked) × (was_last : Bool) × (timeout_loop f me key link current previous
            (not (any (waits l.memory key) pre))
            l
          ≡ some (l', some was_last))
        × Left me key l (pre ++ rest) l' was_last
  unfolding timeout_loop
  timeout_loop-Left zero link current previous pre rest c m h = absurd (omega arith)
  timeout_loop-Left (suc f) link current previous pre [] c m h = absurd (cc)
  timeout_loop-Left (suc f) link current previous pre (x ∷ rest) c m h =
      elim (Bool-cases (current == me)) [
        | inl e ↦ (
          unlink link previous current (next_of l.memory current) l,
          not (any (waits l.memory key) pre) && not (any (waits l.memory key) rest),
          rw (nonnull, e, more_lem key l f link current previous pre x rest c (omega arith)),
          record {
            pre = pre;
            post = rest;
            whole = let q : x ≡ me = ground (arith, c.back.0) in rw q;
            queue = Cursor-stop _ pre rest (Cursor-unlink l link current previous x rest pre c);
            frames = unlink-Frames l (next_of l.memory current) pre (x ∷ rest) c;
            last = ground (arith, any-append (waits l.memory key) pre rest);
          },
        )
        | inr e ↦
            let (l', w, ran, left) =
              timeout_loop-Left f (at_next current) (next_of l.memory current) current
                (pre ++ x ∷ []) rest (Cursor-next l pre x rest c) (ground (arith, c.back.0))
                (omega arith) in
            (
              l',
              w,
              rw (nonnull, e) (rw (flag) ran),
              subst (λ zs. Left me key l zs l' w) (append_assoc pre (x ∷ []) rest) left,
            )
      ]
    where
      nonnull : (current == null) ≡ false
      nonnull = ground (arith, c.back.0, c.back.1)

      flag :
          (if key_of l.memory current == key then false else not (any (waits l.memory key) pre))
          ≡ not (any (waits l.memory key) (pre ++ x ∷ []))
      flag = ground (arith, any-append (waits l.memory key) pre (x ∷ []), c.back.0)

-- The thread `me` has left the queue of its key; the others are as they were, and `was_last` says
-- whether one of them still waits for that key.
pub record Expired (me : ℕ) (s : Lot) (q : ℕ → List Ptr) (s' : Lot) (q' : ℕ → List Ptr)
    (was_last : Bool) : Type 0 where
  pub table : IsLot s' q'
  pub queue :
      view s' q' (key_of s.memory me) ≡ keep (λ a. not (a == me)) (view s q (key_of s.memory me))
  pub queues : (k : ℕ) → (key_of s.memory me == k) ≡ false → view s' q' k ≡ view s q k
  pub last : was_last ≡ is_empty (view s' q' (key_of s.memory me))

module _ (me : ℕ) (s : Lot) (q : ℕ → List Ptr) (i : IsLot s q) (l : Locked) (w : Bool)
    (left : Left me
      (key_of s.memory me)
      (lock_bucket s (home s (key_of s.memory me)))
      (q (home s (key_of s.memory me)))
      l
      w) where
  abbrev key : ℕ
  key = key_of s.memory me

  abbrev b : ℕ
  b = home s key

  abbrev ys : List Ptr
  ys = left.pre ++ left.post

  left-Shrinks : Shrinks s q b l ys
  left-Shrinks = record {
    queue = left.queue;
    subset = λ a m.
        rw left.whole
          (ground (arith, has-append a left.pre left.post, has-append a left.pre (me ∷ left.post)));
    outside = λ a m.
        let out : a ∉ left.pre =
          ground (arith, left.whole, has-append a left.pre (me ∷ left.post)) in
        ground (arith, left.frames.outside a out);
    keys = left.frames.keys;
  }

  queue_after :
      view (unlock_bucket s b l) (update q b ys) key ≡ keep (λ a. not (a == me)) (view s q key)
  queue_after =
      view_after s q b l ys i left-Shrinks key
      ∙ rw (==_refl b, left.whole)
          (keep-cut (waits s.memory key) me left.pre left.post
            (subst Distinct left.whole (i.queue b).distinct))

  queues_after :
      (k : ℕ) → (key == k) ≡ false → view (unlock_bucket s b l) (update q b ys) k ≡ view s q k
  queues_after k ne = view_after s q b l ys i left-Shrinks k ∙ elim (Bool-cases (b == home s k)) [
    | inl e ↦
        let f : home s k ≡ b = ground arith in
        rw (e, f, left.whole)
          (ground (
            arith,
            keep-append (waits s.memory k) left.pre left.post,
            keep-append (waits s.memory k) left.pre (me ∷ left.post),
          ))
    | inr e ↦ rw e
  ]

  left-Expired : Expired me s q (unlock_bucket s b l) (update q b ys) w
  left-Expired = record {
    table = Shrinks-IsLot s q b l ys i left-Shrinks;
    queue = queue_after;
    queues = queues_after;
    last =
        left.last
        ∙ (ap not (any-keep (waits s.memory key) ys)
            ∙ (not_not _
                ∙ ap is_empty (sym (view_after s q b l ys i left-Shrinks key ∙ rw (==_refl b)))));
  }
    where
      not_not : (t : Bool) → not (not t) ≡ t
      not_not t = ground arith

-- On a well-formed table in which the thread `me` is parked, `park` ends when its deadline has
-- passed, with fuel for the threads of the bucket. If the thread has been unparked in the meantime
-- it answers `Unparked` with the token and changes nothing. Otherwise it answers `TimedOut`: the
-- thread has left the queue of its key, the other threads of that queue and the queues of all other
-- keys stay as they were, the callback is told whether it was the last thread with that key, and
-- the table is well formed.
pub park_timeout-Expired :
    {S : Type 0} (timed_out_callback : ℕ → Bool → S → S) (fuel me : ℕ) (s : Lot) (c : S)
    (q : ℕ → List Ptr)
    → IsLot s q
    → length (q (home s (key_of s.memory me))) < fuel
    → ((s.memory me).parker ≡ 0
        → park_timeout_at timed_out_callback fuel me (s, c)
          ≡ some (s, c, unparked (s.memory me).unpark_token))
      × ((s.memory me).parker ≢ 0
          → me ∈ q (home s (key_of s.memory me))
          → (s' : Lot) × (q' : ℕ → List Ptr) × (w : Bool) × (park_timeout_at timed_out_callback fuel
                me
                (s, c)
              ≡ some (s', timed_out_callback (key_of s.memory me) w c, timed_out))
            × Expired me s q s' q' w)
unfolding park_timeout_at called
park_timeout-Expired timed_out_callback fuel me s c q i h = (
  (λ z. rw z),
  λ nz m.
      let key = key_of s.memory me in
      let l0 = lock_bucket s (home s key) in
      let e : ((s.memory me).parker == 0) ≡ false = ground arith in
      let (l, w, ran, left) =
        timeout_loop-Left me key l0 fuel at_head (s.entries (home s key)).queue_head null []
          (q (home s key)) (Cursor-start l0 (q (home s key)) (i.queue (home s key))) m h in
      (
        unlock_bucket s (home s key) l,
        update q (home s key) (left.pre ++ left.post),
        w,
        rw (e, ran),
        left-Expired me s q i l w left,
      ),
)
