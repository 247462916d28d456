-- ===== src/Core/Queue/Frames.antt =====
-- What a walk over the queue reads, and what a removal leaves as it was.
use parking_lot.Prelude.{
  ℕ, zero, suc, ◌<◌, ◌≡◌, refl, ◌≢◌, ◌⊎◌, inl, Bool, some, List, [], ◌∷◌, arith, ◌==◌,
  if◌then◌else◌, ◌∉◌, last_or, last_or-mem, length, any,
}
use parking_lot.Core.Queue.{
  Ptr, null, Memory, next_of, key_of, Locked, Link, at_head, at_next, unlink, scan,
}
use parking_lot.Core.Queue.Cursor.{Seg, Cursor}

abbrev pub waits : Memory → ℕ → Ptr → Bool
waits m key p = key_of m p == key

pub scan-any :
    (f key : ℕ) (m : Memory) (p : Ptr) (xs : List Ptr)
    → Seg m p xs null
    → length xs < f
    → scan f key m p ≡ some (any (waits m key) xs)
unfolding scan
scan-any zero key m p xs s h = absurd (omega arith)
scan-any (suc f) key m p [] s h = ground arith
scan-any (suc f) key m p (x ∷ xs) s h =
    let e : scan f key m (next_of m p) ≡ some (any (waits m key) xs) =
      rw s.0 (scan-any f key m (next_of m x) xs s.2 (omega arith)) in
    ground arith

-- A removal changes nothing but the `next_in_queue` of a thread of the queue.
pub record Frames (xs : List Ptr) (m n : Memory) : Type 0 where
  pub outside : (a : Ptr) → a ∉ xs → n a ≡ m a
  pub keys : (a : Ptr) → key_of n a ≡ key_of m a
  pub fields : (a : Ptr) → n a ≡ record (m a) { next_in_queue = next_of n a }

pub unlink-keys :
    (link : Link) (previous current next : Ptr) (l : Locked) (a : Ptr)
    → key_of (unlink link previous current next l).memory a ≡ key_of l.memory a
unfolding unlink
unlink-keys at_head previous current next l a = ground arith
unlink-keys (at_next p) previous current next l a = ground arith

unlink-fields :
    (link : Link) (previous current next : Ptr) (l : Locked) (a : Ptr)
    → let n = (unlink link previous current next l).memory in
      n a ≡ record (l.memory a) { next_in_queue = next_of n a }
unfolding unlink
unlink-fields at_head previous current next l a = ground arith
unlink-fields (at_next p) previous current next l a = ground arith

unlink-outside :
    (link : Link) (previous current next : Ptr) (l : Locked) (a : Ptr)
    → (link ≡ at_head) ⊎ ((link ≡ at_next previous) × (a ≢ previous))
    → (unlink link previous current next l).memory a ≡ l.memory a
unfolding unlink
unlink-outside at_head previous current next l a h = ground arith
unlink-outside (at_next p) previous current next l a h = ground arith

last-in-or-head :
    (link : Link) (previous a : Ptr) (pre : List Ptr)
    → previous ≡ last_or null pre
    → link ≡ (if previous == null then at_head else at_next previous)
    → a ∉ pre
    → (link ≡ at_head) ⊎ ((link ≡ at_next previous) × (a ≢ previous))
last-in-or-head link previous a [] e h out = inl (ground arith)
last-in-or-head link previous a (x ∷ xs) e h out = ground (arith, last_or-mem null x xs)

pub unlink-fair :
    (link : Link) (previous current next : Ptr) (l : Locked)
    → (unlink link previous current next l).bucket.fair_timeout ≡ l.bucket.fair_timeout
unfolding unlink
unlink-fair at_head previous current next l = ground arith
unlink-fair (at_next p) previous current next l = ground arith

pub unlink-Frames :
    (l : Locked) {link : Link} {current previous : Ptr} (next : Ptr) (pre rest : List Ptr)
    → Cursor l link current previous pre rest
    → Frames pre l.memory (unlink link previous current next l).memory
unlink-Frames l {link} {current} {previous} next pre rest c = record {
  outside = λ a out.
      unlink-outside link previous current next l a
        (last-in-or-head link previous a pre c.before c.here out);
  keys = unlink-keys link previous current next l;
  fields = unlink-fields link previous current next l;
}

pub any-waits :
    (m n : Memory) (key : ℕ) (xs : List Ptr)
    → ((a : Ptr) → key_of n a ≡ key_of m a)
    → any (waits n key) xs ≡ any (waits m key) xs
any-waits m n key [] same = refl
any-waits m n key (x ∷ xs) same = rw (same x, any-waits m n key xs same)
