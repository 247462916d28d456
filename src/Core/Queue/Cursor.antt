-- ===== src/Core/Queue/Cursor.antt =====
-- Where the loops of the queue stand: the chain of `next_in_queue` pointers, split at the current
-- thread.
use mathlib.Core.List.{append_assoc, append-nil}
use parking_lot.Prelude.{
  subst, ◌≡◌, ◌≢◌, refl, sym, ap, ◌∙◌, List, [], ◌∷◌, ◌++◌, arith, ◌==◌, if◌then◌else◌, ◌∉◌, ◌∈◌,
  Distinct, last_or, Distinct-append_left, Distinct-append_right, Distinct-apart, Distinct-remove,
  last_or-append, last_or-mem, has-append,
}
use parking_lot.Core.Queue.{
  Ptr, null, Memory, next_of, Bucket, Locked, Link, at_head, at_next, set_next, unlink,
}

-- From `p` the pointers lead through the threads `xs` to `q`.
abbrev pub Seg : Memory → Ptr → List Ptr → Ptr → Type 0
Seg m p [] q = p ≡ q
Seg m p (x ∷ xs) q = (p ≡ x) × (x ≢ null) × Seg m (next_of m x) xs q

-- The bucket's queue is the list `xs`, oldest thread first.
pub record IsQueue (m : Memory) (b : Bucket) (xs : List Ptr) : Type 0 where
  pub chain : Seg m b.queue_head xs null
  pub tail : b.queue_tail ≡ last_or null xs
  pub distinct : Distinct xs

pub Seg-append :
    (m : Memory) (p : Ptr) (xs : List Ptr) (q : Ptr) (ys : List Ptr) (r : Ptr)
    → Seg m p xs q
    → Seg m q ys r
    → Seg m p (xs ++ ys) r
Seg-append m p [] q ys r s t = rw s t
Seg-append m p (x ∷ xs) q ys r s t = (s.0, s.1, Seg-append m _ xs q ys r s.2 t)

Seg-cast :
    {m n : Memory} {p a : Ptr} (xs : List Ptr) (q : Ptr)
    → n ≡ m
    → a ≡ p
    → Seg m p xs q
    → Seg n a xs q
Seg-cast xs q e f s = rw (e, f) s

-- A segment only depends on the `next_in_queue` of its threads.
pub Seg-frame :
    (m n : Memory) (p : Ptr) (xs : List Ptr) (q : Ptr)
    → Seg m p xs q
    → ((a : Ptr) → a ∈ xs → next_of n a ≡ next_of m a)
    → Seg n p xs q
Seg-frame m n p [] q s same = s
Seg-frame m n p (x ∷ xs) q s same =
    (s.0, s.1, rw (same x (ground arith)) (Seg-frame m n _ xs q s.2 λ a i. same a (ground arith)))

Seg-set_next :
    (m : Memory) (p : Ptr) (xs : List Ptr) (q y r : Ptr)
    → Seg m p xs q
    → y ∉ xs
    → Seg (set_next y r m) p xs q
Seg-set_next m p xs q y r s out = Seg-frame m (set_next y r m) p xs q s λ a i. ground arith

-- Redirecting the last thread of a segment moves its end.
pub Seg-relink :
    (m : Memory) (p x : Ptr) (xs : List Ptr) (q r : Ptr)
    → Seg m p (x ∷ xs) q
    → Distinct (x ∷ xs)
    → Seg (set_next (last_or null (x ∷ xs)) r m) p (x ∷ xs) r
Seg-relink m p x [] q r s d = (s.0, s.1, ground arith)
Seg-relink m p x (y ∷ ys) q r s d = (
  s.0,
  s.1,
  subst (λ a. Seg (set_next (last_or y ys) r m) a (y ∷ ys) r) (sym (other (last_or-mem null y ys)))
      (Seg-relink m _ y ys q r s.2 d.1),
)
  where
    other : last_or y ys ∈ (y ∷ ys) → next_of (set_next (last_or y ys) r m) x ≡ next_of m x
    other i = ground arith

-- The link that leads to the thread behind `p`.
abbrev pub link_of : Ptr → Link
link_of p = if p == null then at_head else at_next p

-- The loop has passed `pre` and stands at the first of `rest`.
pub record Cursor (s : Locked) (link : Link) (current previous : Ptr) (pre rest : List Ptr)
    : Type 0 where
  pub front : Seg s.memory s.bucket.queue_head pre current
  pub back : Seg s.memory current rest null
  pub tail : s.bucket.queue_tail ≡ last_or null (pre ++ rest)
  pub distinct : Distinct (pre ++ rest)
  pub before : previous ≡ last_or null pre
  pub here : link ≡ link_of previous

pub Cursor-start :
    (s : Locked) (xs : List Ptr)
    → IsQueue s.memory s.bucket xs
    → Cursor s at_head s.bucket.queue_head null [] xs
Cursor-start s xs q = record {
  front = refl;
  back = q.chain;
  tail = q.tail;
  distinct = q.distinct;
  before = refl;
  here = refl;
}

pub Cursor-stop :
    (s : Locked) {link : Link} {current previous : Ptr} (pre rest : List Ptr)
    → Cursor s link current previous pre rest
    → IsQueue s.memory s.bucket (pre ++ rest)
Cursor-stop s {current} pre rest c = record {
  chain = Seg-append s.memory _ pre current rest null c.front c.back;
  tail = c.tail;
  distinct = c.distinct;
}

-- What keeps the `next_in_queue` of the queue's threads keeps the loop's place.
pub Cursor-frame :
    (s : Locked) (n : Memory) {link : Link} {current previous : Ptr} (pre rest : List Ptr)
    → Cursor s link current previous pre rest
    → ((a : Ptr) → a ∈ (pre ++ rest) → next_of n a ≡ next_of s.memory a)
    → Cursor (record s { memory = n }) link current previous pre rest
Cursor-frame s n {current} pre rest c same = record {
  front =
      Seg-frame s.memory n _ pre current c.front
        (λ a i. same a (ground (arith, has-append a pre rest)));
  back =
      Seg-frame s.memory n _ rest null c.back
        (λ a i. same a (ground (arith, has-append a pre rest)));
  tail = c.tail;
  distinct = c.distinct;
  before = c.before;
  here = c.here;
}

-- The loop moves on.
pub Cursor-next :
    (s : Locked) {link : Link} {current previous : Ptr} (pre : List Ptr) (x : Ptr) (rest : List Ptr)
    → Cursor s link current previous pre (x ∷ rest)
    → Cursor s (at_next current) (next_of s.memory current) current (pre ++ x ∷ []) rest
Cursor-next s {current} pre x rest c = record {
  front = Seg-append s.memory _ pre current (x ∷ []) _ c.front (c.back.0, c.back.1, rw c.back.0);
  back = rw c.back.0 c.back.2;
  tail = rw (append_assoc pre (x ∷ []) rest) c.tail;
  distinct = rw (append_assoc pre (x ∷ []) rest) c.distinct;
  before = rw (last_or-append null pre (x ∷ [])) c.back.0;
  here = ground (arith, c.back.0, c.back.1);
}

pub Seg-last_ne :
    (m : Memory) (p x : Ptr) (xs : List Ptr) (q : Ptr)
    → Seg m p (x ∷ xs) q
    → last_or null (x ∷ xs) ≢ null
Seg-last_ne m p x [] q s = s.1
Seg-last_ne m p x (y ∷ ys) q s = Seg-last_ne m _ y ys q s.2

last-remove :
    (pre : List Ptr) (x : Ptr) (rest : List Ptr)
    → Distinct (pre ++ x ∷ rest)
    → (if last_or null (pre ++ x ∷ rest) == x
        then last_or null pre
        else last_or null (pre ++ x ∷ rest))
      ≡ last_or null (pre ++ rest)
last-remove pre x [] d = rw (last_or-append null pre (x ∷ []), append-nil) (ground arith)
last-remove pre x (y ∷ ys) d = ground (
  arith,
  last_or-append null pre (x ∷ y ∷ ys),
  last_or-append null pre (y ∷ ys),
  last_or-mem null y ys,
  Distinct-append_right pre (x ∷ y ∷ ys) d,
)

unlink_tail :
    (link : Link) (previous current next : Ptr) (s : Locked)
    → (unlink link previous current next s).bucket.queue_tail
      ≡ (if s.bucket.queue_tail == current then previous else s.bucket.queue_tail)
unfolding unlink
unlink_tail at_head previous current next s = ground arith
unlink_tail (at_next p) previous current next s = ground arith

unlink_at_head :
    (previous current next : Ptr) (s : Locked)
    → let s' = unlink at_head previous current next s in
      (s'.memory ≡ s.memory) × (s'.bucket.queue_head ≡ next)
unfolding unlink
unlink_at_head previous current next s = ground arith

unlink_at_next :
    (p previous current next : Ptr) (s : Locked)
    → let s' = unlink (at_next p) previous current next s in
      (s'.memory ≡ set_next p next s.memory) × (s'.bucket.queue_head ≡ s.bucket.queue_head)
unfolding unlink
unlink_at_next p previous current next s = ground arith

-- The removal takes the current thread out of the list, and the loop stands behind it.
module _ (s : Locked) (link : Link) (current previous : Ptr) (x : Ptr) (rest : List Ptr) where
  abbrev next : Ptr
  next = next_of s.memory current

  abbrev after : Locked
  after = unlink link previous current next s

  removed_tail :
      (pre : List Ptr)
      → Cursor s link current previous pre (x ∷ rest)
      → after.bucket.queue_tail ≡ last_or null (pre ++ rest)
  removed_tail pre c =
      rw (unlink_tail link previous current _ s, c.tail, c.back.0, c.before)
        (last-remove pre x rest c.distinct)

  first : link ≡ at_head → (after.memory ≡ s.memory) × (after.bucket.queue_head ≡ next)
  first e = rw e (unlink_at_head previous current next s)

  later :
      (p : Ptr)
      → link ≡ at_next p
      → (after.memory ≡ set_next p next s.memory) × (after.bucket.queue_head ≡ s.bucket.queue_head)
  later p e = rw e (unlink_at_next p previous current next s)

  pub Cursor-unlink :
      (pre : List Ptr)
      → Cursor s link current previous pre (x ∷ rest)
      → Cursor after link next previous pre rest
  Cursor-unlink [] c =
      let e = first (ground (arith, c.here, c.before)) in
      record {
        front = e.1;
        back = Seg-cast rest null e.0 (ap (next_of s.memory) c.back.0) c.back.2;
        tail = removed_tail [] c;
        distinct = c.distinct.1;
        before = c.before;
        here = c.here;
      }
  Cursor-unlink (y ∷ ys) c =
      let e = later previous (ground (arith, c.here, c.before, nonzero)) in
      record {
        front = Seg-cast (y ∷ ys) next (e.0 ∙ ap to c.before) e.1 relinked;
        back = Seg-cast rest null (e.0 ∙ ap to c.before) refl kept;
        tail = removed_tail (y ∷ ys) c;
        distinct = Distinct-remove (y ∷ ys) x rest c.distinct;
        before = c.before;
        here = c.here;
      }
    where
      to : Ptr → Memory
      to p = set_next p next s.memory

      nonzero : last_or y ys ≢ null
      nonzero = Seg-last_ne s.memory _ y ys current c.front

      relinked :
          Seg (set_next (last_or null (y ∷ ys)) next s.memory) s.bucket.queue_head (y ∷ ys) next
      relinked =
          Seg-relink s.memory _ y ys current next c.front
            (Distinct-append_left (y ∷ ys) (x ∷ rest) c.distinct)

      apart : last_or y ys ∉ rest
      apart = ground (
        arith,
        last_or-mem null y ys,
        Distinct-apart (y ∷ ys) (x ∷ rest) (last_or y ys) c.distinct,
      )

      kept : Seg (to (last_or y ys)) next rest null
      kept =
          Seg-set_next s.memory next rest null (last_or y ys) next
            (Seg-cast {m = s.memory} rest null refl (ap (next_of s.memory) c.back.0) c.back.2) apart
