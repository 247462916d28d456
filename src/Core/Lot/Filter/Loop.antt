-- ===== src/Core/Lot/Filter/Loop.antt =====
-- The loop of `unpark_filter` takes out of the bucket's queue what the sieve takes out of the list.
use mathlib.Core.List.{append_assoc}
use parking_lot.Prelude.{
  ℕ, zero, suc, ◌<◌, ◌≡◌, ◌∙◌, refl, ap, subst, inl, inr, true, false, some, List, [], ◌∷◌, ◌++◌,
  arith, ◌==◌, Bool-cases, ◌∉◌, length, has-append,
}
use parking_lot.Core.Queue.{Ptr, null, Memory, next_of, ThreadData, Locked, Link, at_next, unlink}
use parking_lot.Core.Queue.Cursor.{IsQueue, Cursor, Cursor-stop, Cursor-next, Cursor-unlink}
use parking_lot.Core.Queue.Frames.{waits, Frames, unlink-Frames, unlink-fair}
use parking_lot.Core.Lot.{FilterOp, unpark, skip, stop}
use parking_lot.Core.Lot.Filter.{Filtered, answered, filter_round, filter_loop}
use parking_lot.Core.Lot.Filter.Sieve.{Sift, sift, sift_cong, sifted}

abbrev pub token_of : Memory → Ptr → ℕ
token_of m a = (m a).park_token

-- What the loop leaves of a bucket whose queue from here on was `rest`, behind `pre`.
pub record Kept (l : Locked) (pre rest left : List Ptr) (l' : Locked) : Type 0 where
  pub queue : IsQueue l'.memory l'.bucket (pre ++ left)
  pub fields : (a : Ptr) → l'.memory a ≡ record (l.memory a) { next_in_queue = next_of l'.memory a }
  pub outside : (a : Ptr) → a ∉ (pre ++ rest) → next_of l'.memory a ≡ next_of l.memory a
  pub fair : l'.bucket.fair_timeout ≡ l.bucket.fair_timeout

abbrev relinked : Ptr → ThreadData → ThreadData
relinked p t = record t { next_in_queue = p }

module _ {S : Type 0} (key : ℕ) (filter : ℕ → S → FilterOp × S) where
  abbrev pub sieve : Memory → List Ptr → S → Sift S
  sieve m = sift filter (waits m key) (token_of m)

  abbrev pub ended : Locked → Sift S → Filtered S
  ended l s = record {
    locked = l;
    captured = s.captured;
    threads = s.taken;
    have_more_threads = s.more;
  }

  abbrev pub Run : ℕ → Link → (current previous : Ptr) → (pre rest : List Ptr) → Locked → S → Type 0
  Run f link current previous pre rest l c =
      (l' : Locked) × (filter_loop key filter f link current previous l c
        ≡ some (ended l' (sieve l.memory rest c)))
      × Kept l pre rest (sieve l.memory rest c).left l'

  stays :
      (l : Locked) (pre rest : List Ptr) (link : Link) (current previous : Ptr)
      → Cursor l link current previous pre rest
      → Kept l pre rest rest l
  stays l pre rest link current previous k = record {
    queue = Cursor-stop l pre rest k;
    fields = λ a. refl;
    outside = λ a out. refl;
    fair = refl;
  }

  -- The current thread is passed.
  passed :
      (l l' : Locked) (pre : List Ptr) (x : Ptr) (rest left : List Ptr)
      → Kept l (pre ++ x ∷ []) rest left l'
      → Kept l pre (x ∷ rest) (x ∷ left) l'
  passed l l' pre x rest left h = record {
    queue = subst (IsQueue l'.memory l'.bucket) (append_assoc pre (x ∷ []) left) h.queue;
    fields = h.fields;
    outside = λ a out. h.outside a (rw (append_assoc pre (x ∷ []) rest) out);
    fair = h.fair;
  }

  module _ (l : Locked) (link : Link) (current previous : Ptr) (pre : List Ptr) (x : Ptr)
      (rest : List Ptr) (k : Cursor l link current previous pre (x ∷ rest)) where
    abbrev next : Ptr
    next = next_of l.memory current

    abbrev after : Locked
    after = unlink link previous current next l

    fr : Frames pre l.memory after.memory
    fr = unlink-Frames l next pre (x ∷ rest) k

    removed :
        (l' : Locked) (left : List Ptr)
        → Kept after pre rest left l'
        → Kept l pre (x ∷ rest) left l'
    removed l' left h = record {
      queue = h.queue;
      fields = λ a. h.fields a ∙ ap (relinked (next_of l'.memory a)) (fr.fields a);
      outside = λ a out.
          ground
            (arith, h.outside a, fr.outside a, has-append a pre rest, has-append a pre (x ∷ rest));
      fair = h.fair ∙ unlink-fair link previous current next l;
    }

    -- What the sieve sees is as it was.
    same : (c : S) → sieve after.memory rest c ≡ sieve l.memory rest c
    same c =
        sift_cong filter (waits l.memory key) (waits after.memory key) (token_of l.memory)
          (token_of after.memory) rest c (λ a. ap (λ n. n == key) (fr.keys a))
          (λ a. ap (λ t. t.park_token) (fr.fields a))

    nonnull : (current == null) ≡ false
    nonnull = ground (arith, k.back.0, k.back.1)

    -- The round, by what the filter answers.
    round_at :
        (op : FilterOp) (c c' : S)
        → filter (l.memory current).park_token c ≡ (op, c')
        → waits l.memory key current ≡ true
        → filter_round key filter link current previous l c
          ≡ answered op link current previous next l c'
    unfolding filter_round
    round_at op c c' e w = rw (e, w)

    round_past :
        (c : S)
        → waits l.memory key current ≡ false
        → filter_round key filter link current previous l c ≡ record {
          link = at_next current;
          previous = current;
          locked = l;
          captured = c;
          threads = [];
          more = false;
          stops = false;
        }
    unfolding filter_round
    round_past c w = rw w

    sieve_at :
        (op : FilterOp) (c c' : S)
        → filter (l.memory current).park_token c ≡ (op, c')
        → waits l.memory key current ≡ true
        → sieve l.memory (x ∷ rest) c ≡ sifted op x rest c' (sieve l.memory rest c')
    unfolding sift
    sieve_at op c c' e w = rw (← k.back.0, e, w)

    sieve_past :
        (c : S)
        → waits l.memory key current ≡ false
        → sieve l.memory (x ∷ rest) c
          ≡ (let r = sieve l.memory rest c in record r { left = x ∷ r.left })
    unfolding sift
    sieve_past c w = rw (← k.back.0, w)

    runs_at :
        (f : ℕ) (op : FilterOp) (c c' : S)
        → filter (l.memory current).park_token c ≡ (op, c')
        → waits l.memory key current ≡ true
        → Run f link next previous pre rest after c'
        → Run f (at_next current) next current (pre ++ x ∷ []) rest l c'
        → Run (suc f) link current previous pre (x ∷ rest) l c
    unfolding filter_loop answered
    runs_at f unpark c c' e w (l', ran, h) past = (
      l',
      rw (nonnull, round_at unpark c c' e w, ran, sieve_at unpark c c' e w, same c', k.back.0) refl,
      rw (sieve_at unpark c c' e w) (removed l' _ (rw (same c') at h)),
    )
    runs_at f skip c c' e w went (l', ran, h) = (
      l',
      rw (nonnull, round_at skip c c' e w, ran, sieve_at skip c c' e w) refl,
      rw (sieve_at skip c c' e w) (passed l l' pre x rest _ h),
    )
    runs_at f stop c c' e w went past = (
      l,
      rw (nonnull, round_at stop c c' e w, sieve_at stop c c' e w) refl,
      rw (sieve_at stop c c' e w) (stays l pre (x ∷ rest) link current previous k),
    )

    runs_past :
        (f : ℕ) (c : S)
        → waits l.memory key current ≡ false
        → Run f (at_next current) next current (pre ++ x ∷ []) rest l c
        → Run (suc f) link current previous pre (x ∷ rest) l c
    unfolding filter_loop
    runs_past f c w (l', ran, h) = (
      l',
      rw (nonnull, round_past c w, ran, sieve_past c w) refl,
      rw (sieve_past c w) (passed l l' pre x rest _ h),
    )

  pub filter_loop-Kept :
      (f : ℕ) (link : Link) (current previous : Ptr) (pre rest : List Ptr) (l : Locked) (c : S)
      → Cursor l link current previous pre rest
      → length rest < f
      → Run f link current previous pre rest l c
  unfolding filter_loop sift
  filter_loop-Kept zero link current previous pre rest l c k h = absurd (omega arith)
  filter_loop-Kept (suc f) link current previous pre [] l c k h =
      (l, ground (arith, k.back), stays l pre [] link current previous k)
  filter_loop-Kept (suc f) link current previous pre (x ∷ rest) l c k h =
      let next = next_of l.memory current in
      let (op, c') = filter (l.memory current).park_token c in
      let after = unlink link previous current next l in
      let taken =
        filter_loop-Kept f link next previous pre rest after c'
          (Cursor-unlink l link current previous x rest pre k) (omega arith) in
      let past : (c : S) → Run f (at_next current) next current (pre ++ x ∷ []) rest l c = λ c.
        filter_loop-Kept f (at_next current) next current (pre ++ x ∷ []) rest l c
          (Cursor-next l pre x rest k) (omega arith) in
      elim (Bool-cases (waits l.memory key current)) [
        | inl w ↦ runs_at l link current previous pre x rest k f op c c' refl w taken (past c')
        | inr w ↦ runs_past l link current previous pre x rest k f c w (past c)
      ]
