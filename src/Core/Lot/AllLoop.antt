-- ===== src/Core/Lot/AllLoop.antt =====
-- The loop of `unpark_all` takes the threads of its key out of the bucket's queue, and no others.
use mathlib.Core.List.{append_assoc}
use parking_lot.Prelude.{
  ℕ, zero, suc, ◌<◌, ◌≡◌, ◌∙◌, refl, ap, subst, inl, inr, true, false, not, ◌&&◌, some, List, [],
  ◌∷◌, ◌++◌, arith, ◌==◌, Bool-cases, Distinct-append_right, ◌∈◌, ◌∉◌, has, length, keep,
  has-append, keep_cong,
}
use parking_lot.Core.Queue.{Ptr, null, Memory, next_of, key_of, Locked, Link, at_next, unlink}
use parking_lot.Core.Queue.Cursor.{
  IsQueue, Cursor, Cursor-frame, Cursor-stop, Cursor-next, Cursor-unlink,
}
use parking_lot.Core.Queue.Frames.{waits, Frames, unlink-Frames, unlink-keys}
use parking_lot.Core.Lot.{wake, all_round, all_loop}

-- What the loop leaves of a bucket whose queue from here on is `rest`, behind `pre`.
pub record Emptied (key token : ℕ) (l : Locked) (pre rest : List Ptr) (l' : Locked) : Type 0 where
  pub queue : IsQueue l'.memory l'.bucket (pre ++ keep (λ a. not (waits l.memory key a)) rest)
  pub keys : (a : Ptr) → key_of l'.memory a ≡ key_of l.memory a
  pub outside : (a : Ptr) → a ∉ (pre ++ rest) → next_of l'.memory a ≡ next_of l.memory a
  pub woken :
      (a : Ptr)
      → a ∈ rest
      → waits l.memory key a ≡ true
      → ((l'.memory a).unpark_token ≡ token) × ((l'.memory a).parker ≡ 0)
  pub asleep :
      (a : Ptr)
      → (has a rest && waits l.memory key a) ≡ false
      → ((l'.memory a).unpark_token ≡ (l.memory a).unpark_token)
        × ((l'.memory a).parker ≡ (l.memory a).parker)

Cursor-wake :
    (l : Locked) (link : Link) (current previous : Ptr) (pre rest : List Ptr) (x token : ℕ)
    → Cursor l link current previous pre rest
    → Cursor (record l { memory = wake x token l.memory }) link current previous pre rest
Cursor-wake l link current previous pre rest x token c =
    Cursor-frame l (wake x token l.memory) pre rest c (λ a i. ground arith)

module _ (key token : ℕ) where
  removed :
      (l : Locked) (link : Link) (current previous : Ptr) (pre : List Ptr) (x : Ptr)
      (rest : List Ptr) (l' : Locked)
      → Cursor l link current previous pre (x ∷ rest)
      → waits l.memory key current ≡ true
      → (let u = unlink link previous current (next_of l.memory current) l in
          Emptied key token (record u { memory = wake current token u.memory }) pre rest l')
      → Emptied key token l pre (x ∷ rest) l'
  removed l link current previous pre x rest l' c e h = record {
    queue = rw at_x (
        subst (λ zs. IsQueue l'.memory l'.bucket (pre ++ zs))
          (keep_cong (λ a. not (waits l.memory key a)) (λ a. not (waits l2 key a)) rest
            (λ a. ap (λ k. not (k == key)) (same a)))
          h.queue);
    keys = λ a. h.keys a ∙ same a;
    outside = λ a out. ground (
      arith,
      h.outside a,
      fr.outside a,
      has-append a pre rest,
      has-append a pre (x ∷ rest),
      c.back.0,
    );
    woken = λ a i w. ground (arith, h.woken a, h.asleep a, same a, x_out, c.back.0);
    asleep = λ a n. ground (arith, h.asleep a, same a, fields a, at_x, c.back.0);
  }
    where
      after : Locked
      after = unlink link previous current (next_of l.memory current) l

      l2 : Memory
      l2 = wake current token after.memory

      fr : Frames pre l.memory after.memory
      fr = unlink-Frames l (next_of l.memory current) pre (x ∷ rest) c

      at_x : waits l.memory key x ≡ true
      at_x = ground (arith, c.back.0)

      same : (a : Ptr) → key_of l2 a ≡ key_of l.memory a
      same a = ground (arith, fr.keys a)

      fields :
          (a : Ptr)
          → ((after.memory a).unpark_token ≡ (l.memory a).unpark_token)
            × ((after.memory a).parker ≡ (l.memory a).parker)
      fields a = (ap (λ t. t.unpark_token) (fr.fields a), ap (λ t. t.parker) (fr.fields a))

      x_out : x ∉ rest
      x_out = (Distinct-append_right pre (x ∷ rest) c.distinct).0

  passed :
      (l : Locked) (link : Link) (current previous : Ptr) (pre : List Ptr) (x : Ptr)
      (rest : List Ptr) (l' : Locked)
      → Cursor l link current previous pre (x ∷ rest)
      → waits l.memory key current ≡ false
      → Emptied key token l (pre ++ x ∷ []) rest l'
      → Emptied key token l pre (x ∷ rest) l'
  passed l link current previous pre x rest l' c e h = record {
    queue = rw at_x (subst (IsQueue l'.memory l'.bucket) (append_assoc pre (x ∷ []) _) h.queue);
    keys = h.keys;
    outside = λ a out. h.outside a (rw (append_assoc pre (x ∷ []) rest) out);
    woken = λ a i w. ground (arith, h.woken a, at_x);
    asleep = λ a n. ground (arith, h.asleep a, at_x);
  }
    where
      at_x : waits l.memory key x ≡ false
      at_x = ground (arith, c.back.0)

  pub all_loop-Emptied :
      (f : ℕ) (link : Link) (current previous : Ptr) (pre rest : List Ptr) (l : Locked)
      → Cursor l link current previous pre rest
      → length rest < f
      → (l' : Locked) × (all_loop f key token link current previous l
          ≡ some (l', keep (waits l.memory key) rest))
        × Emptied key token l pre rest l'
  unfolding all_loop all_round
  all_loop-Emptied zero link current previous pre rest l c h = absurd (omega arith)
  all_loop-Emptied (suc f) link current previous pre [] l c h = (
    l,
    ground (arith, c.back),
    record {
      queue = Cursor-stop l pre [] c;
      keys = λ a. refl;
      outside = λ a out. refl;
      woken = λ a i. cc;
      asleep = λ a n. (refl, refl);
    },
  )
  all_loop-Emptied (suc f) link current previous pre (x ∷ rest) l c h =
      elim (Bool-cases (waits l.memory key current)) [
        | inl e ↦
            let (l', ran, em) =
              all_loop-Emptied f link next previous pre rest woken
                (Cursor-wake after link next previous pre rest current token
                  (Cursor-unlink l link current previous x rest pre c))
                (omega arith) in
            (
              l',
              rw (nonnull, e, ran) (ground (arith, c.back.0, cong1)),
              removed l link current previous pre x rest l' c e em,
            )
        | inr e ↦
            let (l', ran, em) =
              all_loop-Emptied f (at_next current) next current (pre ++ x ∷ []) rest l
                (Cursor-next l pre x rest c) (omega arith) in
            (
              l',
              rw (nonnull, e, ran) (ground (arith, c.back.0)),
              passed l link current previous pre x rest l' c e em,
            )
      ]
    where
      next : Ptr
      next = next_of l.memory current

      nonnull : (current == null) ≡ false
      nonnull = ground (arith, c.back.0, c.back.1)

      after : Locked
      after = unlink link previous current next l

      woken : Locked
      woken = record after { memory = wake current token after.memory }

      cong1 : keep (waits woken.memory key) rest ≡ keep (waits l.memory key) rest
      cong1 =
          keep_cong (waits l.memory key) (waits woken.memory key) rest
            λ a. ground (arith, unlink-keys link previous current next l a)
