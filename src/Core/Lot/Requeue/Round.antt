-- ===== src/Core/Lot/Requeue/Round.antt =====
-- One round of the loop of `unpark_requeue` that takes its thread.
use mathlib.Core.List.{append-nil}
use parking_lot.Prelude.{
  ℕ, ◌≡◌, ◌∙◌, sym, refl, ap, inl, inr, Bool, false, not, ◌&&◌, none, some, List, [], ◌∷◌, ◌++◌,
  arith, ◌==◌, if◌then◌else◌, Bool-cases, ◌∈◌, ◌∉◌, has-append, Distinct,
}
use parking_lot.Core.Queue.{Ptr, null, Memory, next_of, key_of, Locked, Link, set_next, unlink}
use parking_lot.Core.Queue.Cursor.{Cursor, Cursor-frame, Cursor-stop, Cursor-unlink}
use parking_lot.Core.Queue.Frames.{Frames, unlink-Frames, unlink-fair}
use parking_lot.Core.Lot.{RequeueOp}
use parking_lot.Core.Lot.Requeue.{Moving, is_none, unparks, take_current, push_requeued}
use parking_lot.Core.Lot.Requeue.Parts.{woken_here, moved_here}
use parking_lot.Core.Lot.Requeue.Chain.{IsChain, IsChain-frame, IsChain-snoc, chain_tail}
use parking_lot.Core.Lot.Requeue.Rounds.{Moved, chosen-nil, none_of}

module _ (op : RequeueOp) (key_from key_to : ℕ) (st : Moving) (link : Link) (current previous : Ptr)
    (pre : List Ptr) (x : Ptr) (rest zs : List Ptr)
    (c : Cursor st.locked link current previous pre (x ∷ rest))
    (chain : IsChain st.locked.memory st.requeue_threads st.requeue_threads_tail zs)
    (distinct : Distinct zs) (apart : (a : Ptr) → a ∈ zs → a ∉ (pre ++ x ∷ rest)) where
  abbrev wakes : Bool
  wakes = unparks op && is_none st.wakeup_thread

  abbrev next : Ptr
  next = next_of st.locked.memory current

  abbrev pub taken : Moving
  taken = take_current op key_from key_to link current previous st

  abbrev after : Locked
  after = unlink link previous current next st.locked

  fr : Frames pre st.locked.memory after.memory
  fr = unlink-Frames st.locked next pre (x ∷ rest) c

  at_x : current ≡ x
  at_x = c.back.0

  cursor : Cursor after link next previous pre rest
  cursor = Cursor-unlink st.locked link current previous x rest pre c

  after-IsChain : IsChain after.memory st.requeue_threads st.requeue_threads_tail zs
  after-IsChain =
      IsChain-frame st.locked.memory after.memory _ _ zs chain
        (λ a i. ground (arith, fr.outside a, apart a, has-append a pre (x ∷ rest)))

  abbrev linked : Memory
  linked =
      if st.requeue_threads == null
      then after.memory
      else set_next st.requeue_threads_tail current after.memory

  abbrev pushed : Moving
  pushed = push_requeued key_to current (record st { locked = after })

  tail_in : (st.requeue_threads == null) ≡ false → st.requeue_threads_tail ∈ zs
  tail_in n = chain_tail st.locked.memory _ _ zs chain n

  pushed_next :
      (a : Ptr)
      → next_of pushed.locked.memory a ≡ (
          if not (st.requeue_threads == null) && (st.requeue_threads_tail == a)
          then current
          else next_of after.memory a)
  unfolding push_requeued
  pushed_next a = ground arith

  pushed_keys :
      (a : Ptr)
      → key_of pushed.locked.memory a ≡ (if a == current then key_to else key_of after.memory a)
  unfolding push_requeued
  pushed_keys a = ground arith

  pushed_fields :
      (a : Ptr)
      → pushed.locked.memory a ≡ record (after.memory a) {
        key = key_of pushed.locked.memory a;
        next_in_queue = next_of pushed.locked.memory a;
      }
  unfolding push_requeued
  pushed_fields a = ground arith

  x_out : x ∉ zs
  x_out = ground (arith, apart x, has-append x pre (x ∷ rest))

  -- The queue's threads are linked as before.
  pushed_same :
      (a : Ptr) → a ∈ (pre ++ rest) → next_of pushed.locked.memory a ≡ next_of after.memory a
  pushed_same a i =
      pushed_next a
      ∙ ground (arith, tail_in, apart a, has-append a pre rest, has-append a pre (x ∷ rest))

  pushed-Moved : Moved key_to st pushed pre (x ∷ rest) zs rest [] (x ∷ []) false
  unfolding push_requeued
  pushed-Moved = record {
    queue =
        Cursor-stop pushed.locked pre rest
          (Cursor-frame after pushed.locked.memory pre rest cursor pushed_same);
    chain = rw (sym at_x) (
        IsChain-snoc after.memory pushed.locked.memory _ _ zs current after-IsChain distinct
          (rw at_x x_out) (rw at_x (c.back.1)) pushed_next);
    keys = λ a. pushed_keys a ∙ ground (arith, fr.keys a, at_x);
    outside = λ a o p q. pushed_next a ∙ ground (arith, fr.outside a, tail_in);
    fields = λ a. pushed_fields a ∙ ground (arith, fr.fields a);
    fair = unlink-fair link previous current next st.locked;
    wakeup = chosen-nil st.wakeup_thread;
    result = ground arith;
  }

  chosen-Moved :
      st.wakeup_thread ≡ none
      → Moved key_to st
          (record st {
            locked = after;
            wakeup_thread = some current;
            result = record st.result { unparked_threads = 1 };
          })
          pre
          (x ∷ rest)
          zs
          rest
          (x ∷ [])
          []
          false
  chosen-Moved e = record {
    queue = Cursor-stop after pre rest cursor;
    chain = rw append-nil after-IsChain;
    keys = fr.keys;
    outside = λ a o p q. ap (λ d. d.next_in_queue) (fr.outside a o);
    fields = λ a. ground (arith, fr.fields a, fr.keys a);
    fair = unlink-fair link previous current next st.locked;
    wakeup = rw (e, at_x) refl;
    result = ground arith;
  }

  pub taken-Moved :
      Moved key_to st taken pre (x ∷ rest) zs rest (woken_here wakes x) (moved_here wakes x) false
  unfolding take_current
  taken-Moved = elim (Bool-cases wakes) [
    | inl e ↦ rw e (chosen-Moved (none_of st.wakeup_thread (ground arith)))
    | inr e ↦ rw e pushed-Moved
  ]

  pub taken-Cursor : Cursor taken.locked link next previous pre rest
  unfolding take_current push_requeued
  taken-Cursor = elim (Bool-cases wakes) [
    | inl e ↦ rw e cursor
    | inr e ↦ rw e (Cursor-frame after pushed.locked.memory pre rest cursor pushed_same)
  ]

  pub taken_unchosen : is_none taken.wakeup_thread ≡ (is_none st.wakeup_thread && not wakes)
  unfolding take_current push_requeued
  taken_unchosen = ground arith
