-- ===== src/Core/Lot/Requeue/Rounds.antt =====
-- What rounds of the loop of `unpark_requeue` do together.
use mathlib.Core.List.{append_assoc}
use parking_lot.Prelude.{
  ℕ, ◌+◌, ◌≡◌, ◌∙◌, refl, Bool, true, false, ◌||◌, Option, none, some, List, [], ◌∷◌, ◌++◌, arith,
  if◌then◌else◌, ◌∈◌, ◌∉◌, has, length, length-append, is_empty, has-append,
}
use parking_lot.Core.Queue.{Ptr, next_of, key_of}
use parking_lot.Core.Queue.Cursor.{IsQueue}
use parking_lot.Core.Lot.Requeue.{Moving, is_none}
use parking_lot.Core.Lot.Requeue.Chain.{IsChain}

abbrev pub chosen : Option Ptr → List Ptr → Option Ptr
chosen (some p) xs = some p
chosen none [] = none
chosen none (x ∷ xs) = some x

pub chosen-nil : (o : Option Ptr) → o ≡ chosen o []
chosen-nil (some p) = refl
chosen-nil none = refl

pub none_of : (o : Option Ptr) → is_none o ≡ true → o ≡ none
none_of (some p) e = cc
none_of none e = refl

pub chosen-append :
    (o : Option Ptr) (xs ys : List Ptr) → chosen (chosen o xs) ys ≡ chosen o (xs ++ ys)
chosen-append (some p) xs ys = refl
chosen-append none [] ys = refl
chosen-append none (x ∷ xs) ys = refl

-- The rounds from `st` to `st'` on `rest`, behind `pre`, leave `stay` of it, choose the first of
-- `wk` for the wake-up, and put the threads `mv` behind those requeued before, `zs`.
pub record Moved (key_to : ℕ) (st st' : Moving) (pre rest zs stay wk mv : List Ptr) (more : Bool)
    : Type 0 where
  pub queue : IsQueue st'.locked.memory st'.locked.bucket (pre ++ stay)
  pub chain : IsChain st'.locked.memory st'.requeue_threads st'.requeue_threads_tail (zs ++ mv)
  pub keys :
      (a : Ptr)
      → key_of st'.locked.memory a ≡ (if has a mv then key_to else key_of st.locked.memory a)
  pub outside :
      (a : Ptr)
      → a ∉ pre
      → a ∉ rest
      → a ∉ zs
      → next_of st'.locked.memory a ≡ next_of st.locked.memory a
  pub fields :
      (a : Ptr)
      → st'.locked.memory a ≡ record (st.locked.memory a) {
        key = key_of st'.locked.memory a;
        next_in_queue = next_of st'.locked.memory a;
      }
  pub fair : st'.locked.bucket.fair_timeout ≡ st.locked.bucket.fair_timeout
  pub wakeup : st'.wakeup_thread ≡ chosen st.wakeup_thread wk
  pub result : st'.result ≡ record st.result {
    unparked_threads = if is_empty wk then st.result.unparked_threads else 1;
    requeued_threads = st.result.requeued_threads + length mv;
    have_more_threads = st.result.have_more_threads || more;
  }

-- The end of the loop of an operation that takes one thread.
pub Moved-stop :
    (key_to : ℕ) (st st' : Moving) (pre rest zs stay wk mv : List Ptr) (more : Bool)
    → Moved key_to st st' pre rest zs stay wk mv false
    → Moved key_to st
        (if more
          then record st' { result = record st'.result { have_more_threads = true } }
          else st')
        pre
        rest
        zs
        stay
        wk
        mv
        more
Moved-stop key_to st st' pre rest zs stay wk mv false h = h
Moved-stop key_to st st' pre rest zs stay wk mv true h = record {
  queue = h.queue;
  chain = h.chain;
  keys = h.keys;
  outside = h.outside;
  fields = h.fields;
  fair = h.fair;
  wakeup = h.wakeup;
  result = rw (h.result) (ground arith);
}

empty-append :
    (xs ys : List Ptr) (n : ℕ)
    → (if is_empty ys then (if is_empty xs then n else 1) else 1)
      ≡ (if is_empty (xs ++ ys) then n else 1)
empty-append [] ys n = refl
empty-append (x ∷ xs) [] n = refl
empty-append (x ∷ xs) (y ∷ ys) n = refl

-- A round that passes `x`.
pub Moved-pass :
    (key_to : ℕ) (st st' : Moving) (pre : List Ptr) (x : Ptr) (rest zs stay wk mv : List Ptr)
    (more : Bool)
    → Moved key_to st st' (pre ++ x ∷ []) rest zs stay wk mv more
    → Moved key_to st st' pre (x ∷ rest) zs (x ∷ stay) wk mv more
Moved-pass key_to st st' pre x rest zs stay wk mv more h = record {
  queue = rw (append_assoc pre (x ∷ []) stay) at (h.queue);
  chain = h.chain;
  keys = h.keys;
  outside = λ a o p q. ground (arith, h.outside a, has-append a pre (x ∷ []));
  fields = h.fields;
  fair = h.fair;
  wakeup = h.wakeup;
  result = h.result;
}

-- A round that takes `x`, and the rounds behind it.
module _ (key_to : ℕ) (st st1 st2 : Moving) (pre : List Ptr) (x : Ptr)
    (rest zs stay wk1 mv1 wk2 mv2 : List Ptr) (more : Bool) where
  pub Moved-then :
      Moved key_to st st1 pre (x ∷ rest) zs rest wk1 mv1 false
      → ((a : Ptr) → a ∈ mv1 → a ≡ x)
      → Moved key_to st1 st2 pre rest (zs ++ mv1) stay wk2 mv2 more
      → Moved key_to st st2 pre (x ∷ rest) zs stay (wk1 ++ wk2) (mv1 ++ mv2) more
  Moved-then h only k = record {
    queue = k.queue;
    chain = rw (append_assoc zs mv1 mv2) at (k.chain);
    keys = λ a. k.keys a ∙ ground (arith, h.keys a, has-append a mv1 mv2);
    outside = λ a o p q. ground (arith, h.outside a, k.outside a, only a, has-append a zs mv1);
    fields = λ a. ground (arith, h.fields a, k.fields a);
    fair = k.fair ∙ h.fair;
    wakeup = rw (k.wakeup, h.wakeup) (chosen-append st.wakeup_thread wk1 wk2);
    result =
        rw (k.result, h.result, empty-append wk1 wk2 st.result.unparked_threads)
          (ground (arith, length-append mv1 mv2));
  }
