-- ===== src/Core/Lot/Requeue/Finish.antt =====
-- The end of `unpark_requeue`: the draw of the fairness and the wake-up.
use parking_lot.Prelude.{ℕ, ◌≡◌, refl, Bool, false, none, some, [], ◌∷◌, arith, ◌∈◌, ◌∉◌}
use parking_lot.Core.FairTimeout.{should_timeout}
use parking_lot.Core.Queue.{Ptr}
use parking_lot.Core.Lot.{Lot, lock_bucket, UnparkResult, draw_fair, unlock_bucket, RequeueOp, wake}
use parking_lot.Core.Lot.Table.{Alike}
use parking_lot.Core.Lot.Requeue.{Moving, finish_requeue}

-- The table after a wake-up with its draw of the fairness.
abbrev pub woken_table : (now from : ℕ) → Ptr → (token : ℕ) → Lot → Lot
woken_table now from x token s =
    let t = unlock_bucket s from (draw_fair now (lock_bucket s from)).1 in
    record t { memory = wake x token t.memory }

pub woken-Alike :
    (now from : ℕ) (x : Ptr) (token : ℕ) (s : Lot) → Alike s (woken_table now from x token s)
woken-Alike now from x token s = record {
  next = λ a. ground arith;
  keys = λ a. ground arith;
  heads = λ b. ground arith;
  tails = λ b. ground arith;
  bits = refl;
}

pub woken-awake :
    (now from : ℕ) (x : Ptr) (token : ℕ) (s : Lot) (a : Ptr)
    → a ∈ (x ∷ [])
    → let m = (woken_table now from x token s).memory in
      ((m a).unpark_token ≡ token) × ((m a).parker ≡ 0)
woken-awake now from x token s a i = ground arith

pub woken-asleep :
    (now from : ℕ) (x : Ptr) (token : ℕ) (s : Lot) (a : Ptr)
    → a ∉ (x ∷ [])
    → let m = (woken_table now from x token s).memory in
      ((m a).unpark_token ≡ (s.memory a).unpark_token) × ((m a).parker ≡ (s.memory a).parker)
woken-asleep now from x token s a o = ground arith

module _ {S : Type 0} (now : ℕ) (callback : RequeueOp → UnparkResult → S → ℕ × S) (op : RequeueOp)
    (from : ℕ) (st : Moving) (s : Lot) (c : S) (r : UnparkResult) where
  pub finish_none :
      st.result ≡ r
      → r.unparked_threads ≡ 0
      → st.wakeup_thread ≡ none
      → finish_requeue now callback op from st (s, c) ≡ (s, (callback op r c).1, r)
  unfolding finish_requeue
  finish_none e n w = rw (e, n, w) refl

  pub finish_one :
      (x : Ptr) (requeued_threads : ℕ) (more : Bool)
      → let result : Bool → UnparkResult = λ b. record {
        unparked_threads = 1;
        requeued_threads = requeued_threads;
        have_more_threads = more;
        be_fair = b;
      } in
        st.result ≡ result false
        → r ≡ result (should_timeout now (s.entries from).fair_timeout).0
        → st.wakeup_thread ≡ some x
        → finish_requeue now callback op from st (s, c)
          ≡ (woken_table now from x (callback op r c).0 s, (callback op r c).1, r)
  unfolding finish_requeue
  finish_one x requeued_threads more e f w = rw (e, f, w) refl
