-- ===== src/Sync/RawCondvar/Notify.antt =====
-- What `unpark_requeue` does for `notify_one` and `notify_all`.
use parking_lot.Prelude.{
  ℕ, ◌<◌, ◌≡◌, ◌≢◌, ◌∙◌, refl, ap, false, some, List, ◌++◌, arith, ◌==◌, ==_refl, ◌∈◌, ◌∉◌, length,
}
use mathlib.Core.List.{append-nil}
use parking_lot.Core.Queue.{Ptr}
use parking_lot.Core.Lot.{Lot, home, UnparkResult, default_result, RequeueOp, abort}
use parking_lot.Core.Lot.Table.{IsLot, view}
use parking_lot.Core.Lot.Requeue.{unpark_requeue_at}
use parking_lot.Core.Lot.Requeue.Parts.{woken, moved, left}
use parking_lot.Core.Lot.Requeue.Laws.{told, Requeues, unpark_requeue-Requeues}
use parking_lot.Sync.RawMutex.{token_normal}

-- Of the threads `zs` that wait for the condition variable, `one` is woken and `rest` are put
-- behind the threads that wait for the mutex.
pub record Notified (addr mutex : ℕ) (s : Lot) (q : ℕ → List Ptr) (one rest stay : List Ptr)
    (s' : Lot) (q' : ℕ → List Ptr) : Type 0 where
  pub waiters : view s' q' addr ≡ stay
  pub lockers : view s' q' mutex ≡ view s q mutex ++ rest
  pub queues :
      (key : ℕ) → (addr == key) ≡ false → (mutex == key) ≡ false → view s' q' key ≡ view s q key
  pub awake :
      (a : Ptr) → a ∈ one → ((s'.memory a).unpark_token ≡ token_normal) × ((s'.memory a).parker ≡ 0)
  pub asleep : (a : Ptr) → a ∉ one → (s'.memory a).parker ≡ (s.memory a).parker

module _ {S : Type 0} (now : ℕ) (callback : RequeueOp → UnparkResult → S → ℕ × S) (op : RequeueOp)
    (addr mutex : ℕ) (s : Lot) (c : S) (q : ℕ → List Ptr) (apart : addr ≢ mutex)
    (normal : (op : RequeueOp) (r : UnparkResult) (c : S) → (callback op r c).0 ≡ token_normal)
    (s' : Lot) (q' : ℕ → List Ptr) (out : Lot × S × UnparkResult)
    (h : Requeues now callback op addr mutex s c q s' q' out) where
  pub Requeues-Notified :
      Notified addr mutex s q
        (woken op (view s q addr))
        (moved op (view s q addr))
        (left op (view s q addr))
        s'
        q'
  Requeues-Notified =
      let n : (mutex == addr) ≡ false = ground arith in
      let m : (addr == mutex) ≡ false = ground arith in
      record {
        waiters = h.queues addr ∙ rw (==_refl addr, n) (append-nil _);
        lockers = h.queues mutex ∙ rw (==_refl mutex, m) refl;
        queues = λ key e f. h.queues key ∙ rw (e, f) (append-nil _);
        awake = λ a i. ((h.awake a i).0 ∙ normal op _ c, (h.awake a i).1);
        asleep = λ a o. (h.asleep a o).1;
      }

-- `unpark_requeue` once the validation has answered.
pub requeue_run :
    {S : Type 0} (now : ℕ) (validate : S → RequeueOp × S)
    (callback : RequeueOp → UnparkResult → S → ℕ × S) (fuel key_from key_to : ℕ) (s : Lot) (c : S)
    (q : ℕ → List Ptr) (op : RequeueOp) (c1 : S)
    → IsLot s q
    → length (q (home s key_from)) < fuel
    → validate c ≡ (op, c1)
    → op ≢ abort
    → (s' : Lot) × (q' : ℕ → List Ptr) × (let told = told now callback op key_from key_to s c1 q in
        unpark_requeue_at now callback validate fuel key_from key_to (s, c)
        ≡ some (s', (callback op told c1).1, told))
      × Requeues now callback op key_from key_to s c1 q s' q' (
          let told = told now callback op key_from key_to s c1 q in
          (s', (callback op told c1).1, told))
requeue_run now validate callback fuel key_from key_to s c q op c1 i h e n =
    let (out, q', ran, k) =
      rw e at (
        (unpark_requeue-Requeues now validate callback fuel key_from key_to s c q i h).1
          (rw e n)) in
    (out.0, q', ran ∙ ap some (k.result), rw (k.result) at k)

pub requeue_aborts :
    {S : Type 0} (now : ℕ) (validate : S → RequeueOp × S)
    (callback : RequeueOp → UnparkResult → S → ℕ × S) (fuel key_from key_to : ℕ) (s : Lot) (c : S)
    (q : ℕ → List Ptr) (c1 : S)
    → IsLot s q
    → length (q (home s key_from)) < fuel
    → validate c ≡ (abort, c1)
    → unpark_requeue_at now callback validate fuel key_from key_to (s, c)
      ≡ some (s, c1, default_result)
requeue_aborts now validate callback fuel key_from key_to s c q c1 i h e =
    rw e at
      ((unpark_requeue-Requeues now validate callback fuel key_from key_to s c q i h).0 (rw e refl))
