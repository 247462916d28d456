-- ===== src/Core/Lot/Requeue/Laws.antt =====
-- `unpark_requeue` moves threads from the queue of one key to that of another.
use parking_lot.Prelude.{
  ℕ, ◌<◌, ◌≡◌, ◌≢◌, ◌∙◌, refl, inl, inr, Bool, true, false, not, ◌&&◌, some, List, [], ◌∷◌, ◌++◌,
  arith, ◌==◌, if◌then◌else◌, ◌∈◌, ◌∉◌, length, is_empty,
}
use parking_lot.Core.FairTimeout.{should_timeout}
use parking_lot.Core.Queue.{Ptr, null, Locked, at_head}
use parking_lot.Core.Queue.Cursor.{Cursor-start}
use parking_lot.Core.Queue.Frames.{waits}
use parking_lot.Core.Lot.{
  Lot, home, lock_bucket, UnparkResult, default_result, RequeueOp, abort, unpark_one_requeue_rest,
  requeue_all, unpark_one, requeue_one,
}
use parking_lot.Core.Lot.Table.{IsLot, view, Alike-IsLot, Alike-view}
use parking_lot.Core.Lot.Requeue.{
  Moving, start_moving, requeue_loop, requeued, takes_one, is_abort, finish_requeue,
  unpark_requeue_at,
}
use parking_lot.Core.Lot.Requeue.Parts.{others, woken, moved, left}
use parking_lot.Core.Lot.Requeue.Fates.{act_start, woken-cases, length-woken, more_left}
use parking_lot.Core.Lot.Requeue.Finish.{
  woken_table, woken-Alike, woken-awake, woken-asleep, finish_none, finish_one,
}
use parking_lot.Core.Lot.Requeue.Loop.{requeue_loop-Parts}
use parking_lot.Core.Lot.Requeue.Buckets.{
  Run, q2, requeued-IsLot, requeued-view, requeued-data, requeued-fair,
}

module _ {S : Type 0} (now : ℕ) (callback : RequeueOp → UnparkResult → S → ℕ × S) (op : RequeueOp)
    (key_from key_to : ℕ) (s : Lot) (c : S) (q : ℕ → List Ptr) where
  -- The threads that wait for `key_from`, oldest first.
  abbrev waiting : List Ptr
  waiting = view s q key_from

  -- What the callback is told.
  abbrev pub told : UnparkResult
  told = record {
    unparked_threads = length (woken op waiting);
    requeued_threads = length (moved op waiting);
    have_more_threads = not (is_empty (left op waiting));
    be_fair =
        not (is_empty (woken op waiting))
        && (should_timeout now (s.entries (home s key_from)).fair_timeout).0;
  }

  -- Of the threads of `key_from`, those that `left` names stay, those that `moved` names stand
  -- behind the threads of `key_to`, and the one that `woken` names is awake with the callback's
  -- token; the other queues and the other threads are as they were.
  pub record Requeues (s' : Lot) (q' : ℕ → List Ptr) (out : Lot × S × UnparkResult) : Type 0 where
    pub result : out ≡ (s', (callback op told c).1, told)
    pub table : IsLot s' q'
    pub queues :
        (key : ℕ)
        → view s' q' key
          ≡ (if key_from == key then left op waiting else view s q key)
            ++ (if key_to == key then moved op waiting else [])
    pub awake :
        (a : Ptr)
        → a ∈ woken op waiting
        → ((s'.memory a).unpark_token ≡ (callback op told c).0) × ((s'.memory a).parker ≡ 0)
    pub asleep :
        (a : Ptr)
        → a ∉ woken op waiting
        → ((s'.memory a).unpark_token ≡ (s.memory a).unpark_token)
          × ((s'.memory a).parker ≡ (s.memory a).parker)

  module _ (i : IsLot s q) (st : Moving) (more : Bool) (proceeds : op ≢ abort)
      (k : Run op key_from key_to s q i st more proceeds)
      (counted : more ≡ not (is_empty (left op waiting))) where
    abbrev s2 : Lot
    s2 = requeued (home s key_from) (home s key_to) st s

    abbrev pub out : Lot × S × UnparkResult
    out = finish_requeue now callback op (home s key_from) st (s2, c)

    counts : st.result ≡ record told { be_fair = false }
    counts = k.result ∙ rw (length-woken op waiting, counted) (ground arith)

    -- The outcome, by the thread that is woken.
    none_woken : woken op waiting ≡ [] → out ≡ (s2, (callback op told c).1, told)
    none_woken e =
        finish_none now callback op (home s key_from) st s2 c told (counts ∙ rw e refl) (rw e refl)
          (k.wakeup ∙ rw e refl)

    one_woken :
        (x : Ptr)
        → woken op waiting ≡ x ∷ []
        → out ≡ (
          woken_table now (home s key_from) x (callback op told c).0 s2,
          (callback op told c).1,
          told,
        )
    one_woken x e =
        finish_one now callback op (home s key_from) st s2 c told x (length (moved op waiting))
          (not (is_empty (left op waiting))) (counts ∙ rw e refl)
          (rw (e, requeued-fair op key_from key_to s q i st more proceeds k) refl)
          (k.wakeup ∙ rw e refl)

    table : IsLot s2 (q2 op key_from key_to s q i st more proceeds)
    table = requeued-IsLot op key_from key_to s q i st more proceeds k

    queues :
        (key : ℕ)
        → view s2 (q2 op key_from key_to s q i st more proceeds) key
          ≡ (if key_from == key then left op waiting else view s q key)
            ++ (if key_to == key then moved op waiting else [])
    queues = requeued-view op key_from key_to s q i st more proceeds k

    data_of :
        (a : Ptr)
        → ((s2.memory a).unpark_token ≡ (s.memory a).unpark_token)
          × ((s2.memory a).parker ≡ (s.memory a).parker)
    data_of = requeued-data op key_from key_to s q i st more proceeds k

    out-Requeues : Requeues out.0 (q2 op key_from key_to s q i st more proceeds) out
    out-Requeues = elim (woken-cases op waiting) [
      | inl e ↦ rw (none_woken e) (record {
        result = refl;
        table = table;
        queues = queues;
        awake = λ a m. (let m' : false ≡ true = rw e at m in absurd (cc));
        asleep = λ a m. data_of a;
      })
      | inr (x, e) ↦ rw (one_woken x e) (record {
        result = refl;
        table =
            Alike-IsLot s2 _ (q2 op key_from key_to s q i st more proceeds)
              (woken-Alike now (home s key_from) x (callback op told c).0 s2) table;
        queues = λ key.
            Alike-view s2 _ (q2 op key_from key_to s q i st more proceeds)
              (woken-Alike now (home s key_from) x (callback op told c).0 s2) key
            ∙ queues key;
        awake = λ a m. woken-awake now (home s key_from) x (callback op told c).0 s2 a (rw e at m);
        asleep = λ a m.
            let (t, u) =
              woken-asleep now (home s key_from) x (callback op told c).0 s2 a (rw e at m) in
            (t ∙ (data_of a).0, u ∙ (data_of a).1);
      })
    ]

proceeds-is_abort : (op : RequeueOp) → op ≢ abort → is_abort op ≡ false
proceeds-is_abort abort n = absurd (n refl)
proceeds-is_abort unpark_one_requeue_rest n = refl
proceeds-is_abort requeue_all n = refl
proceeds-is_abort unpark_one n = refl
proceeds-is_abort requeue_one n = refl

loop_runs :
    (op : RequeueOp) (key_from key_to : ℕ) (s : Lot) (q : ℕ → List Ptr) (i : IsLot s q)
    (n : op ≢ abort) (fuel : ℕ)
    → length (q (home s key_from)) < fuel
    → (st : Moving) × (requeue_loop op key_from key_to fuel at_head
          (s.entries (home s key_from)).queue_head
          null
          (start_moving (lock_bucket s (home s key_from)))
        ≡ some st)
      × Run op key_from key_to s q i st
          (takes_one op && not (is_empty (others (view s q key_from))))
          n
loop_runs op key_from key_to s q i n fuel h =
    let l : Locked = lock_bucket s (home s key_from) in
    let (st, ran, parts) =
      requeue_loop-Parts op key_from key_to (waits s.memory key_from) n fuel at_head
        l.bucket.queue_head null [] (q (home s key_from)) [] (start_moving l)
        (Cursor-start l (q (home s key_from)) (i.queue (home s key_from))) refl tt (λ a m. cc)
        (λ a m. refl) h in
    (st, ran, rw (act_start op) at parts)

-- On a well-formed table with fuel for the threads of the bucket, `unpark_requeue` ends. If the
-- validation answers `Abort`, the table is not touched and the callback does not run. Otherwise,
-- of the threads that wait for `key_from`: `UnparkOne` wakes the oldest and leaves the others;
-- `RequeueOne` moves the oldest and leaves the others; `UnparkOneRequeueRest` wakes the oldest and
-- moves the others; `RequeueAll` moves all of them. The moved threads stand in their order behind
-- those that wait for `key_to`, the queues of all other keys are as they were, and the table is
-- well formed, also where the two keys share a bucket. The woken thread has the callback's token,
-- no other thread is woken, and the callback is told both numbers, whether threads are left and
-- whether the bucket's timer asks for fairness.
pub unpark_requeue-Requeues :
    {S : Type 0} (now : ℕ) (validate : S → RequeueOp × S)
    (callback : RequeueOp → UnparkResult → S → ℕ × S) (fuel key_from key_to : ℕ) (s : Lot) (c : S)
    (q : ℕ → List Ptr)
    → IsLot s q
    → length (q (home s key_from)) < fuel
    → ((validate c).0 ≡ abort
        → unpark_requeue_at now callback validate fuel key_from key_to (s, c)
          ≡ some (s, (validate c).1, default_result))
      × ((validate c).0 ≢ abort
          → (out : Lot × S × UnparkResult) × (q' : ℕ → List Ptr) × (unpark_requeue_at now callback
                validate fuel key_from key_to
                (s, c)
              ≡ some out)
            × Requeues now callback (validate c).0 key_from key_to s (validate c).1 q out.0 q' out)
unfolding unpark_requeue_at
unpark_requeue-Requeues now validate callback fuel key_from key_to s c q i h = (
  (λ e. rw e refl),
  λ n.
      let e : is_abort (validate c).0 ≡ false = proceeds-is_abort (validate c).0 n in
      let (st, ran, k) = loop_runs (validate c).0 key_from key_to s q i n fuel h in
      let counted = more_left (validate c).0 (view s q key_from) n in
      (
        finish_requeue now callback (validate c).0 (home s key_from) st
            (requeued (home s key_from) (home s key_to) st s, (validate c).1),
        q2 (validate c).0 key_from key_to s q i st
            (takes_one (validate c).0 && not (is_empty (others (view s q key_from)))) n,
        rw (e, ran) refl,
        out-Requeues now callback (validate c).0 key_from key_to s (validate c).1 q i st _ n k
            counted,
      ),
)
