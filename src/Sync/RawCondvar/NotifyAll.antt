-- ===== src/Sync/RawCondvar/NotifyAll.antt =====
-- `notify_all`.
use parking_lot.Prelude.{
  ℕ, ◌+◌, ◌<◌, ◌≡◌, ◌≢◌, ◌∙◌, refl, sym, inl, inr, Bool, true, false, not, ◌&&◌, ◌||◌, some, List,
  [], ◌∷◌, arith, ◌==◌, if◌then◌else◌, Bool-cases, ==_refl, is_empty, length, update, has_bit,
  set_bit,
}
use parking_lot.Core.Queue.{Ptr, null}
use parking_lot.Core.Lot.{
  Lot, home, UnparkResult, RequeueOp, abort, unpark_one_requeue_rest, requeue_all,
}
use parking_lot.Core.Lot.Table.{view}
use parking_lot.Core.Lot.Requeue.Parts.{first, others, woken, moved, left}
use parking_lot.Core.Lot.Requeue.Laws.{told}
use parking_lot.Sync.RawMutex.{token_normal, locked_bit, parked_bit}
use parking_lot.Sync.RawMutex.Marking.{mark_parked_if_locked}
use parking_lot.Sync.RawCondvar.{
  Shared, notify_all_validate, notify_all_callback, notify_all_slow, is_rest,
}
use parking_lot.Sync.RawCondvar.Invariant.{IsCondvar}
use parking_lot.Sync.RawCondvar.Notify.{Notified, Requeues-Notified, requeue_run, requeue_aborts}

module _ (now fuel addr mutex : ℕ) (s : Lot) (c : Shared) (q : ℕ → List Ptr) where
  abbrev zs : List Ptr
  zs = view s q addr

  abbrev locked : Bool
  locked = has_bit locked_bit (c.words mutex)

  -- What `notify_all` does to the condition variable's state and the mutex.
  pub record NotifiedAll (s' : Lot) (c' : Shared) (q' : ℕ → List Ptr) : Type 0 where
    pub condvar : IsCondvar addr s' q' c'
    pub threads :
        Notified addr mutex s q
          (if locked then [] else first zs)
          (if locked then zs else others zs)
          []
          s'
          q'
    pub state : c'.state ≡ null
    pub word : c'.words mutex ≡ (
        if locked || not (is_empty (others zs))
        then set_bit parked_bit (c.words mutex)
        else c.words mutex)
    pub words : (m : ℕ) → (mutex == m) ≡ false → c'.words m ≡ c.words m

requeues_all : RequeueOp.requeue_all ≢ abort
requeues_all e = cc

requeues_rest : RequeueOp.unpark_one_requeue_rest ≢ abort
requeues_rest e = cc

module _ (mutex : Ptr) (c : Shared) where
  all_abort : c.state ≢ mutex → notify_all_validate mutex c ≡ (abort, c)
  unfolding notify_all_validate mark_parked_if_locked
  all_abort n = ground arith

  all_locked :
      c.state ≡ mutex
      → has_bit locked_bit (c.words mutex) ≡ true
      → notify_all_validate mutex c ≡ (
        requeue_all,
        record { state = null; words = update c.words mutex (set_bit parked_bit (c.words mutex)) },
      )
  unfolding notify_all_validate mark_parked_if_locked
  all_locked e l = rw (l, e, ==_refl mutex) refl

  all_unlocked :
      c.state ≡ mutex
      → has_bit locked_bit (c.words mutex) ≡ false
      → notify_all_validate mutex c ≡ (unpark_one_requeue_rest, record c { state = null })
  unfolding notify_all_validate mark_parked_if_locked
  all_unlocked e l = rw (l, sym e, ==_refl c.state) refl

all_counted :
    (b : Bool) (xs : List Ptr)
    → length (if b then [] else first xs) + length (if b then xs else others xs) ≡ length xs
all_counted true xs = ground arith
all_counted false [] = refl
all_counted false (x ∷ xs) = ground arith

-- The condition variable after the callback of `notify_all`.
module _ (mutex : Ptr) (op : RequeueOp) (r : UnparkResult) (c : Shared) where
  abbrev marked : Bool
  marked = is_rest op && not (r.requeued_threads == 0)

  called-state : (notify_all_callback mutex op r c).1.state ≡ c.state
  unfolding notify_all_callback
  called-state = ground arith

  called-word :
      (notify_all_callback mutex op r c).1.words mutex
      ≡ (if marked then set_bit parked_bit (c.words mutex) else c.words mutex)
  unfolding notify_all_callback
  called-word = elim (Bool-cases marked) [ inl e ↦ rw (e, ==_refl mutex) refl | inr e ↦ rw e refl ]

  called-words :
      (m : ℕ) → (mutex == m) ≡ false → (notify_all_callback mutex op r c).1.words m ≡ c.words m
  unfolding notify_all_callback
  called-words m f = ground arith

  called-token : (notify_all_callback mutex op r c).0 ≡ token_normal
  unfolding notify_all_callback
  called-token = refl

empty_length : (xs : List Ptr) → (length xs == 0) ≡ is_empty xs
empty_length [] = refl
empty_length (x ∷ xs) = ground arith

module _ (now fuel addr mutex : ℕ) (s : Lot) (c : Shared) (q : ℕ → List Ptr)
    (i : IsCondvar addr s q c) (apart : addr ≢ mutex)
    (enough : length (q (home s addr)) < fuel) where
  abbrev waiters : List Ptr
  waiters = view s q addr

  abbrev is_locked : Bool
  is_locked = locked now fuel addr mutex s c q

  all_done :
      (op : RequeueOp) (c1 : Shared)
      → notify_all_validate mutex c ≡ (op, c1)
      → op ≢ abort
      → c1.state ≡ null
      → woken op waiters ≡ (if is_locked then [] else first waiters)
      → moved op waiters ≡ (if is_locked then waiters else others waiters)
      → left op waiters ≡ []
      → (if is_rest op && not (length (moved op waiters) == 0)
          then set_bit parked_bit (c1.words mutex)
          else c1.words mutex)
        ≡ (if is_locked || not (is_empty (others waiters))
            then set_bit parked_bit (c.words mutex)
            else c.words mutex)
      → ((m : ℕ) → (mutex == m) ≡ false → c1.words m ≡ c.words m)
      → (s' : Lot) × (c' : Shared) × (q' : ℕ → List Ptr) × (notify_all_slow now fuel addr mutex
            (s, c)
          ≡ some (s', c', length waiters))
        × NotifiedAll now fuel addr mutex s c q s' c' q'
  unfolding notify_all_slow
  all_done op c1 v n state wk mv stay word words =
      let (s', q', ran, k) =
        requeue_run now (notify_all_validate mutex) (notify_all_callback mutex) fuel addr mutex s c
          q op c1 i.table enough v n in
      let r = told now (notify_all_callback mutex) op addr mutex s c1 q in
      let threads =
        Requeues-Notified now (notify_all_callback mutex) op addr mutex s c1 q apart
          (called-token mutex) s' q' _ k in
      let state' = called-state mutex op r c1 ∙ state in
      (
        s',
        (notify_all_callback mutex op r c1).1,
        q',
        rw (ran, wk, mv, all_counted is_locked waiters) refl,
        record {
          condvar = record { table = k.table; idle = rw (state', threads.waiters, stay) refl };
          threads = rw (wk, mv, stay) at threads;
          state = state';
          word = called-word mutex op r c1 ∙ word;
          words = λ m e. called-words mutex op r c1 m e ∙ words m e;
        },
      )

-- `notify_all` on a condition variable whose state was read as `mutex`. If the state is another one
-- by the time the buckets are locked, nothing changes and the answer is 0. Otherwise the answer is
-- the number of waiters and the state is cleared: while the mutex is locked, all waiters are put
-- behind the threads that wait for the mutex and nobody is woken; while it is not locked, the
-- oldest is woken with the normal token and the others are put there. The order of the waiters is
-- kept, the mutex's parked bit is set if it was locked or if a thread was put there, all other
-- queues and mutexes are as they were, and the condition variable is well formed.
pub notify_all_slow-NotifiedAll :
    (now fuel addr mutex : ℕ) (s : Lot) (c : Shared) (q : ℕ → List Ptr)
    → IsCondvar addr s q c
    → addr ≢ mutex
    → length (q (home s addr)) < fuel
    → (c.state ≢ mutex → notify_all_slow now fuel addr mutex (s, c) ≡ some (s, c, 0))
      × (c.state ≡ mutex
          → (s' : Lot) × (c' : Shared) × (q' : ℕ → List Ptr) × (notify_all_slow now fuel addr mutex
                (s, c)
              ≡ some (s', c', length (view s q addr)))
            × NotifiedAll now fuel addr mutex s c q s' c' q')
unfolding notify_all_slow
notify_all_slow-NotifiedAll now fuel addr mutex s c q i apart enough = (
  (λ n.
      rw
        (requeue_aborts now (notify_all_validate mutex) (notify_all_callback mutex) fuel addr mutex
          s c q c i.table enough (all_abort mutex c n))
        refl),
  λ e. elim (Bool-cases (has_bit locked_bit (c.words mutex))) [
    | inl l ↦
        all_done now fuel addr mutex s c q i apart enough requeue_all _ (all_locked mutex c e l)
          requeues_all refl (rw l refl) (rw l refl) refl (rw (l, ==_refl mutex) refl)
          (λ m f. rw f refl)
    | inr l ↦
        all_done now fuel addr mutex s c q i apart enough unpark_one_requeue_rest _
          (all_unlocked mutex c e l) requeues_rest refl (rw l refl) (rw l refl) refl
          (rw (l, empty_length (others (view s q addr))) refl) (λ m f. refl)
  ],
)
