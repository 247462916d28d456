-- ===== src/Sync/RawCondvar/NotifyOne.antt =====
-- `notify_one`.
use parking_lot.Prelude.{
  ℕ, ◌+◌, ◌<◌, ◌≡◌, ◌≢◌, ◌∙◌, refl, sym, ap, inl, inr, Bool, true, false, not, some, List, [], ◌∷◌,
  arith, ◌==◌, if◌then◌else◌, Bool-cases, ==_refl, is_empty, length, update, has_bit, set_bit,
}
use parking_lot.Core.Queue.{Ptr, null}
use parking_lot.Core.Lot.{Lot, home, RequeueOp, abort, unpark_one, requeue_one}
use parking_lot.Core.Lot.Table.{view}
use parking_lot.Core.Lot.Requeue.Parts.{first, others, woken, moved, left}
use parking_lot.Sync.RawMutex.{locked_bit, parked_bit}
use parking_lot.Sync.RawMutex.Marking.{mark_parked_if_locked}
use parking_lot.Sync.RawCondvar.{Shared, notify_one_validate, notify_one_callback, notify_one_slow}
use parking_lot.Sync.RawCondvar.Invariant.{IsCondvar}
use parking_lot.Sync.RawCondvar.Notify.{Notified, Requeues-Notified, requeue_run, requeue_aborts}

module _ (now fuel addr mutex : ℕ) (s : Lot) (c : Shared) (q : ℕ → List Ptr) where
  abbrev zs : List Ptr
  zs = view s q addr

  abbrev locked : Bool
  locked = has_bit locked_bit (c.words mutex)

  -- What `notify_one` does to the condition variable's state and the mutex.
  pub record NotifiedOne (s' : Lot) (c' : Shared) (q' : ℕ → List Ptr) : Type 0 where
    pub condvar : IsCondvar addr s' q' c'
    pub threads :
        Notified addr mutex s q
          (if locked then [] else first zs)
          (if locked then first zs else [])
          (others zs)
          s'
          q'
    pub state : c'.state ≡ (if is_empty (others zs) then null else mutex)
    pub word :
        c'.words mutex ≡ (if locked then set_bit parked_bit (c.words mutex) else c.words mutex)
    pub words : (m : ℕ) → (mutex == m) ≡ false → c'.words m ≡ c.words m

length-first : (xs : List Ptr) → is_empty xs ≡ false → length (first xs) ≡ 1
length-first [] e = absurd (cc)
length-first (x ∷ xs) e = refl

requeues_one : RequeueOp.requeue_one ≢ abort
requeues_one e = cc

unparks_one : RequeueOp.unpark_one ≢ abort
unparks_one e = cc

one_counted :
    (b : Bool) (xs : List Ptr)
    → is_empty xs ≡ false
    → not (length (if b then [] else first xs) + length (if b then first xs else []) == 0) ≡ true
one_counted true xs e = rw (length-first xs e) refl
one_counted false xs e = rw (length-first xs e) refl

-- The condition variable after the callback of `notify_one`.
abbrev clear_if : (empty : Bool) → Shared → Shared
clear_if empty c = if not (not empty) then record c { state = null } else c

clear_if-state : (e : Bool) (c : Shared) → (clear_if e c).state ≡ (if e then null else c.state)
clear_if-state true c = refl
clear_if-state false c = refl

clear_if-words : (e : Bool) (c : Shared) → (clear_if e c).words ≡ c.words
clear_if-words true c = refl
clear_if-words false c = refl

null_or : (m : Ptr) (e : Bool) → m ≢ null → ((if e then null else m) == null) ≡ e
null_or m e n = ground arith

module _ (mutex : Ptr) (c : Shared) where
  one_abort : c.state ≢ mutex → notify_one_validate mutex c ≡ (abort, c)
  unfolding notify_one_validate mark_parked_if_locked
  one_abort n = ground arith

  one_locked :
      c.state ≡ mutex
      → has_bit locked_bit (c.words mutex) ≡ true
      → notify_one_validate mutex c ≡ (
        requeue_one,
        record c { words = update c.words mutex (set_bit parked_bit (c.words mutex)) },
      )
  unfolding notify_one_validate mark_parked_if_locked
  one_locked e l = rw (l, e, ==_refl mutex) refl

  one_unlocked :
      c.state ≡ mutex
      → has_bit locked_bit (c.words mutex) ≡ false
      → notify_one_validate mutex c ≡ (unpark_one, c)
  unfolding notify_one_validate mark_parked_if_locked
  one_unlocked e l = rw (l, sym e, ==_refl c.state) refl

module _ (now fuel addr mutex : ℕ) (s : Lot) (c : Shared) (q : ℕ → List Ptr)
    (i : IsCondvar addr s q c) (apart : addr ≢ mutex) (some_mutex : mutex ≢ null)
    (enough : length (q (home s addr)) < fuel) where
  abbrev waiters : List Ptr
  waiters = view s q addr

  abbrev OneDone : Type 0
  OneDone =
      (s' : Lot) × (c' : Shared) × (q' : ℕ → List Ptr) × (notify_one_slow now fuel addr mutex (s, c)
        ≡ some (s', c', true))
      × NotifiedOne now fuel addr mutex s c q s' c' q'

  module _ (same : c.state ≡ mutex) where
    some_waiter : is_empty waiters ≡ false
    some_waiter = sym i.idle ∙ ground arith

    one_done :
        (op : RequeueOp) (c1 : Shared)
        → notify_one_validate mutex c ≡ (op, c1)
        → op ≢ abort
        → c1.state ≡ c.state
        → woken op waiters ≡ (if locked now fuel addr mutex s c q then [] else first waiters)
        → moved op waiters ≡ (if locked now fuel addr mutex s c q then first waiters else [])
        → left op waiters ≡ others waiters
        → c1.words mutex ≡ (
            if locked now fuel addr mutex s c q
            then set_bit parked_bit (c.words mutex)
            else c.words mutex)
        → ((m : ℕ) → (mutex == m) ≡ false → c1.words m ≡ c.words m)
        → OneDone
    unfolding notify_one_slow notify_one_callback
    one_done op c1 v n state wk mv stay word words =
        let (s', q', ran, k) =
          requeue_run now (notify_one_validate mutex) notify_one_callback fuel addr mutex s c q op
            c1 i.table enough v n in
        let threads =
          Requeues-Notified now notify_one_callback op addr mutex s c1 q apart (λ o r d. refl) s' q'
            _ k in
        let empty = is_empty (others waiters) in
        let c' : Shared = clear_if empty c1 in
        let state' : c'.state ≡ (if empty then null else mutex) =
          clear_if-state empty c1 ∙ rw (state, same) refl in
        (
          s',
          c',
          q',
          rw ran (
              rw (stay, wk, mv, one_counted (locked now fuel addr mutex s c q) waiters some_waiter)
                refl),
          record {
            condvar = record {
              table = k.table;
              idle = rw (state', threads.waiters, stay) (null_or mutex empty some_mutex);
            };
            threads = rw (wk, mv, stay) at threads;
            state = state';
            word = ap (λ f. f mutex) (clear_if-words empty c1) ∙ word;
            words = λ m e. ap (λ f. f m) (clear_if-words empty c1) ∙ words m e;
          },
        )

-- `notify_one` on a condition variable whose state was read as `mutex`. If the state is another one
-- by the time the buckets are locked, nothing changes and the answer is `false`. Otherwise some
-- thread waits and the answer is `true`: while the mutex is locked, the oldest waiter is put behind
-- the threads that wait for the mutex and the mutex's parked bit is set, with nobody woken; while
-- it is not locked, the oldest waiter is woken with the normal token and the mutex is left alone.
-- The other waiters stay in their order, the state is cleared exactly if there are none, all other
-- queues and mutexes are as they were, and the condition variable is well formed.
pub notify_one_slow-NotifiedOne :
    (now fuel addr mutex : ℕ) (s : Lot) (c : Shared) (q : ℕ → List Ptr)
    → IsCondvar addr s q c
    → addr ≢ mutex
    → mutex ≢ null
    → length (q (home s addr)) < fuel
    → (c.state ≢ mutex → notify_one_slow now fuel addr mutex (s, c) ≡ some (s, c, false))
      × (c.state ≡ mutex
          → (s' : Lot) × (c' : Shared) × (q' : ℕ → List Ptr) × (notify_one_slow now fuel addr mutex
                (s, c)
              ≡ some (s', c', true))
            × NotifiedOne now fuel addr mutex s c q s' c' q')
unfolding notify_one_slow
notify_one_slow-NotifiedOne now fuel addr mutex s c q i apart some_mutex enough = (
  (λ n.
      rw
        (requeue_aborts now (notify_one_validate mutex) notify_one_callback fuel addr mutex s c q c
          i.table enough (one_abort mutex c n))
        refl),
  λ e. elim (Bool-cases (has_bit locked_bit (c.words mutex))) [
    | inl l ↦
        one_done now fuel addr mutex s c q i apart some_mutex enough e requeue_one _
          (one_locked mutex c e l) requeues_one refl (rw l refl) (rw l refl) refl
          (rw (l, ==_refl mutex) refl) (λ m f. rw f refl)
    | inr l ↦
        one_done now fuel addr mutex s c q i apart some_mutex enough e unpark_one c
          (one_unlocked mutex c e l) unparks_one refl (rw l refl) (rw l refl) refl (rw l refl)
          (λ m f. refl)
  ],
)
