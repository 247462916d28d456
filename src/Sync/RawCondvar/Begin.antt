-- ===== src/Sync/RawCondvar/Begin.antt =====
-- The start of a wait: the thread joins the condition variable's queue and unlocks the mutex.
use parking_lot.Prelude.{
  ℕ, suc, ◌<◌, ◌≡◌, ◌≢◌, ◌∙◌, refl, sym, inl, inr, ◌⊎◌, Bool, true, false, some, List, [], ◌∷◌,
  ◌++◌, arith, ◌==◌, Bool-cases, ==_refl, ◌∉◌, is_empty, length, has-keep_by,
}
use parking_lot.Core.Queue.{Ptr, null}
use parking_lot.Core.Queue.Frames.{waits}
use parking_lot.Core.Lot.{Lot, home}
use parking_lot.Core.Lot.Table.{view}
use parking_lot.Core.Lot.Park.{Joined, park_start-Joined}
use parking_lot.Sync.RawMutex.{locked_bit}
use parking_lot.Sync.RawCondvar.{
  Shared, Waiting, panics, sleeps, ends, begun, park_token, wait_validate, start_waiting, wait_end,
  wait_begin,
}
use parking_lot.Sync.RawCondvar.Invariant.{IsCondvar}
use parking_lot.Sync.RawCondvar.Unlock.{Passed, Unlocks, mutex_unlock-Unlocks}

empty_snoc : (xs : List Ptr) (x : Ptr) → is_empty (xs ++ x ∷ []) ≡ false
empty_snoc [] x = refl
empty_snoc (y ∷ xs) x = refl

module _ (mutex : Ptr) (c : Shared) where
  validate_good :
      (c.state ≡ null) ⊎ (c.state ≡ mutex)
      → wait_validate mutex (start_waiting c) ≡ (true, start_waiting (record c { state = mutex }))
  unfolding wait_validate
  validate_good (inl e) = rw e refl
  validate_good (inr e) =
      rw (sym e, ==_refl c.state)
        (elim (Bool-cases (c.state == null)) [ inl f ↦ rw f refl | inr f ↦ rw f refl ])

  validate_bad :
      c.state ≢ null
      → c.state ≢ mutex
      → wait_validate mutex (start_waiting c)
        ≡ (false, record (start_waiting c) { bad_mutex = true })
  unfolding wait_validate
  validate_bad n m = ground arith

-- The thread `me` is asleep in the condition variable's queue, behind those that waited before, and
-- has unlocked `mutex` (from the table `s1` of the time between).
pub record Sleeps (me addr mutex : ℕ) (s : Lot) (c : Shared) (q : ℕ → List Ptr) (s' : Lot)
    (w : Waiting) (q' : ℕ → List Ptr) : Type 0 where
  pub condvar : IsCondvar addr s' q' w.shared
  pub queue : view s' q' addr ≡ view s q addr ++ me ∷ []
  pub asleep : (s'.memory me).parker ≡ 1
  pub state : w.shared.state ≡ mutex
  pub queues : (k : ℕ) → (addr == k) ≡ false → (mutex == k) ≡ false → view s' q' k ≡ view s q k
  pub words : (k : Ptr) → (mutex == k) ≡ false → w.shared.words k ≡ c.words k
  pub released :
      (c.words mutex ≡ locked_bit) ⊎ (view s q mutex ≡ [])
      → (w.shared.words mutex ≡ 0) × (view s' q' mutex ≡ view s q mutex)
  pub passed :
      c.words mutex ≢ locked_bit
      → (x : Ptr) (others : List Ptr) → view s q mutex ≡ x ∷ others
      → (view s' q' mutex ≡ others)
        × ((s'.memory x).parker ≡ 0)
        × Passed (c.words mutex) (w.shared.words mutex) (s'.memory x).unpark_token others
  pub flags : (w.bad_mutex ≡ false) × (w.requeued ≡ false)

Joined-Sleeps :
    (me addr mutex : ℕ) (s : Lot) (c : Shared) (q : ℕ → List Ptr) (s1 : Lot) (q1 : ℕ → List Ptr)
    (s' : Lot) (c' : Shared) (q' : ℕ → List Ptr)
    → mutex ≢ null
    → (addr == mutex) ≡ false
    → Joined me addr s q s1 q1
    → Unlocks me mutex s1 (record c { state = mutex }) q1 s' c' q'
    → Sleeps me addr mutex s c q s' (record (start_waiting c) { shared = c' }) q'
Joined-Sleeps me addr mutex s c q s1 q1 s' c' q' some_mutex ne joined u =
    let grown : view s' q' addr ≡ view s q addr ++ me ∷ [] =
      u.queues addr (ground arith) ∙ joined.queue in
    let same : view s1 q1 mutex ≡ view s q mutex = joined.queues mutex ne in
    record {
      condvar = record {
        table = u.table;
        idle = rw (grown, u.state, empty_snoc (view s q addr) me) (ground arith);
      };
      queue = grown;
      asleep = u.sleeper ∙ joined.asleep;
      state = u.state;
      queues = λ k a m. u.queues k m ∙ joined.queues k a;
      words = u.words;
      released = rw same at u.released;
      passed = rw same at u.passed;
      flags = (refl, refl);
    }

-- A thread that is in no queue starts to wait with `mutex`, which is not at the condition
-- variable's own address; there is fuel for the threads of each bucket and one more, and no other
-- thread's step falls between the call's own. If nobody waits, or all wait with the same mutex, it
-- goes to sleep as the last thread in the condition variable's queue, whose state is then that
-- mutex, and has unlocked the mutex: if the mutex's word was just locked, or no thread is parked on
-- it, the word is 0 and its queue as it was; otherwise the oldest thread parked on it leaves its
-- queue and is awake, either with the normal token and a word that is not locked, its parked bit
-- set exactly if others are parked, or with the hand-off token and a word that is as it was, or just
-- locked if no others are parked. The words of all other mutexes and the queues of all other keys
-- are as they were. If the condition variable is in use with another mutex, the call panics, and
-- the table, the state and the words are as they were, so that the mutex has not been unlocked.
pub wait_begin-Sleeps :
    (now fuel me addr mutex : ℕ) (timeout : Bool) (s : Lot) (c : Shared) (q : ℕ → List Ptr)
    → IsCondvar addr s q c
    → me ≢ null
    → mutex ≢ null
    → (addr == mutex) ≡ false
    → ((b : ℕ) → me ∉ q b)
    → ((b : ℕ) → suc (length (q b)) < fuel)
    → (((c.state ≡ null) ⊎ (c.state ≡ mutex))
        → (s' : Lot) × (w : Waiting) × (q' : ℕ → List Ptr) × (wait_begin now fuel me addr mutex
              timeout
              (s, c)
            ≡ some (sleeps s' w))
          × Sleeps me addr mutex s c q s' w q')
      × (c.state ≢ null
          → c.state ≢ mutex
          → wait_begin now fuel me addr mutex timeout (s, c) ≡ some (ends s c panics))
unfolding wait_begin begun wait_end
wait_begin-Sleeps now fuel me addr mutex timeout s c q i nonnull some_mutex ne fresh enough =
    let (accepted, refused) =
      park_start-Joined me addr park_token timeout (wait_validate mutex) s (start_waiting c) q
        i.table nonnull fresh in
    (
      (λ good.
          let v = validate_good mutex c good in
          let (s1, q1, ran, joined) = accepted (rw v refl) in
          let apart : me ∉ view s1 q1 mutex = rw (joined.queues mutex ne) (
            ground (
              arith,
              has-keep_by me (waits s.memory mutex) (q (home s mutex)),
              fresh (home s mutex),
            )) in
          let (s', c', q', unlocked, u) =
            mutex_unlock-Unlocks now me mutex s1 (record c { state = mutex }) q1 joined.table apart
              fuel (omega (arith, joined.lengths (home s1 mutex), enough (home s1 mutex))) in
          (
            s',
            record (start_waiting c) { shared = c' },
            q',
            rw (ran, v, unlocked) refl,
            Joined-Sleeps me addr mutex s c q s1 q1 s' c' q' some_mutex ne joined u,
          )),
      λ n m. let v = validate_bad mutex c n m in rw (refused (rw v refl), v) refl,
    )
