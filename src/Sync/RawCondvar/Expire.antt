-- ===== src/Sync/RawCondvar/Expire.antt =====
-- The end of a wait whose deadline has passed.
use parking_lot.Prelude.{
  ℕ, ◌<◌, ◌≡◌, ◌≢◌, ◌∙◌, refl, sym, inl, inr, Bool, true, false, not, ◌&&◌, some, List, [], ◌∷◌,
  arith, ◌==◌, if◌then◌else◌, Bool-cases, ◌∈◌, has-keep_by, is_empty, length,
}
use parking_lot.Core.Queue.{Ptr, null, key_of}
use parking_lot.Core.Queue.Frames.{waits}
use parking_lot.Core.Lot.{Lot, home, unparked, timed_out}
use parking_lot.Core.Lot.Table.{view}
use parking_lot.Core.Lot.Timeout.Laws.{Expired, park_timeout-Expired}
use parking_lot.Sync.RawMutex.{token_handoff}
use parking_lot.Sync.RawCondvar.{Shared, Waiting, returns, wait_timed_out, wait_end, wait_expire}
use parking_lot.Sync.RawCondvar.Invariant.{IsCondvar}

some_of_mem : (a : Ptr) (xs : List Ptr) → a ∈ xs → is_empty xs ≡ false
some_of_mem a [] m = cc
some_of_mem a (x ∷ xs) m = refl

module _ (addr key : ℕ) (l : Bool) (w : Waiting) where
  called-state :
      (wait_timed_out addr key l w).shared.state
      ≡ (if (key == addr) && l then null else w.shared.state)
  unfolding wait_timed_out
  called-state = ground arith

  called-words : (wait_timed_out addr key l w).shared.words ≡ w.shared.words
  unfolding wait_timed_out
  called-words = ground arith

  called-end :
      w.bad_mutex ≡ false
      → wait_end timed_out (wait_timed_out addr key l w) ≡ returns true (key == addr)
  unfolding wait_timed_out wait_end
  called-end e = ground arith

woken_end :
    (w : Waiting) (token : ℕ)
    → w.bad_mutex ≡ false
    → wait_end (unparked token) w ≡ returns (not (token == token_handoff)) false
unfolding wait_end
woken_end w token e = rw e refl

module _ (addr me : ℕ) (s : Lot) (w : Waiting) (q : ℕ → List Ptr) (s' : Lot) (q' : ℕ → List Ptr)
    (l : Bool) (i : IsCondvar addr s q w.shared) (queued : me ∈ q (home s (key_of s.memory me)))
    (h : Expired me s q s' q' l) where
  abbrev key : ℕ
  key = key_of s.memory me

  expired-IsCondvar : IsCondvar addr s' q' (wait_timed_out addr key l w).shared
  expired-IsCondvar = record {
    table = h.table;
    idle = rw (called-state addr key l w) (elim (Bool-cases (key == addr)) [
      | inl e ↦
          let f : addr ≡ key = ground arith in
          let waited : is_empty (view s q key) ≡ false =
            some_of_mem me (view s q key)
              (has-keep_by me (waits s.memory key) (q (home s key)) ∙ ground arith) in
          rw (e, f, sym h.last) (ground (arith, i.idle, waited))
      | inr e ↦ rw (e, h.queues addr e) i.idle
    ]);
  }

-- A thread that waits with a deadline finds that it has passed. If it has been unparked in the
-- meantime, the wait ends without a time-out, and the mutex is locked again unless the unparker
-- has handed it over. Otherwise the thread leaves the queue that it is in and locks the mutex
-- again: from the condition variable's queue, this is a time-out, and the state is cleared exactly
-- if nobody else waits; from the queue of a mutex, to which it was requeued, it is not, and the
-- state stays. The other threads' places and the mutexes' words are as they were, and the condition
-- variable is well formed.
pub wait_expire-IsCondvar :
    (fuel me addr : ℕ) (s : Lot) (w : Waiting) (q : ℕ → List Ptr)
    → IsCondvar addr s q w.shared
    → w.bad_mutex ≡ false
    → length (q (home s (key_of s.memory me))) < fuel
    → ((s.memory me).parker ≡ 0
        → wait_expire fuel me addr (s, w)
          ≡ some (s, w.shared, returns (not ((s.memory me).unpark_token == token_handoff)) false))
      × ((s.memory me).parker ≢ 0
          → me ∈ q (home s (key_of s.memory me))
          → (s' : Lot) × (c' : Shared) × (q' : ℕ → List Ptr) × (last : Bool) × (wait_expire fuel me
                addr
                (s, w)
              ≡ some (s', c', returns true (key_of s.memory me == addr)))
            × Expired me s q s' q' last
            × IsCondvar addr s' q' c'
            × (c'.state ≡ (if (key_of s.memory me == addr) && last then null else w.shared.state))
            × (c'.words ≡ w.shared.words))
unfolding wait_expire
wait_expire-IsCondvar fuel me addr s w q i good enough =
    let (awake, asleep) = park_timeout-Expired (wait_timed_out addr) fuel me s w q i.table enough in
    (
      (λ z. rw (awake z, woken_end w (s.memory me).unpark_token good) refl),
      λ n queued.
          let (s', q', l, ran, h) = asleep n queued in
          let key = key_of s.memory me in
          (
            s',
            (wait_timed_out addr key l w).shared,
            q',
            l,
            rw (ran, called-end addr key l w good) refl,
            h,
            expired-IsCondvar addr me s w q s' q' l i queued h,
            called-state addr key l w,
            called-words addr key l w,
          ),
    )
