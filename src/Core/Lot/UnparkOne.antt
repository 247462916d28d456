-- ===== src/Core/Lot/UnparkOne.antt =====
-- `unpark_one` serves the queue of its key in the order of arrival.
use parking_lot.Prelude.{
  ℕ, ◌<◌, ◌≡◌, ◌≢◌, ◌∙◌, inl, inr, Bool, false, not, some, List, [], ◌∷◌, ◌++◌, arith, ◌==◌,
  if◌then◌else◌, Bool-cases, ◌∉◌, update, length, any, keep, is_empty, any-keep, keep-eq_nil,
  has-append, ==_refl,
}
use parking_lot.Core.Queue.{Ptr, key_of, Locked}
use parking_lot.Core.Queue.Cursor.{IsQueue}
use parking_lot.Core.Queue.Frames.{waits, Frames}
use parking_lot.Core.FairTimeout.{should_timeout}
use parking_lot.Core.Lot.{
  Lot, home, lock_bucket, UnparkResult, default_result, wake, Found, found, unpark_found,
  unpark_one_at,
}
use parking_lot.Core.Lot.Find.{Search, absent, present, find_loop_lem}
use parking_lot.Core.Lot.Table.{
  IsLot, view, Shrinks, Shrinks-IsLot, view_after, IsQueue-wake, keep_oldest, keep_removed,
  keep_other,
}

module _ {S : Type 0} (now : ℕ) (callback : UnparkResult → S → ℕ × S) (key : ℕ) (s : Lot)
    (c : S) where
  -- The fairness that the bucket's timer answers.
  abbrev pub be_fair : Bool
  be_fair = (should_timeout now (s.entries (home s key)).fair_timeout).0

  abbrev pub one_unparked : Bool → UnparkResult
  one_unparked more = record {
    unparked_threads = 1;
    requeued_threads = 0;
    have_more_threads = more;
    be_fair = be_fair;
  }

  -- The oldest thread `x` of the key's queue has left it, before `others`, and is awake with the
  -- token of the callback; the queues of the other keys and the other threads are as they were.
  pub record Served (q : ℕ → List Ptr) (x : Ptr) (others : List Ptr) (s' : Lot) (q' : ℕ → List Ptr)
      (out : Lot × S × UnparkResult) : Type 0 where
    pub result : out ≡ (
      s',
      (callback (one_unparked (not (is_empty others))) c).1,
      one_unparked (not (is_empty others)),
    )
    pub table : IsLot s' q'
    pub queue : view s' q' key ≡ others
    pub queues : (k : ℕ) → (key == k) ≡ false → view s' q' k ≡ view s q k
    pub token : (s'.memory x).unpark_token ≡ (callback (one_unparked (not (is_empty others))) c).0
    pub awake : (s'.memory x).parker ≡ 0
    pub asleep : (a : Ptr) → a ≢ x → (s'.memory a).parker ≡ (s.memory a).parker

  -- What a run of `unpark_one` returns.
  pub data Unparks (q : ℕ → List Ptr) (out : Lot × S × UnparkResult) : Type 0 where
    nobody :
        view s q key ≡ [] → out ≡ (s, (callback default_result c).1, default_result) → Unparks q out
    oldest :
        (x : Ptr) (others : List Ptr) (s' : Lot) (q' : ℕ → List Ptr)
        → view s q key ≡ x ∷ others
        → Served q x others s' q' out
        → Unparks q out

module _ {S : Type 0} (now : ℕ) (callback : UnparkResult → S → ℕ × S) (key : ℕ) (s : Lot) (c : S)
    (q : ℕ → List Ptr) (pre : List Ptr) (x : Ptr) (post : List Ptr) (l : Locked) (i : IsLot s q)
    (whole : q (home s key) ≡ pre ++ x ∷ post) (first : any (waits s.memory key) pre ≡ false)
    (here : key_of s.memory x ≡ key) (queue : IsQueue l.memory l.bucket (pre ++ post))
    (fr : Frames pre s.memory l.memory)
    (fair : l.bucket.fair_timeout ≡ (s.entries (home s key)).fair_timeout) where
  abbrev others : List Ptr
  others = keep (waits s.memory key) post

  abbrev out : Lot × S × UnparkResult
  out = unpark_found now callback (s, c) (home s key) (found x (any (waits s.memory key) post) l)

  more_others : any (waits s.memory key) post ≡ not (is_empty others)
  more_others = any-keep (waits s.memory key) post

  abbrev woken : Bool → Bool → ℕ
  woken more b =
      (callback
        (record {
          unparked_threads = 1;
          requeued_threads = 0;
          have_more_threads = more;
          be_fair = b;
        })
        c).0

  abbrev left : Locked
  left = record {
    memory =
        wake x (woken (any (waits s.memory key) post) (should_timeout now l.bucket.fair_timeout).0)
          l.memory;
    bucket = record l.bucket { fair_timeout = (should_timeout now l.bucket.fair_timeout).1 };
  }

  left-Shrinks : Shrinks s q (home s key) left (pre ++ post)
  left-Shrinks = record {
    queue = IsQueue-wake l.memory l.bucket (pre ++ post) x _ _ queue;
    subset = λ a m. rw whole (ground (arith, has-append a pre post, has-append a pre (x ∷ post)));
    outside = λ a m.
        let out_pre : a ∉ pre = ground (arith, whole, has-append a pre (x ∷ post)) in
        ground (arith, fr.outside a out_pre);
    keys = λ a. ground (arith, fr.keys a);
  }

  queues_after :
      (k : ℕ) → (key == k) ≡ false → view out.0 (update q (home s key) (pre ++ post)) k ≡ view s q k
  unfolding unpark_found
  queues_after k ne = view_after s q (home s key) left (pre ++ post) i left-Shrinks k ∙ same
    where
      same :
          keep (waits s.memory k) (if home s key == home s k then pre ++ post else q (home s k))
          ≡ keep (waits s.memory k) (q (home s k))
      same = elim (Bool-cases (home s key == home s k)) [
        | inl e ↦
            let f : home s k ≡ home s key = ground arith in
            rw (e, f, whole) (keep_other s.memory key pre x post first here k ne)
        | inr e ↦ rw e
      ]

  queue_after : view out.0 (update q (home s key) (pre ++ post)) key ≡ others
  unfolding unpark_found
  queue_after =
      view_after s q (home s key) left (pre ++ post) i left-Shrinks key
      ∙ (rw (==_refl (home s key)) (keep_removed s.memory key pre x post first here))

  found-Served :
      Served now callback key s c q x others out.0 (update q (home s key) (pre ++ post)) out
  unfolding unpark_found
  found-Served = record {
    result = rw (more_others, fair);
    table = Shrinks-IsLot s q (home s key) left (pre ++ post) i left-Shrinks;
    queue = queue_after;
    queues = queues_after;
    token = rw (more_others, fair) (ground arith);
    awake = ground arith;
    asleep = λ a ne. ground (arith, fr.fields a);
  }

module _ {S : Type 0} (now : ℕ) (callback : UnparkResult → S → ℕ × S) (key : ℕ) (s : Lot) (c : S)
    (q : ℕ → List Ptr) where
  found-Unparks :
      (r : Found)
      → IsLot s q
      → Search key (lock_bucket s (home s key)) (q (home s key)) r
      → Unparks now callback key s c q (unpark_found now callback (s, c) (home s key) r)
  unfolding unpark_found
  found-Unparks r i (absent h e) = nobody (keep-eq_nil (waits s.memory key) _ h) (rw e)
  found-Unparks r i (present pre x post l whole first here e queue fr fair) = rw e (
      oldest x (keep (waits s.memory key) post) _ (update q (home s key) (pre ++ post))
        (rw whole (keep_oldest s.memory key pre x post first here))
        (found-Served now callback key s c q pre x post l i whole first here queue fr fair))

  -- On a well-formed table `unpark_one` ends, with fuel for the threads of the bucket. If no thread
  -- waits for the key it changes nothing. Otherwise the oldest thread that waits leaves the queue
  -- and is woken with the callback's token, the callback is told whether others wait, the queues
  -- of all other keys and all sleeping threads stay as they are, and the table is well formed.
  pub unpark_one-Unparks :
      (fuel : ℕ)
      → IsLot s q
      → length (q (home s key)) < fuel
      → (out : Lot × S × UnparkResult) × (unpark_one_at now callback fuel key (s, c) ≡ some out)
        × Unparks now callback key s c q out
  unfolding unpark_one_at
  unpark_one-Unparks fuel i h =
      let (r, ran, search) =
        find_loop_lem key (lock_bucket s (home s key)) fuel (q (home s key)) (i.queue (home s key))
          h in
      (unpark_found now callback (s, c) (home s key) r, rw ran, found-Unparks r i search)
