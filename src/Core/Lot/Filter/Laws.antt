-- ===== src/Core/Lot/Filter/Laws.antt =====
-- `unpark_filter` on the table of buckets is a sieve on the queue of its key.
use parking_lot.Prelude.{
  ℕ, ◌<◌, ◌≡◌, ◌∙◌, sym, ap, refl, inl, inr, true, false, some, List, [], ◌∷◌, arith, ◌==◌, ==_refl,
  Bool-cases, ◌∈◌, ◌∉◌, update, length, is_empty, keep, if◌then◌else◌, has,
}
use parking_lot.Core.FairTimeout.{should_timeout}
use parking_lot.Core.Queue.{Ptr, null, Memory, next_of, key_of, Locked, at_head}
use parking_lot.Core.Queue.Cursor.{Seg-frame, Cursor-start}
use parking_lot.Core.Queue.Frames.{waits}
use parking_lot.Core.Lot.{Lot, home, lock_bucket, unlock_bucket, UnparkResult, FilterOp, wake}
use parking_lot.Core.Lot.Table.{IsLot, view, Shrinks, Shrinks-IsLot, view_after}
use parking_lot.Core.Lot.Filter.{wake_each, ask_fair, finish, unpark_filter_at}
use parking_lot.Core.Lot.Filter.Sieve.{Sift, sift, sift-alone, sift-others, Split, sift-Split}
use parking_lot.Core.Lot.Filter.Loop.{token_of, sieve, Kept, filter_loop-Kept}

wake_each-frame :
    (ps : List Ptr) (token : ℕ) (m : Memory) (a : Ptr)
    → (next_of (wake_each ps token m) a ≡ next_of m a)
      × (key_of (wake_each ps token m) a ≡ key_of m a)
unfolding wake_each
wake_each-frame [] token m a = (refl, refl)
wake_each-frame (p ∷ ps) token m a = ground (arith, wake_each-frame ps token (wake p token m) a)

wake_each-fields :
    (ps : List Ptr) (token : ℕ) (m : Memory) (a : Ptr)
    → ((wake_each ps token m a).unpark_token ≡ (if has a ps then token else (m a).unpark_token))
      × ((wake_each ps token m a).parker ≡ (if has a ps then 0 else (m a).parker))
unfolding wake_each
wake_each-fields [] token m a = (refl, refl)
wake_each-fields (p ∷ ps) token m a = ground (arith, wake_each-fields ps token (wake p token m) a)

ask_fair-parts :
    (now : ℕ) (ps : List Ptr) (l : Locked)
    → ((ask_fair now ps l).0
        ≡ (if is_empty ps then false else (should_timeout now l.bucket.fair_timeout).0))
      × ((ask_fair now ps l).1.memory ≡ l.memory)
      × ((ask_fair now ps l).1.bucket.queue_head ≡ l.bucket.queue_head)
      × ((ask_fair now ps l).1.bucket.queue_tail ≡ l.bucket.queue_tail)
ask_fair-parts now [] l = (refl, refl, refl, refl)
ask_fair-parts now (p ∷ ps) l = (refl, refl, refl, refl)

-- What a run of `unpark_filter` makes of the table: the threads that the sieve takes out are awake
-- with the token, those that it leaves are the queue of the key, in their order; the queues of the
-- other keys and all other threads are as they were.
pub record Sifts (S : Type 0) (key token : ℕ) (r : Sift S) (s : Lot) (q : ℕ → List Ptr) (s' : Lot)
    (q' : ℕ → List Ptr) : Type 0 where
  pub table : IsLot s' q'
  pub queue : view s' q' key ≡ r.left
  pub queues : (k : ℕ) → (key == k) ≡ false → view s' q' k ≡ view s q k
  pub awake :
      (a : Ptr) → a ∈ r.taken → ((s'.memory a).unpark_token ≡ token) × ((s'.memory a).parker ≡ 0)
  pub asleep : (a : Ptr) → a ∉ r.taken → (s'.memory a).parker ≡ (s.memory a).parker

module _ {S : Type 0} (now : ℕ) (callback : UnparkResult → S → ℕ × S)
    (filter : ℕ → S → FilterOp × S) (key : ℕ) (s : Lot) (c : S) (q : ℕ → List Ptr)
    (i : IsLot s q) where
  abbrev b : ℕ
  b = home s key

  -- The sieve on the queue of the key.
  abbrev pub on_queue : Sift S
  on_queue = sift filter (λ _. true) (token_of s.memory) (view s q key) c

  abbrev on_bucket : Sift S
  on_bucket = sieve key filter s.memory (q b) c

  same : on_queue ≡ record on_bucket { left = keep (waits s.memory key) on_bucket.left }
  same = sift-alone filter (waits s.memory key) (token_of s.memory) (q b) c

  -- What the callback is told.
  abbrev pub told : Sift S → UnparkResult
  told r = record {
    unparked_threads = length r.taken;
    requeued_threads = 0;
    have_more_threads = r.more;
    be_fair =
        if is_empty r.taken
        then false
        else (should_timeout now (s.entries (home s key)).fair_timeout).0;
  }

  abbrev pub result : UnparkResult
  result = told on_queue

  abbrev pub answer : ℕ × S
  answer = callback result on_queue.captured

  abbrev answer_on : Sift S → ℕ × S
  answer_on r = callback (told r) r.captured

  result_same : result ≡ told on_bucket
  result_same = ap told same

  answer_same : answer ≡ answer_on on_bucket
  answer_same = ap answer_on same

  module _ (l : Locked) (h : Kept (lock_bucket s b) [] (q b) on_bucket.left l) (token : ℕ) where
    abbrev l2 : Locked
    l2 = (ask_fair now on_bucket.taken l).1

    abbrev l3 : Locked
    l3 = record l2 { memory = wake_each on_bucket.taken token l2.memory }

    split : Split filter (waits s.memory key) (q b) on_bucket
    split = sift-Split filter (waits s.memory key) (token_of s.memory) (q b) c (i.queue b).distinct

    parts :
        ((ask_fair now on_bucket.taken l).0 ≡ (
          if is_empty on_bucket.taken then false else (should_timeout now l.bucket.fair_timeout).0))
        × (l2.memory ≡ l.memory)
        × (l2.bucket.queue_head ≡ l.bucket.queue_head)
        × (l2.bucket.queue_tail ≡ l.bucket.queue_tail)
    parts = ask_fair-parts now on_bucket.taken l

    nexts : (a : Ptr) → next_of l3.memory a ≡ next_of l.memory a
    nexts a = (wake_each-frame on_bucket.taken token l2.memory a).0 ∙ ap (λ m. next_of m a) parts.1

    keys : (a : Ptr) → key_of l3.memory a ≡ key_of s.memory a
    keys a =
        (wake_each-frame on_bucket.taken token l2.memory a).1
        ∙ ap (λ m. key_of m a) parts.1
        ∙ ap (λ t. t.key) (h.fields a)

    left-Shrinks : Shrinks s q b l3 on_bucket.left
    left-Shrinks = record {
      queue = record {
        chain =
            rw (parts.2)
              (Seg-frame l.memory l3.memory _ on_bucket.left null h.queue.chain (λ a m. nexts a));
        tail = parts.3 ∙ h.queue.tail;
        distinct = h.queue.distinct;
      };
      subset = split.left;
      outside = λ a out. nexts a ∙ h.outside a out;
      keys = keys;
    }

    abbrev s3 : Lot
    s3 = unlock_bucket s b l3

    abbrev q3 : ℕ → List Ptr
    q3 = update q b on_bucket.left

    queue_of : view s3 q3 key ≡ on_queue.left
    queue_of =
        view_after s q b l3 on_bucket.left i left-Shrinks key
        ∙ rw (==_refl b) (sym (ap (λ r. r.left) same))

    others_of : (k : ℕ) → (key == k) ≡ false → view s3 q3 k ≡ view s q k
    others_of k ne =
        view_after s q b l3 on_bucket.left i left-Shrinks k ∙ elim (Bool-cases (b == home s k)) [
          | inl e ↦
              let f : home s k ≡ b = ground arith in
              rw (e, f)
                (sift-others filter (waits s.memory key) (waits s.memory k) (token_of s.memory)
                  (q b) c (λ a w. ground arith))
          | inr e ↦ rw e
        ]

    own : (a : Ptr) → (l2.memory a).parker ≡ (s.memory a).parker
    own a = ap (λ m. (m a).parker) parts.1 ∙ ap (λ t. t.parker) (h.fields a)

    sifts : Sifts S key token on_queue s q s3 q3
    sifts = record {
      table = Shrinks-IsLot s q b l3 on_bucket.left i left-Shrinks;
      queue = queue_of;
      queues = others_of;
      awake = λ a m.
          let n : a ∈ on_bucket.taken = rw same at m in
          let w = wake_each-fields on_bucket.taken token l2.memory a in
          (ground (arith, w.0), ground (arith, w.1));
      asleep = λ a m.
          let n : a ∉ on_bucket.taken = rw same at m in
          let w = wake_each-fields on_bucket.taken token l2.memory a in ground (arith, w.1, own a);
    }

  -- On a well-formed table `unpark_filter` ends, with fuel for the threads of the bucket. It asks
  -- the filter about the threads that wait for its key, oldest first, until the filter stops it:
  -- those for which the filter says so are taken out and are awake with the token that the callback
  -- answers, and the others are the queue of the key from then on, in their order. The callback is
  -- told how many were taken, whether one was passed, and the answer of the bucket's timer, which is
  -- asked only if one was taken. The queues of the other keys, all other sleeping threads and the
  -- table's well-formedness are kept.
  pub unpark_filter-Sifts :
      (fuel : ℕ)
      → length (q (home s key)) < fuel
      → (s' : Lot) × (q' : ℕ → List Ptr) × (unpark_filter_at now callback filter fuel key (s, c)
          ≡ some (s', answer.1, result))
        × Sifts S key answer.0 on_queue s q s' q'
  unfolding unpark_filter_at finish
  unpark_filter-Sifts fuel enough =
      let l0 = lock_bucket s b in
      let (l, ran, h) =
        filter_loop-Kept key filter fuel at_head (s.entries b).queue_head null [] (q b) l0 c
          (Cursor-start l0 (q b) (i.queue b)) enough in
      let p = parts l h 0 in
      (
        s3 l h (answer_on on_bucket).0,
        q3 l h (answer_on on_bucket).0,
        rw (answer_same, result_same) (rw (ran, p.0, h.fair) refl),
        rw answer_same (sifts l h (answer_on on_bucket).0),
      )
