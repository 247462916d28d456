-- ===== src/Core/Lot.antt =====
-- core/src/parking_lot.rs: the table of buckets, and the operations on the queue of a key.
-- An operation runs while it holds its buckets' locks, so it is one function on the table. What a
-- caller's closures capture is a state `S`, which they take and return.
pub mod Find
pub mod Table
pub mod Park
pub mod UnparkOne
pub mod AllLoop
pub mod UnparkAll
pub mod Timeout
pub mod Filter
pub mod Grow
pub mod Requeue
pub mod Tests
use parking_lot.Prelude.{
  ℕ, zero, suc, ◌+◌, Bool, true, false, not, ◌&&◌, ◌||◌, Option, none, some, List, [], ◌∷◌, ◌++◌,
  ◌==◌, if◌then◌else◌, update, ◌>>=◌, length,
}
use parking_lot.Core.FairTimeout.{FairTimeout, should_timeout}
use parking_lot.Core.Hash.{hash}
use parking_lot.Core.Queue.{
  Ptr, null, ThreadData, Memory, next_of, key_of, Bucket, Locked, Link, at_head, at_next, set_next,
  unlink, scan,
}

pub record Lot : Type 0 where
  pub memory : Memory
  pub entries : ℕ → Bucket
  pub hash_bits : ℕ

abbrev pub home : Lot → ℕ → ℕ
home s key = hash key s.hash_bits

-- `lock_bucket` with no rehash in between: the bucket at an index, and its write-back.
abbrev pub lock_bucket : Lot → ℕ → Locked
lock_bucket s b = record { memory = s.memory; bucket = s.entries b }

abbrev pub unlock_bucket : Lot → ℕ → Locked → Lot
unlock_bucket s b l = record s { memory = l.memory; entries = update s.entries b l.bucket }

pub data ParkResult : Type 0 where
  unparked : (token : ℕ) → ParkResult
  invalid : ParkResult
  timed_out : ParkResult

pub record UnparkResult : Type 0 where
  pub unparked_threads : ℕ
  pub requeued_threads : ℕ
  pub have_more_threads : Bool
  pub be_fair : Bool

abbrev pub default_result : UnparkResult
default_result = record {
  unparked_threads = 0;
  requeued_threads = 0;
  have_more_threads = false;
  be_fair = false;
}

pub data RequeueOp : Type 0 where
  abort unpark_one_requeue_rest requeue_all unpark_one requeue_one : RequeueOp

pub data FilterOp : Type 0 where
  unpark skip stop : FilterOp

-- `unpark_token.set(token)`, and `unpark_lock()`, which clears the futex word.
abbrev pub wake : Ptr → ℕ → Memory → Memory
wake p token m = update m p (record (m p) { unpark_token = token; parker = 0 })

-- The fairness of an unlock, drawn from the bucket's timer.
abbrev pub draw_fair : (now : ℕ) → Locked → Bool × Locked
draw_fair now l =
    let (fair, t) = should_timeout now l.bucket.fair_timeout in
    (fair, record l { bucket = record l.bucket { fair_timeout = t } })

-- The first part of `park`, under the lock: the thread's data, and the queue's new tail.
unfoldable pub enqueue : (me key park_token : ℕ) (timeout : Bool) → Locked → Locked
enqueue me key park_token timeout l =
    let m = update l.memory me (record (l.memory me) {
      parker = 1;
      key = key;
      next_in_queue = null;
      park_token = park_token;
      parked_with_timeout = timeout;
    }) in
    if l.bucket.queue_head == null
    then record { memory = m; bucket = record l.bucket { queue_head = me; queue_tail = me } }
    else (record {
      memory = set_next l.bucket.queue_tail me m;
      bucket = record l.bucket { queue_tail = me };
    })

module _ {S : Type 0} where
  -- `park` up to the sleep: `none` is `ParkResult::Invalid`.
  pub park_start :
      (me key park_token : ℕ) (timeout : Bool)
      → (validate : S → Bool × S) → Lot × S
      → Option Lot × S
  park_start me key park_token timeout validate (s, c) =
      let (valid, c') = validate c in
      if valid
      then (
        some (
            unlock_bucket s (home s key)
              (enqueue me key park_token timeout (lock_bucket s (home s key)))),
        c',
      )
      else (none, c')

-- What a loop that looks for one thread ends with.
pub data Found : Type 0 where
  missing : Found
  found : (thread : Ptr) (more : Bool) → Locked → Found

-- The loop of `unpark_one`, up to the first thread that waits for `key`.
pub find_loop : ℕ → (key : ℕ) → Link → (current previous : Ptr) → Locked → Option Found
find_loop zero key link current previous l = none
find_loop (suc f) key link current previous l =
    let next = next_of l.memory current in
    let rest = find_loop f key (at_next current) next current l in
    let l' = unlink link previous current next l in
    let more = if l.bucket.queue_tail == current then some false else scan f key l'.memory next in
    if current == null
    then some missing
    else if key_of l.memory current == key
    then (more >>= λ b. some (found current b l'))
    else rest

module _ {S : Type 0} (now : ℕ) (callback : UnparkResult → S → ℕ × S) where
  -- The rest of `unpark_one`: the callback, the token and the wake-up.
  pub unpark_found : Lot × S → ℕ → Found → Lot × S × UnparkResult
  unpark_found (s, c) b missing = (s, (callback default_result c).1, default_result)
  unpark_found (s, c) b (found p more l) =
      let (fair, l') = draw_fair now l in
      let result : UnparkResult = record {
        unparked_threads = 1;
        requeued_threads = 0;
        have_more_threads = more;
        be_fair = fair;
      } in
      let (token, c') = callback result c in
      (unlock_bucket s b (record l' { memory = wake p token l'.memory }), c', result)

  pub unpark_one_at : (fuel key : ℕ) → Lot × S → Option (Lot × S × UnparkResult)
  unpark_one_at fuel key (s, c) =
      find_loop fuel key at_head (s.entries (home s key)).queue_head null
        (lock_bucket s (home s key))
      >>= λ r. some (unpark_found (s, c) (home s key) r)

-- One round of the loop of `unpark_all`: a thread that waits for `key` is taken out of the queue,
-- given its token and marked for its wake-up, and the loop stays behind it.
pub all_round :
    (key token : ℕ) → Link → (current previous : Ptr) → Locked → Link × Ptr × Locked × List Ptr
all_round key token link current previous l =
    let next = next_of l.memory current in
    let l' = unlink link previous current next l in
    if key_of l.memory current == key
    then (link, previous, record l' { memory = wake current token l'.memory }, current ∷ [])
    else (at_next current, current, l, [])

-- The loop of `unpark_all`, with the threads that it takes out.
pub all_loop :
    ℕ → (key token : ℕ) → Link → (current previous : Ptr) → Locked → Option (Locked × List Ptr)
all_loop zero key token link current previous l = none
all_loop (suc f) key token link current previous l =
    let next = next_of l.memory current in
    let (link', previous', l', taken) = all_round key token link current previous l in
    let rest = all_loop f key token link' next previous' l' in
    if current == null then some (l, []) else (rest >>= λ r. some (r.0, taken ++ r.1))

pub unpark_all_at : (fuel key token : ℕ) → Lot → Option (Lot × ℕ)
unpark_all_at fuel key token s =
    all_loop fuel key token at_head (s.entries (home s key)).queue_head null
      (lock_bucket s (home s key))
    >>= λ r. some (unlock_bucket s (home s key) r.0, length r.1)
