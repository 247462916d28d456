-- ===== src/Core/Lot/Filter.antt =====
-- core/src/parking_lot.rs: `unpark_filter`.
pub mod Sieve
pub mod Loop
pub mod Laws
mod Tests
use parking_lot.Prelude.{
  ℕ, zero, suc, Bool, true, false, not, ◌||◌, Option, none, some, List, [], ◌∷◌, ◌++◌, ◌==◌,
  if◌then◌else◌, ◌>>=◌, length, is_empty,
}
use parking_lot.Core.Queue.{
  Ptr, null, Memory, next_of, key_of, Locked, Link, at_head, at_next, unlink,
}
use parking_lot.Core.Lot.{
  Lot, home, lock_bucket, unlock_bucket, UnparkResult, FilterOp, unpark, skip, stop, wake,
  draw_fair,
}

-- Where the loop goes on after one round.
pub record Round (S : Type 0) : Type 0 where
  pub link : Link
  pub previous : Ptr
  pub locked : Locked
  pub captured : S
  pub threads : List Ptr  -- taken out of the queue
  pub more : Bool
  pub stops : Bool

-- What the loop ends with.
pub record Filtered (S : Type 0) : Type 0 where
  pub locked : Locked
  pub captured : S
  pub threads : List Ptr
  pub have_more_threads : Bool

module _ {S : Type 0} where
  -- What each answer of the filter does with the current thread.
  pub answered : FilterOp → Link → (current previous next : Ptr) → Locked → S → Round S
  answered unpark link current previous next l c = record {
    link = link;
    previous = previous;
    locked = unlink link previous current next l;
    captured = c;
    threads = current ∷ [];
    more = false;
    stops = false;
  }
  answered skip link current previous next l c = record {
    link = at_next current;
    previous = current;
    locked = l;
    captured = c;
    threads = [];
    more = true;
    stops = false;
  }
  answered stop link current previous next l c = record {
    link = link;
    previous = previous;
    locked = l;
    captured = c;
    threads = [];
    more = true;
    stops = true;
  }

  module _ (key : ℕ) (filter : ℕ → S → FilterOp × S) where
    pub filter_round : Link → (current previous : Ptr) → Locked → S → Round S
    filter_round link current previous l c =
        let (op, c') = filter (l.memory current).park_token c in
        if key_of l.memory current == key
        then answered op link current previous (next_of l.memory current) l c'
        else (record {
          link = at_next current;
          previous = current;
          locked = l;
          captured = c;
          threads = [];
          more = false;
          stops = false;
        })

    pub filter_loop : ℕ → Link → (current previous : Ptr) → Locked → S → Option (Filtered S)
    filter_loop zero link current previous l c = none
    filter_loop (suc f) link current previous l c =
        let r = filter_round link current previous l c in
        let rest = filter_loop f r.link (next_of l.memory current) r.previous r.locked r.captured in
        if current == null
        then some (record { locked = l; captured = c; threads = []; have_more_threads = false })
        else if r.stops
        then some (record {
          locked = r.locked;
          captured = r.captured;
          threads = [];
          have_more_threads = true;
        })
        else rest >>= λ e. some (record {
          locked = e.locked;
          captured = e.captured;
          threads = r.threads ++ e.threads;
          have_more_threads = r.more || e.have_more_threads;
        })

-- The token and the wake-up of each thread that was taken out.
pub wake_each : List Ptr → (token : ℕ) → Memory → Memory
wake_each [] token m = m
wake_each (p ∷ ps) token m = wake_each ps token (wake p token m)

-- The timer is asked only if a thread was taken out.
abbrev pub ask_fair : (now : ℕ) → List Ptr → Locked → Bool × Locked
ask_fair now [] l = (false, l)
ask_fair now (p ∷ ps) l = draw_fair now l

module _ {S : Type 0} (now : ℕ) (callback : UnparkResult → S → ℕ × S) where
  -- What follows the loop.
  pub finish : Lot → ℕ → Filtered S → Lot × S × UnparkResult
  finish s b r =
      let (fair, l) = ask_fair now r.threads r.locked in
      let result : UnparkResult = record {
        unparked_threads = length r.threads;
        requeued_threads = 0;
        have_more_threads = r.have_more_threads;
        be_fair = fair;
      } in
      let (token, c) = callback result r.captured in
      (unlock_bucket s b (record l { memory = wake_each r.threads token l.memory }), c, result)

  pub unpark_filter_at :
      (filter : ℕ → S → FilterOp × S) → (fuel key : ℕ) → Lot × S → Option (Lot × S × UnparkResult)
  unpark_filter_at filter fuel key (s, c) =
      filter_loop key filter fuel at_head (s.entries (home s key)).queue_head null
        (lock_bucket s (home s key)) c
      >>= λ r. some (finish s (home s key) r)
