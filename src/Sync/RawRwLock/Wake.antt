-- ===== src/Sync/RawRwLock/Wake.antt =====
-- src/raw_rwlock.rs: `wake_parked_threads` with the callbacks that it is given, and
-- `unlock_shared_slow`. The loops of compare-exchanges in `unlock_upgradable_slow`'s callback are one
-- step, at which the last of them succeeds.
use parking_lot.Prelude.{
  ℕ, ◌+◌, Bool, true, false, not, ◌&&◌, ◌||◌, Option, none, some, List, [], ◌∷◌, ltb, is_empty,
  length, ◌==◌, if◌then◌else◌,
}
use parking_lot.Core.Lot.{UnparkResult, FilterOp, unpark, skip, stop}
use parking_lot.Sync.RawMutex.{token_normal, token_handoff}
use parking_lot.Sync.RawRwLock.{
  Word, free, ParkToken, token_shared, token_upgradable, upgradable, exclusive, shared, max_readers,
  add_token, remove_token, WakeReason, unlocks_exclusive, unlocks_upgradable, downgrades,
  downgrades_to_upgradable, reverts, Pc, idle, start, held_shared, held_upgradable, Shared, Effect,
}
use parking_lot.Sync.RawRwLock.Drain.{failed}

-- The closure `filter`, on the `new_state` that it keeps.
unfoldable pub filter : Word → ParkToken → FilterOp
filter s token_shared = if s.writer then stop else unpark
filter s _ = if s.writer then stop else if s.upgradable then skip else unpark

-- What `unpark_filter` does to the queue: the threads it takes out, those it leaves, whether it
-- passed one of them, and the `new_state` of the filter.
pub record Filtered : Type 0 where
  pub taken : List ℕ
  pub left : List ℕ
  pub more : Bool
  pub new_state : Word

abbrev pub filtered_by : FilterOp → ℕ → List ℕ → Word → (taken skipped : Filtered) → Filtered
filtered_by unpark x xs s r r' = record r { taken = x ∷ r.taken }
filtered_by skip x xs s r r' = record r' { left = x ∷ r'.left; more = true }
filtered_by stop x xs s r r' = record { taken = []; left = x ∷ xs; more = true; new_state = s }

unfoldable pub filter_all : (ℕ → ParkToken) → Word → List ℕ → Filtered
filter_all token s [] = record { taken = []; left = []; more = false; new_state = s }
filter_all token s (x ∷ xs) =
    filtered_by (filter s (token x)) x xs s (filter_all token (add_token (token x) s) xs)
      (filter_all token s xs)

-- The argument `new_state` of `wake_parked_threads`.
abbrev pub base : WakeReason → Word
base (unlocks_exclusive force_fair relock) = free
base (unlocks_upgradable force_fair relock) = free
base downgrades = record free { readers = 1 }
base downgrades_to_upgradable = record free { readers = 1; upgradable = true }
base (reverts upgrading) =
    if upgrading then record free { readers = 1; upgradable = true } else free

-- The word of a hand-off: the lock of the thread that wakes others is replaced by theirs.
abbrev pub hand_over : Word → Word → Word
hand_over state new_state = record state {
  upgradable = state.upgradable || new_state.upgradable;
  writer = state.writer || new_state.writer;
  readers = state.readers + new_state.readers;
}

-- The callback: the token, and the new word. `gives_up`: an earlier round of the hand-off loop in
-- `unlock_upgradable_slow` met a reader count that would overflow.
unfoldable pub wake_callback :
    WakeReason → (gives_up : Bool) → (state new_state : Word) → UnparkResult → ℕ × Word
wake_callback (unlocks_exclusive force_fair relock) gives_up state new_state result =
    if not (result.unparked_threads == 0) && (force_fair || result.be_fair)
    then (token_handoff, record new_state { parked = result.have_more_threads })
    else (token_normal, record free { parked = result.have_more_threads })
wake_callback (unlocks_upgradable force_fair relock) gives_up state new_state result =
    let released = remove_token token_upgradable state in
    if (force_fair || result.be_fair)
      && not gives_up
      && ltb (released.readers + new_state.readers) max_readers
    then (
      token_handoff,
      record (hand_over released new_state) { parked = result.have_more_threads },
    )
    else (token_normal, record released { parked = result.have_more_threads })
wake_callback _ gives_up state new_state result =
    (token_normal, record state { parked = state.parked && result.have_more_threads })

abbrev pub after : WakeReason → Pc
after (unlocks_exclusive force_fair relock) = if relock then start exclusive false else idle
after (unlocks_upgradable force_fair relock) = if relock then start upgradable false else idle
after downgrades = held_shared
after downgrades_to_upgradable = held_upgradable
after (reverts upgrading) = failed upgrading

-- `unpark_filter` under the bucket's lock; the bucket's timer answers `be_fair` if it is asked.
unfoldable pub filter_step : WakeReason → (be_fair gives_up : Bool) → Shared → Option Effect
filter_step why be_fair gives_up m =
    let r = filter_all m.park_token (base why) m.queue in
    let fair = not (is_empty r.taken) && be_fair in
    let result : UnparkResult = record {
      unparked_threads = length r.taken;
      requeued_threads = 0;
      have_more_threads = r.more;
      be_fair = fair;
    } in
    let (token, word) = wake_callback why gives_up m.word r.new_state result in
    some (record {
      shared_state = record m { word = word; bucket = none; queue = r.left };
      self = record { pc = after why; mail = none };
      sent = r.taken;
      token = token;
    })

-- `unpark_one` on the queue of the waiting writer, with the callback of `unlock_shared_slow`.
unfoldable pub signal_step : (relock : Bool) → Shared → List ℕ → Option Effect
signal_step relock m [] = some (record {
  shared_state = record m {
    word = record m.word { writer_parked = false };
    writer_bucket = none;
    writer_queue = [];
  };
  self = record { pc = if relock then start (shared false) false else idle; mail = none };
  sent = [];
  token = token_normal;
})
signal_step relock m (x ∷ others) = some (record {
  shared_state = record m {
    word = record m.word { writer_parked = false };
    writer_bucket = none;
    writer_queue = others;
  };
  self = record { pc = if relock then start (shared false) false else idle; mail = none };
  sent = x ∷ [];
  token = token_normal;
})
