-- ===== src/Sync/RawMutex/Refinement.antt =====
-- The mutex's unlock on its own queue is the parking lot's `unpark_one` on the table of buckets.
use parking_lot.Prelude.{
  ◌==◌, ◌∙◌, ap, keep, ◌∈◌, ◌≢◌, ℕ, ◌<◌, ◌≡◌, refl, Bool, false, not, none, some, List, [], arith,
  is_empty, length, if◌then◌else◌,
}
use parking_lot.Core.Queue.{key_of}
use parking_lot.Core.Lot.Timeout.{park_timeout_at}
use parking_lot.Core.Lot.Timeout.Laws.{park_timeout-Expired}
use parking_lot.Core.Lot.{timed_out, Lot, home, UnparkResult, default_result, unpark_one_at}
use parking_lot.Core.Lot.Table.{IsLot, view}
use parking_lot.Core.Lot.UnparkOne.{
  Unparks, nobody, oldest, be_fair, one_unparked, unpark_one-Unparks,
}
use parking_lot.Sync.RawMutex.{
  Shared, Effect, idle, start, unlock_callback, unpark_step, timed_step, timed_out_callback,
}

-- What the table of buckets and the mutex's own state have in common after an unlock.
pub record Agrees (key : ℕ) (s : Lot) (q : ℕ → List ℕ) (state : ℕ) (e : Effect) : Type 0 where
  pub table : IsLot s q
  pub queue : view s q key ≡ e.shared.queue
  pub word : state ≡ e.shared.word
  pub token :
      (x token : ℕ)
      → e.sent ≡ some (x, token)
      → ((s.memory x).unpark_token ≡ token) × ((s.memory x).parker ≡ 0)

module _ (now key fuel : ℕ) (force_fair relock : Bool) (s : Lot) (q : ℕ → List ℕ) (m : Shared)
    (i : IsLot s q) (enough : length (q (home s key)) < fuel) (same : view s q key ≡ m.queue) where
  abbrev pub fair : Bool
  fair = be_fair now (unlock_callback force_fair) key s m.word

  abbrev callback : UnparkResult → ℕ → ℕ × ℕ
  callback = unlock_callback force_fair

  abbrev Outcome : Lot × ℕ × UnparkResult → Type 0
  Outcome out =
      (e : Effect) × (q' : ℕ → List ℕ) × (unpark_step force_fair relock fair m m.queue ≡ some e)
      × Agrees key out.0 q' out.1 e

  Unparks-Outcome :
      (out : Lot × ℕ × UnparkResult) → Unparks now callback key s m.word q out → Outcome out
  unfolding unpark_step
  Unparks-Outcome out (nobody empty o) =
      rw (← same, empty)
        (
          record {
            shared = record {
              word = (callback default_result m.word).1;
              bucket = none;
              queue = [];
            };
            self = record { pc = if relock then start false else idle; mail = none };
            sent = none;
          },
          q,
          refl,
          rw o (record { table = i; queue = empty; word = refl; token = λ x token h. absurd (cc) }),
        )
  Unparks-Outcome out (oldest x others s' q' v served) =
      let result = one_unparked now callback key s m.word (not (is_empty others)) in
      rw (← same, v)
        (
          record {
            shared = record { word = (callback result m.word).1; bucket = none; queue = others };
            self = record { pc = if relock then start false else idle; mail = none };
            sent = some (x, (callback result m.word).0);
          },
          q',
          refl,
          rw served.result (record {
            table = served.table;
            queue = served.queue;
            word = refl;
            token = λ y token h. ground (arith, served.token, served.awake);
          }),
        )

  -- Where the queue of the mutex's address in the table is the mutex's queue, `unpark_one` with the
  -- closure of `unlock_slow` ends, and leaves the table with the queue, the state and the token that
  -- the mutex's own step leaves, at the fairness that the bucket's timer answers.
  pub unpark_step-Agrees :
      (e : Effect) × (s' : Lot) × (q' : ℕ → List ℕ) × (word : ℕ) × (result : UnparkResult)
      × (unpark_step force_fair relock fair m m.queue ≡ some e)
      × (unpark_one_at now (unlock_callback force_fair) fuel key (s, m.word)
          ≡ some (s', word, result))
      × Agrees key s' q' word e
  unpark_step-Agrees =
      let ((s', word, result), ran, u) =
        unpark_one-Unparks now callback key s m.word q fuel i enough in
      let (e, q', stepped, agrees) = Unparks-Outcome (s', word, result) u in
      (e, s', q', word, result, stepped, ran, agrees)

-- Where the queue of the mutex's address in the table is the mutex's queue, and the thread `me`
-- stands in it without having been unparked, the timed-out half of `park` with the closure of
-- `lock_slow` ends and leaves the table with the queue and the state that the mutex's own step
-- leaves.
pub timed_step-park_timeout_at :
    (fuel me : ℕ) (s : Lot) (q : ℕ → List ℕ) (m : Shared)
    → IsLot s q
    → length (q (home s (key_of s.memory me))) < fuel
    → view s q (key_of s.memory me) ≡ m.queue
    → me ∈ q (home s (key_of s.memory me))
    → (s.memory me).parker ≢ 0
    → (e : Effect) × (s' : Lot) × (q' : ℕ → List ℕ) × (timed_step me none m ≡ some e)
      × (park_timeout_at (λ key. timed_out_callback) fuel me (s, m.word)
          ≡ some (s', e.shared.word, timed_out))
      × IsLot s' q'
      × (view s' q' (key_of s.memory me) ≡ e.shared.queue)
unfolding timed_step
timed_step-park_timeout_at fuel me s q m i h same here asleep =
    let (s', q', w, ran, x) =
      (park_timeout-Expired (λ key. timed_out_callback) fuel me s m.word q i h).1 asleep here in
    let queue : view s' q' (key_of s.memory me) ≡ keep (λ a. not (a == me)) m.queue =
      x.queue ∙ ap (keep (λ a. not (a == me))) same in
    (_, s', q', refl, rw (← (x.last ∙ ap is_empty queue)) ran, x.table, queue)
