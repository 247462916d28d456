-- ===== src/Sync/RawCondvar/Unlock.antt =====
-- What the unlock in `before_sleep` does to the table and to the words of the mutexes.
use parking_lot.Prelude.{
  ℕ, ◌<◌, ◌≡◌, ◌≢◌, refl, inl, inr, ◌⊎◌, Bool, true, false, not, some, List, [], ◌∷◌, arith, ◌==◌,
  if◌then◌else◌, Bool-cases, ==_refl, ◌∉◌, is_empty, length, update,
}
use parking_lot.Core.Queue.{Ptr}
use parking_lot.Core.Lot.{Lot, home, UnparkResult}
use parking_lot.Core.Lot.Table.{IsLot, view}
use parking_lot.Core.Lot.UnparkOne.{Unparks, nobody, oldest, Served, be_fair, unpark_one-Unparks}
use parking_lot.Sync.RawMutex.{token_normal, token_handoff, locked_bit, unlock_callback}
use parking_lot.Sync.RawCondvar.{Shared, mutex_callback, mutex_unlock}

-- The word and the token that the mutex's unlock leaves where it wakes a thread, before `others`.
abbrev pub Passed : (old new token : ℕ) → List Ptr → Type 0
Passed old new token others =
    ((token ≡ token_normal) × (new ≡ (if is_empty others then 0 else 2)))
    ⊎ ((token ≡ token_handoff) × (new ≡ (if is_empty others then 1 else old)))

-- What the unlock of `mutex` does to the table `s` and the words of `c`, next to a thread `me` that
-- is in no queue of the mutex.
pub record Unlocks (me mutex : ℕ) (s : Lot) (c : Shared) (q : ℕ → List Ptr) (s' : Lot) (c' : Shared)
    (q' : ℕ → List Ptr) : Type 0 where
  pub table : IsLot s' q'
  pub state : c'.state ≡ c.state
  pub words : (k : Ptr) → (mutex == k) ≡ false → c'.words k ≡ c.words k
  pub queues : (k : ℕ) → (mutex == k) ≡ false → view s' q' k ≡ view s q k
  pub sleeper : (s'.memory me).parker ≡ (s.memory me).parker
  pub released :
      (c.words mutex ≡ locked_bit) ⊎ (view s q mutex ≡ [])
      → (c'.words mutex ≡ 0) × (view s' q' mutex ≡ view s q mutex)
  pub passed :
      c.words mutex ≢ locked_bit
      → (x : Ptr) (others : List Ptr) → view s q mutex ≡ x ∷ others
      → (view s' q' mutex ≡ others)
        × ((s'.memory x).parker ≡ 0)
        × Passed (c.words mutex) (c'.words mutex) (s'.memory x).unpark_token others

passes :
    (fair : Bool) (old : ℕ) (others : List Ptr)
    → let out =
        unlock_callback false
          (record {
            unparked_threads = 1;
            requeued_threads = 0;
            have_more_threads = not (is_empty others);
            be_fair = fair;
          })
          old in
      Passed old out.1 out.0 others
unfolding unlock_callback
passes true old [] = inr (refl, refl)
passes true old (x ∷ xs) = inr (refl, refl)
passes false old [] = inl (refl, refl)
passes false old (x ∷ xs) = inl (refl, refl)

module _ (now me mutex : ℕ) (s : Lot) (c : Shared) (q : ℕ → List Ptr) (i : IsLot s q)
    (apart : me ∉ view s q mutex) where
  Served-Unlocks :
      (x : Ptr) (others : List Ptr) (s' : Lot) (q' : ℕ → List Ptr)
      (out : Lot × Shared × UnparkResult)
      → c.words mutex ≢ locked_bit
      → view s q mutex ≡ x ∷ others
      → Served now (mutex_callback mutex) mutex s c q x others s' q' out
      → Unlocks me mutex s c q out.0 out.1 q'
  unfolding mutex_callback unlock_callback
  Served-Unlocks x others s' q' out slow v served = rw served.result (record {
    table = served.table;
    state = refl;
    words = λ k ne. rw ne refl;
    queues = served.queues;
    sleeper = served.asleep me (λ e. absurd (ground (arith, apart, v)));
    released = λ h. elim h [ inl fast ↦ absurd (slow fast) | inr none_waits ↦ absurd (cc) ];
    passed = λ n y more w.
        let same : y ≡ x = ground (arith, v, w) in
        let rest : more ≡ others = ground (arith, v, w) in
        rw (same, rest, served.token, ==_refl mutex)
          (
            served.queue,
            served.awake,
            passes (be_fair now (mutex_callback mutex) mutex s c) (c.words mutex) others,
          );
  })

  Unparks-Unlocks :
      (out : Lot × Shared × UnparkResult)
      → c.words mutex ≢ locked_bit
      → Unparks now (mutex_callback mutex) mutex s c q out
      → (q' : ℕ → List Ptr) × Unlocks me mutex s c q out.0 out.1 q'
  unfolding mutex_callback unlock_callback
  Unparks-Unlocks out slow (nobody empty e) = (
    q,
    rw e (record {
      table = i;
      state = refl;
      words = λ k ne. rw ne refl;
      queues = λ k ne. refl;
      sleeper = refl;
      released = λ h. (rw (==_refl mutex) refl, refl);
      passed = λ n x others v. absurd (ground (arith, empty, v));
    }),
  )
  Unparks-Unlocks out slow (oldest x others s' q' v served) =
      (q', Served-Unlocks x others s' q' out slow v served)

  pub mutex_unlock-Unlocks :
      (fuel : ℕ)
      → length (q (home s mutex)) < fuel
      → (s' : Lot) × (c' : Shared) × (q' : ℕ → List Ptr) × (mutex_unlock now fuel mutex (s, c)
          ≡ some (s', c'))
        × Unlocks me mutex s c q s' c' q'
  unfolding mutex_unlock
  mutex_unlock-Unlocks fuel enough = elim (Bool-cases (c.words mutex == locked_bit)) [
    | inl fast ↦ (
      s,
      record c { words = update c.words mutex 0 },
      q,
      rw fast refl,
      record {
        table = i;
        state = refl;
        words = λ k ne. rw ne refl;
        queues = λ k ne. refl;
        sleeper = refl;
        released = λ h. (rw (==_refl mutex) refl, refl);
        passed = λ n x others v. absurd (n (ground arith));
      },
    )
    | inr slow ↦
        let (out, ran, u) =
          unpark_one-Unparks now (mutex_callback mutex) mutex s c q fuel i enough in
        let (q', unlocks) = Unparks-Unlocks out (λ e. absurd (ground arith)) u in
        (out.0, out.1, q', rw (slow, ran) refl, unlocks)
  ]
