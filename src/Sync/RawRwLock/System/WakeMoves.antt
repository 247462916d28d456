-- ===== src/Sync/RawRwLock/System/WakeMoves.antt =====
-- The steps that wake other threads, by their kinds.
use parking_lot.Prelude.{
  ◌==◌, ℕ, ◌+◌, ◌≡◌, ◌⊎◌, sym, refl, inl, inr, Bool, true, false, not, ◌&&◌, ◌||◌, Option, none,
  some, List, [], ◌∷◌, ltb, if◌then◌else◌, arith, Bool-cases, is_empty, length, Distinct, ◌∈◌,
}
use parking_lot.Sync.RawMutex.{token_normal, token_handoff}
use parking_lot.Sync.RawRwLock.{
  Word, free, ParkToken, shared, token_upgradable, max_readers, remove_token, WakeReason,
  unlocks_exclusive, unlocks_upgradable, downgrades, downgrades_to_upgradable, reverts, idle, start,
  signalling, filtering, Shared, Effect,
}
use parking_lot.Sync.RawRwLock.Wake.{
  base, hand_over, after, Filtered, filter_all, wake_callback, filter_step, signal_step,
}
use parking_lot.Sync.RawRwLock.System.Holds.{
  Hold, nothing, writes, upgrades, hold_why, hold_at, Shows, Swap,
}
use parking_lot.Sync.RawRwLock.System.Sift.{Sifted, token_major, filter_all-Sifted}
use parking_lot.Sync.RawRwLock.System.Grant.{Grant}
use parking_lot.Sync.RawRwLock.System.Swaps.{keeps, frees, unlocks}
use parking_lot.Sync.RawRwLock.System.Moves.{
  awake, place, filters, signals, swaps, hands, Change, Move,
}
use parking_lot.Sync.RawRwLock.System.LockMoves.{plain_to}

-- The parked bits are free to change.
reparks :
    {s s' : Word} {h h' : Hold} (b : Bool) → Swap s h s' h' → Swap s h (record s' { parked = b }) h'
reparks b w = record {
  readers = w.readers;
  upgrade = w.upgrade;
  write = w.write;
  sole = w.sole;
  admits = w.admits;
  joins = w.joins;
}

after-awake : (why : WakeReason) → place (after why) ≡ awake
after-awake (unlocks_exclusive force_fair relock) = ground arith
after-awake (unlocks_upgradable force_fair relock) = ground arith
after-awake downgrades = refl
after-awake downgrades_to_upgradable = refl
after-awake (reverts upgrading) = ground arith

-- From a free word, the threads taken out are granted what the filter put into its word.
module _ (token : ℕ → ParkToken) (s : Word) (xs : List ℕ) (b : Bool)
    (f : Sifted token free xs (filter_all token free xs)) where
  abbrev r : Filtered
  r = filter_all token free xs

  owner_of :
      ((free.upgradable || free.writer) ≡ true)
        ⊎ ((a : ℕ) × (a ∈ r.taken) × (token_major token a ≡ true))
      → (a : ℕ) × (a ∈ r.taken) × (token_major token a ≡ true)
  owner_of (inl h) = absurd (cc)
  owner_of (inr h) = h

  writer-Grant : Shows s writes → Grant token s writes (record r.new_state { parked = b }) r.taken
  writer-Grant w = record {
    major = refl;
    distinct = f.distinct_taken;
    total = ground (arith, f.total, w.sole);
    majors = λ a i t. let k = f.majors a i t in (k.1, k.2);
    unique = f.unique;
    owner = λ o. owner_of (f.owner o);
  }

  upgradable-Grant :
      Shows s upgrades
      → Grant token s upgrades
          (record (hand_over (remove_token token_upgradable s) r.new_state) { parked = b })
          r.taken
  upgradable-Grant w = record {
    major = refl;
    distinct = f.distinct_taken;
    total = ground (arith, f.total, w.counted);
    majors = λ a i t. ground (arith, f.majors a i t, w.upgrade);
    unique = f.unique;
    owner = λ o. owner_of (f.owner (ground (arith, w.upgrade)));
  }

module _ (me : ℕ) (mail : Option ℕ) (m : Shared) (e : Effect) where
  abbrev sifted : WakeReason → Filtered
  sifted why = filter_all m.park_token (base why) m.queue

  abbrev woken : WakeReason → Word → ℕ → Effect
  woken why word token = record {
    shared_state = record m { word = word; bucket = none; queue = (sifted why).left };
    self = record { pc = after why; mail = none };
    sent = (sifted why).taken;
    token = token;
  }

  abbrev fair : WakeReason → Bool → Bool
  fair why be_fair = not (is_empty (sifted why).taken) && be_fair

  wakes_all :
      (why : WakeReason) (word : Word) (token : ℕ)
      → e ≡ woken why word token
      → Change me m (filtering why) mail (woken why word token) (filters why)
      → Move me m (filtering why) mail e
  wakes_all why word token q c =
      rw q (filters why, (refl, refl, refl, refl, refl, (after-awake why, refl)), c)

  -- The lock itself stays with the thread.
  wakes_only :
      (why : WakeReason)
      → e ≡ woken why (record m.word { parked = m.word.parked && (sifted why).more }) token_normal
      → hold_why why ≡ hold_at (after why) none
      → Shows m.word (hold_why why)
      → Move me m (filtering why) mail e
  wakes_only why q h w =
      wakes_all why _ token_normal q (swaps refl (rw (← h) (keeps _ w refl refl refl)))

  pub filter-Move :
      (why : WakeReason) (be_fair gives_up : Bool)
      → Distinct m.queue
      → filter_step why be_fair gives_up m ≡ some e
      → Shows m.word (hold_why why)
      → Move me m (filtering why) mail e
  unfolding filter_step wake_callback
  filter-Move (unlocks_exclusive force_fair relock) be_fair gives_up d k w =
      let why : WakeReason = unlocks_exclusive force_fair relock in
      let f = filter_all-Sifted m.park_token free m.queue d in
      let h : hold_at (after why) none ≡ nothing = ground arith in
      elim (Bool-cases (not (length (sifted why).taken == 0) && (force_fair || fair why be_fair))) [
        | inl hand ↦
            wakes_all why _ token_handoff (ground arith)
              (hands refl h (writer-Grant m.park_token m.word m.queue (sifted why).more f w))
        | inr release ↦
            wakes_all why (record free { parked = (sifted why).more }) token_normal (ground arith)
              (swaps refl (rw h (unlocks m.word _ w refl refl refl)))
      ]
  filter-Move (unlocks_upgradable force_fair relock) be_fair gives_up d k w =
      let why : WakeReason = unlocks_upgradable force_fair relock in
      let f = filter_all-Sifted m.park_token free m.queue d in
      let h : hold_at (after why) none ≡ nothing = ground arith in
      let released : Word = remove_token token_upgradable m.word in
      elim (Bool-cases (
        (force_fair || fair why be_fair)
        && not gives_up
        && ltb (released.readers + (sifted why).new_state.readers) max_readers)) [
          | inl hand ↦
              wakes_all why _ token_handoff (ground arith)
                (hands refl h (upgradable-Grant m.park_token m.word m.queue (sifted why).more f w))
          | inr release ↦
              wakes_all why (record released { parked = (sifted why).more }) token_normal
                (ground arith) (swaps refl (rw h (reparks (sifted why).more (frees m.word w))))
        ]
  filter-Move downgrades be_fair gives_up d k w = wakes_only downgrades (ground arith) refl w
  filter-Move downgrades_to_upgradable be_fair gives_up d k w =
      wakes_only downgrades_to_upgradable (ground arith) refl w
  filter-Move (reverts true) be_fair gives_up d k w =
      wakes_only (reverts true) (ground arith) refl w
  filter-Move (reverts false) be_fair gives_up d k w =
      wakes_only (reverts false) (ground arith) refl w

  pub signal-Move :
      (relock : Bool) (xs : List ℕ)
      → m.writer_queue ≡ xs
      → signal_step relock m xs ≡ some e
      → Shows m.word nothing
      → Move me m (signalling relock) mail e
  unfolding signal_step
  signal-Move relock [] q k w =
      let s' : Word = record m.word { writer_parked = false } in
      elim (Bool-cases relock) [
        | inl r ↦
            plain_to (start (shared false) false) s' m.bucket none (ground (arith, sym q)) refl refl
              (keeps s' w refl refl refl)
        | inr r ↦
            plain_to idle s' m.bucket none (ground (arith, sym q)) refl refl
              (keeps s' w refl refl refl)
      ]
  signal-Move relock (x ∷ others) q k w =
      let s' : Word = record m.word { writer_parked = false } in
      let n : e ≡ record {
        shared_state = record m { word = s'; writer_bucket = none; writer_queue = others };
        self = record { pc = if relock then start (shared false) false else idle; mail = none };
        sent = x ∷ [];
        token = token_normal;
      } =
        ground arith in
      let h : hold_at (if relock then start (shared false) false else idle) none ≡ nothing =
        ground arith in
      rw n (
        signals x others,
        (refl, q, refl, refl, refl, refl, (ground arith, refl)),
        swaps refl (rw h (keeps s' w refl refl refl)),
      )
