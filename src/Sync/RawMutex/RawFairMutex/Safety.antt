-- ===== src/Sync/RawMutex/RawFairMutex/Safety.antt =====
-- A fair mutex is a mutex, and whoever it wakes owns it.
use parking_lot.Prelude.{
  ℕ, ◌≡◌, ◌⊎◌, refl, inl, inr, Bool, true, false, Option, none, some, List, [], ◌∷◌, arith,
}
use parking_lot.Core.SpinWait.{SpinWait}
use parking_lot.Sync.RawMutex
use parking_lot.Sync.RawMutex.{
  timed_out_callback, token_handoff, locked_bit, Pc, unlocking, unparking, held, idle, Action,
  call_lock, call_try_lock, call_unlock, call_bump, run, expire, unpark, Shared, Thread, Effect,
  slow_step, unlock_callback, lock_bucket, wake_step, timed_step, unpark_step, start, slow, parking,
  validating, enqueuing, abandoning, asleep, timing, timed, reload, trying,
}
use parking_lot.Sync.RawMutex.System.{System, pick, Reach, initial, later}
use parking_lot.Sync.RawMutex.System.Moves.{Move, hand_off, unlocks}
use parking_lot.Sync.RawMutex.System.Classify.{step-Move}
use parking_lot.Sync.RawMutex.System.Safety.{Reach-Inv}
use parking_lot.Sync.RawMutex.System.Invariant.{is_normal, owns}
use parking_lot.Sync.RawMutex.RawFairMutex.{
  fair_call, fair_step, FairStep, fair_pick, FairReach, fair_initial, fair_later,
}

pub FairReach-Reach : {s : System} → FairReach s → Reach s
unfolding fair_step
FairReach-Reach fair_initial = initial
FairReach-Reach (fair_later r (fair_pick i a h)) =
    later (FairReach-Reach r) (pick i (fair_call a) h)

-- If the thread is in an unlock, the unlock is forced to be fair.
abbrev pub forced : Pc → Bool
forced (unlocking fair relock) = fair
forced (unparking fair relock) = fair
forced _ = true

-- What a fair mutex has of each thread.
abbrev pub IsFair : Thread → Type 0
IsFair t = (forced t.pc ≡ true) × (is_normal t.mail ≡ false)

sent-fair :
    (i : ℕ) (m : Shared) (p : Pc) (mail : Option ℕ) (e : Effect)
    → Move i m p mail e
    → forced p ≡ true
    → (e.sent ≡ none) ⊎ ((x : ℕ) × (e.sent ≡ some (x, token_handoff)))
sent-fair i m p mail e (hand_off fair relock x others, g) f = inr (x, ground arith)
sent-fair i m p mail e (unlocks fair relock x others, g) f = absurd (ground arith)
sent-fair i m p mail e (kind, g) f = inl (ground arith)

bucket-forced :
    (me : ℕ) (b : Option ℕ) (m : Shared) (p : Pc) (e : Effect)
    → lock_bucket me b m p ≡ some e
    → forced p ≡ true
    → (forced e.self.pc ≡ true) × (e.self.mail ≡ none)
unfolding lock_bucket
bucket-forced me none m p e h f = ground arith
bucket-forced me (some j) m p e h f = absurd (cc)

slow-forced :
    (lucky timeout : Bool) (state : ℕ) (w : SpinWait) (m : Shared) (e : Effect)
    → slow_step lucky timeout state w m ≡ some e
    → (forced e.self.pc ≡ true) × (e.self.mail ≡ none)
unfolding slow_step
slow-forced lucky timeout state w m e h = ground arith

wake-forced :
    (timeout : Bool) (mail : Option ℕ) (m : Shared) (e : Effect)
    → wake_step timeout mail m ≡ some e
    → (forced e.self.pc ≡ true) × (e.self.mail ≡ none)
unfolding wake_step
wake-forced timeout none m e h = absurd (cc)
wake-forced timeout (some token) m e h = ground arith

timed-forced :
    (me : ℕ) (mail : Option ℕ) (m : Shared) (e : Effect)
    → timed_step me mail m ≡ some e
    → (forced e.self.pc ≡ true) × (e.self.mail ≡ none)
unfolding timed_step
timed-forced me none m e h = ground arith
timed-forced me (some token) m e h = ground arith

unpark-forced :
    (fair relock be_fair : Bool) (m : Shared) (xs : List ℕ) (e : Effect)
    → unpark_step fair relock be_fair m xs ≡ some e
    → (forced e.self.pc ≡ true) × (e.self.mail ≡ none)
unfolding unpark_step
unpark-forced fair relock be_fair m [] e h = ground arith
unpark-forced fair relock be_fair m (x ∷ xs) e h = ground arith

timing-forced :
    (me : ℕ) (b : Option ℕ) (lucky : Bool) (m : Shared) (mail : Option ℕ) (e : Effect)
    → m.bucket ≡ b
    → RawMutex.step me (run lucky) m timing mail ≡ some e
    → (forced e.self.pc ≡ true) × (e.self.mail ≡ mail)
unfolding RawMutex.step
timing-forced me none lucky m mail e q h = ground arith
timing-forced me (some j) lucky m mail e q h = absurd (ground arith)

-- A step leaves the thread with no mail, or with the mail that it had.
step-forced :
    (me : ℕ) (a : Action) (m : Shared) (p : Pc) (mail : Option ℕ) (e : Effect)
    → RawMutex.step me (fair_call a) m p mail ≡ some e
    → forced p ≡ true
    → (forced e.self.pc ≡ true) × ((e.self.mail ≡ none) ⊎ (e.self.mail ≡ mail))
unfolding RawMutex.step fair_call
step-forced me (call_lock timeout) m idle mail e h f = ground arith
step-forced me call_try_lock m idle mail e h f = ground arith
step-forced me (call_unlock fair) m held mail e h f = ground arith
step-forced me call_bump m held mail e h f = ground arith
step-forced me (run lucky) m (start timeout) mail e h f = ground arith
step-forced me (run lucky) m (slow timeout state w) mail e h f =
    let k = slow-forced lucky timeout state w m e h in (k.0, inl k.1)
step-forced me (run lucky) m (parking timeout) mail e h f =
    let k = bucket-forced me m.bucket m (validating timeout) e h refl in (k.0, inl k.1)
step-forced me (run lucky) m (validating timeout) mail e h f = ground arith
step-forced me (run lucky) m (enqueuing timeout) mail e h f = ground arith
step-forced me (run lucky) m (abandoning timeout) mail e h f = ground arith
step-forced me (run lucky) m (asleep timeout) mail e h f =
    let k = wake-forced timeout mail m e h in (k.0, inl k.1)
step-forced me expire m (asleep true) mail e h f = ground arith
step-forced me (run lucky) m timing mail e h f =
    let k = timing-forced me m.bucket lucky m mail e refl h in (k.0, inr k.1)
step-forced me (run lucky) m timed mail e h f = let k = timed-forced me mail m e h in (k.0, inl k.1)
step-forced me (run lucky) m (reload timeout) mail e h f = ground arith
step-forced me (run lucky) m (trying state) mail e h f = ground arith
step-forced me (run lucky) m (unlocking fair relock) mail e h f =
    let k = bucket-forced me m.bucket m (unparking fair relock) e h f in (k.0, inl k.1)
step-forced me (unpark be_fair) m (unparking fair relock) mail e h f =
    let k = unpark-forced fair relock be_fair m m.queue e h in (k.0, inl k.1)
step-forced me _ m _ mail e h f = absurd (cc)

FairStep-IsFair :
    {s t : System}
    → FairStep s t
    → ((j : ℕ) → IsFair (s.threads j))
    → (j : ℕ) → IsFair (t.threads j)
unfolding fair_step
FairStep-IsFair {s} (fair_pick i a {e} h) fair j =
    let stays = step-forced i a s.shared (s.threads i).pc (s.threads i).mail e h (fair i).0 in
    let sent =
      sent-fair i s.shared (s.threads i).pc (s.threads i).mail e
        (step-Move i (fair_call a) s.shared _ _ e h) (fair i).0 in
    elim sent [
      | inl quiet ↦ rw quiet (ground (arith, fair j, fair i, stays))
      | inr (x, woke) ↦ rw woke (ground (arith, fair j, fair i, stays))
    ]

pub FairReach-IsFair : {s : System} → FairReach s → (j : ℕ) → IsFair (s.threads j)
FairReach-IsFair fair_initial j = (refl, refl)
FairReach-IsFair (fair_later r st) j = FairStep-IsFair st (FairReach-IsFair r) j

-- No thread is woken in vain: in every state that threads reach through the calls of
-- `RawFairMutex`, a thread for which an unparker has left a token owns the mutex, though it may not
-- have woken up yet, and no other thread owns it.
pub woken_owns :
    {s : System}
    → FairReach s
    → (i token : ℕ) → (s.threads i).mail ≡ some token
    → (owns (s.threads i) ≡ true) × ((j : ℕ) → owns (s.threads j) ≡ true → j ≡ i)
woken_owns {s} r i token h =
    let fair = FairReach-IsFair r i in
    let own : owns (s.threads i) ≡ true = ground (arith, fair) in
    (own, λ j o. (Reach-Inv (FairReach-Reach r)).unique j i o own)
