-- ===== src/Sync/RawMutex/RawFairMutex/Order.antt =====
-- A fair mutex serves the threads in its queue in their order.
use parking_lot.Prelude.{
  ℕ, ◌≡◌, refl, Bool, true, false, not, some, List, [], ◌∷◌, arith, ◌==◌, has_bit, is_empty, keep,
}
use parking_lot.Sync.RawMutex.{
  timed_out_callback, token_handoff, locked_bit, Shared, Thread, Effect,
}
use parking_lot.Sync.RawMutex.System.{System, apply}
use parking_lot.Sync.RawMutex.System.Moves.{Move, hand_off, times_out}
use parking_lot.Sync.RawMutex.System.Classify.{step-Move}
use parking_lot.Sync.RawMutex.System.Safety.{Reach-Inv}
use parking_lot.Sync.RawMutex.System.Invariant.{owns, Inv}
use parking_lot.Sync.RawMutex.RawFairMutex.{
  fair_call, fair_step, FairStep, fair_pick, FairReach, fair_initial, fair_later,
}
use parking_lot.Sync.RawMutex.RawFairMutex.Safety.{
  FairReach-Reach, forced, IsFair, FairReach-IsFair,
}

keep-nonempty : (p : ℕ → Bool) (xs : List ℕ) → is_empty (keep p xs) ≡ false → is_empty xs ≡ false
keep-nonempty p [] h = h
keep-nonempty p (x ∷ xs) h = refl

-- While a thread is in the queue, the mutex is locked.
abbrev IsClosed : Shared → Type 0
IsClosed m = is_empty m.queue ≡ false → has_bit locked_bit m.word ≡ true

stays_locked :
    (last : Bool) (word : ℕ)
    → last ≡ false
    → has_bit locked_bit word ≡ true
    → has_bit locked_bit (timed_out_callback last word) ≡ true
unfolding timed_out_callback
stays_locked last word h locked = rw h locked

Move-IsClosed :
    (i : ℕ) (m : Shared) (f : ℕ → Thread) (e : Effect)
    → Inv m f
    → forced (f i).pc ≡ true
    → Move i m (f i).pc (f i).mail e
    → IsClosed m
    → IsClosed e.shared
Move-IsClosed i m f e inv fair (times_out, g) c h =
    let q : List ℕ = keep (λ k. not (k == i)) m.queue in
    let left : is_empty q ≡ false = rw g.2 at h in
    let word : e.shared.word ≡ timed_out_callback (is_empty q) m.word = rw g.2 refl in
    rw word (stays_locked (is_empty q) m.word left (c (keep-nonempty _ m.queue left)))
Move-IsClosed i m f e inv fair (kind, g) c h =
    ground (arith, inv.small, inv.parked, inv.validated i)

FairStep-IsClosed :
    {s t : System} → FairReach s → FairStep s t → IsClosed s.shared → IsClosed t.shared
unfolding fair_step
FairStep-IsClosed {s} r (fair_pick i a {e} h) c =
    Move-IsClosed i s.shared s.threads e (Reach-Inv (FairReach-Reach r)) (FairReach-IsFair r i).0
      (step-Move i (fair_call a) s.shared _ _ e h) c

FairReach-IsClosed : {s : System} → FairReach s → IsClosed s.shared
FairReach-IsClosed fair_initial = λ h. absurd (cc)
FairReach-IsClosed (fair_later r st) = FairStep-IsClosed r st (FairReach-IsClosed r)

-- A thread that comes to own the mutex while `x` is the oldest thread in its queue.
record Served (s t : System) (x : ℕ) (others : List ℕ) (j : ℕ) : Type 0 where
  pub oldest : j ≡ x
  pub handed : (t.threads x).mail ≡ some token_handoff
  pub behind : t.shared.queue ≡ others

Move-Served :
    (s : System) (i : ℕ) (e : Effect)
    → Inv s.shared s.threads
    → IsFair (s.threads i)
    → IsClosed s.shared
    → Move i s.shared (s.threads i).pc (s.threads i).mail e
    → (x : ℕ) (others : List ℕ) → s.shared.queue ≡ x ∷ others
    → (j : ℕ) → owns (s.threads j) ≡ false
    → owns ((apply i e s).threads j) ≡ true
    → Served s (apply i e s) x others j
Move-Served s i e inv fair c (hand_off f relock y more, g) x others q j before after = record {
  oldest = ground (arith, q);
  handed = ground (arith, q, inv.queued x);
  behind = ground (arith, q);
}
Move-Served s i e inv fair c (kind, g) x others q j before after = absurd (ground (arith, q))

-- On a fair mutex nobody overtakes the threads in the queue. In a state that threads reach through
-- the calls of `RawFairMutex`, with `x` the oldest thread in the queue: a thread that does not own
-- the mutex and owns it after the next step, whatever that step is, is `x`; it has been left the
-- hand-off token, and the others stay in the queue, in their order.
pub oldest_owns_next :
    {s t : System}
    → FairReach s
    → FairStep s t
    → (x : ℕ) (others : List ℕ) → s.shared.queue ≡ x ∷ others
    → (j : ℕ) → owns (s.threads j) ≡ false
    → owns (t.threads j) ≡ true
    → (j ≡ x) × ((t.threads x).mail ≡ some token_handoff) × (t.shared.queue ≡ others)
unfolding fair_step
oldest_owns_next {s} r (fair_pick i a {e} h) x others q j before after =
    let served =
      Move-Served s i e (Reach-Inv (FairReach-Reach r)) (FairReach-IsFair r i)
        (FairReach-IsClosed r) (step-Move i (fair_call a) s.shared _ _ e h) x others q j before
        after in
    (served.oldest, served.handed, served.behind)
