-- ===== src/Sync/RawRwLock/System/Moves.antt =====
-- The kinds of steps, by what they do to the queues, and what they do to what threads hold.
use parking_lot.Prelude.{
  ℕ, ◌≡◌, false, not, Option, none, some, List, [], ◌∷◌, ◌++◌, ◌==◌, keep, update,
}
use parking_lot.Sync.RawMutex.{token_handoff}
use parking_lot.Sync.RawRwLock.{
  ParkToken, token_shared, token_of, WakeReason, Pc, asleep, timing, timed, drain_asleep,
  drain_timing, drain_timed, Shared, Effect,
}
use parking_lot.Sync.RawRwLock.Wake.{base, filter_all}
use parking_lot.Sync.RawRwLock.System.Holds.{nothing, hold_at, Swap}
use parking_lot.Sync.RawRwLock.System.Grant.{Grant}

-- Whether the thread is in `park` behind its enqueuing, and on which queue.
pub data Place : Type 0 where
  awake in_main in_writer : Place

abbrev pub place : Pc → Place
place (asleep want timeout) = in_main
place (timing want) = in_main
place (timed want) = in_main
place (drain_asleep upgrading timeout w) = in_writer
place (drain_timing upgrading w) = in_writer
place (drain_timed upgrading w) = in_writer
place _ = awake

abbrev pub asks : Pc → ParkToken
asks (asleep want timeout) = token_of want
asks (timing want) = token_of want
asks (timed want) = token_of want
asks _ = token_shared

pub data Kind : Type 0 where
  plain stays joins_main joins_writer leaves_main leaves_writer : Kind
  wakes : (token : ℕ) → Kind
  signals : (x : ℕ) → (others : List ℕ) → Kind
  filters : (why : WakeReason) → Kind

module _ (me : ℕ) (m : Shared) (p : Pc) (mail : Option ℕ) (e : Effect) where
  abbrev pub Same : Type 0
  Same =
      (e.shared_state.queue ≡ m.queue)
      × (e.shared_state.writer_queue ≡ m.writer_queue)
      × (e.shared_state.park_token ≡ m.park_token)
      × (e.sent ≡ [])

  -- The thread is awake after the step, and has no token.
  abbrev pub Awake : Type 0
  Awake = (place e.self.pc ≡ awake) × (e.self.mail ≡ none)

  abbrev pub Guard : Kind → Type 0
  Guard plain = (place p ≡ awake) × Awake × Same
  Guard stays =
      (place e.self.pc ≡ place p) × (asks e.self.pc ≡ asks p) × (e.self.mail ≡ mail) × Same
  Guard joins_main =
      (place p ≡ awake)
      × (place e.self.pc ≡ in_main)
      × (e.self.mail ≡ none)
      × (e.shared_state.queue ≡ m.queue ++ me ∷ [])
      × (e.shared_state.park_token ≡ update m.park_token me (asks e.self.pc))
      × (e.shared_state.writer_queue ≡ m.writer_queue)
      × (e.sent ≡ [])
  Guard joins_writer =
      (place p ≡ awake)
      × (place e.self.pc ≡ in_writer)
      × (e.self.mail ≡ none)
      × (e.shared_state.writer_queue ≡ m.writer_queue ++ me ∷ [])
      × (e.shared_state.queue ≡ m.queue)
      × (e.shared_state.park_token ≡ m.park_token)
      × (e.sent ≡ [])
  Guard leaves_main =
      (place p ≡ in_main)
      × (e.shared_state.queue ≡ keep (λ i. not (i == me)) m.queue)
      × (e.shared_state.writer_queue ≡ m.writer_queue)
      × (e.shared_state.park_token ≡ m.park_token)
      × (e.sent ≡ [])
      × Awake
  Guard leaves_writer =
      (place p ≡ in_writer)
      × (e.shared_state.writer_queue ≡ keep (λ i. not (i == me)) m.writer_queue)
      × (e.shared_state.queue ≡ m.queue)
      × (e.shared_state.park_token ≡ m.park_token)
      × (e.sent ≡ [])
      × Awake
  Guard (wakes token) = (mail ≡ some token) × Awake × Same
  Guard (signals x others) =
      (place p ≡ awake)
      × (m.writer_queue ≡ x ∷ others)
      × (e.shared_state.writer_queue ≡ others)
      × (e.shared_state.queue ≡ m.queue)
      × (e.shared_state.park_token ≡ m.park_token)
      × (e.sent ≡ x ∷ [])
      × Awake
  Guard (filters why) =
      (place p ≡ awake)
      × (e.shared_state.queue ≡ (filter_all m.park_token (base why) m.queue).left)
      × (e.sent ≡ (filter_all m.park_token (base why) m.queue).taken)
      × (e.shared_state.writer_queue ≡ m.writer_queue)
      × (e.shared_state.park_token ≡ m.park_token)
      × Awake

  -- What the threads hold: only the thread of the step may change it, or it hands its lock over to
  -- the threads that it wakes.
  pub data Change : Kind → Type 0 where
    swaps :
        {k : Kind}
        → (e.token == token_handoff) ≡ false
        → Swap m.word (hold_at p mail) e.shared_state.word (hold_at e.self.pc e.self.mail)
        → Change k
    hands :
        {why : WakeReason}
        → e.token ≡ token_handoff
        → hold_at e.self.pc e.self.mail ≡ nothing
        → Grant m.park_token m.word (hold_at p mail) e.shared_state.word e.sent
        → Change (filters why)

  abbrev pub Move : Type 0
  Move = (k : Kind) × Guard k × Change k
