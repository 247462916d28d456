-- ===== src/Sync/RawRwLock/System/Invariant.antt =====
-- Each step keeps the word in agreement with what the threads hold.
use parking_lot.Prelude.{
  ℕ, ◌≡◌, ◌∙◌, ap, sym, refl, inl, inr, false, none, some, ◌==◌, arith, Bool-cases, has, ◌∈◌,
  update,
}
use parking_lot.Sync.RawMutex.{token_handoff}
use parking_lot.Sync.RawRwLock.{Pc, Shared, Thread, Effect, asleep, timing, timed}
use parking_lot.Sync.RawRwLock.Wake.{base}
use parking_lot.Sync.RawRwLock.System.{deliver}
use parking_lot.Sync.RawRwLock.System.Holds.{Hold, nothing, hold_token, hold_at, hold}
use parking_lot.Sync.RawRwLock.System.Ledger.{Ledger, Ledger-cong, Swap-Ledger}
use parking_lot.Sync.RawRwLock.System.Sift.{filter_all-Sifted}
use parking_lot.Sync.RawRwLock.System.Grant.{granted_to, Grant-Ledger}
use parking_lot.Sync.RawRwLock.System.Moves.{
  in_main, place, asks, Kind, signals, filters, Guard, Change, swaps, hands, Move,
}
use parking_lot.Sync.RawRwLock.System.Traffic.{Traffic, Move-Traffic}

-- What a token means for a thread that sleeps.
normal_token :
    (p : Pc) (token : ℕ)
    → (token == token_handoff) ≡ false
    → hold_at p (some token) ≡ hold_at p none
normal_token (asleep want timeout) token h = ground arith
normal_token (timing want) token h = ground arith
normal_token (timed want) token h = ground arith
normal_token _ token h = refl

handed_token : (p : Pc) → place p ≡ in_main → hold_at p (some token_handoff) ≡ hold_token (asks p)
handed_token (asleep want timeout) h = refl
handed_token (timing want) h = refl
handed_token (timed want) h = refl
handed_token _ h = absurd (cc)

no_token : (p : Pc) → place p ≡ in_main → hold_at p none ≡ nothing
no_token (asleep want timeout) h = refl
no_token (timing want) h = refl
no_token (timed want) h = refl
no_token _ h = absurd (cc)

pub record Inv (m : Shared) (f : ℕ → Thread) : Type 0 where
  pub traffic : Traffic m f
  pub ledger : Ledger m.word (λ j. hold (f j))

module _ {m : Shared} {f : ℕ → Thread} (inv : Inv m f) (i : ℕ) (e : Effect) where
  abbrev t : Traffic m f
  t = inv.traffic

  abbrev threads : ℕ → Thread
  threads = deliver e.sent e.token (update f i e.self)

  abbrev own : Hold
  own = hold_at e.self.pc e.self.mail

  -- A thread that is sent a token sleeps without one.
  sent_to :
      (k : Kind)
      → Guard i m (f i).pc (f i).mail e k
      → (j : ℕ) → j ∈ e.sent
      → ((i == j) ≡ false) × ((f j).mail ≡ none)
  sent_to (signals x others) g j o = ground (arith, t.waiting j)
  sent_to (filters why) g j o =
      ground
        (arith, t.queued j, (filter_all-Sifted m.park_token (base why) m.queue t.distinct).split j)
  sent_to k g j o = absurd (ground arith)

  swapped :
      (k : Kind)
      → Guard i m (f i).pc (f i).mail e k
      → (e.token == token_handoff) ≡ false
      → (j : ℕ) → hold (threads j) ≡ update (λ j. hold (f j)) i own j
  swapped k g n j = elim (Bool-cases (has j e.sent)) [
    | inl s ↦
        let (ne, none_yet) = sent_to k g j s in
        rw (s, ne) (normal_token (f j).pc e.token n ∙ ap (hold_at (f j).pc) (sym none_yet))
    | inr s ↦ elim (Bool-cases (i == j)) [ inl h ↦ rw (s, h) | inr h ↦ rw (s, h) ]
  ]

  Change-Ledger :
      (k : Kind)
      → Guard i m (f i).pc (f i).mail e k
      → Change i m (f i).pc (f i).mail e k
      → Ledger e.shared_state.word (λ j. hold (threads j))
  Change-Ledger k g (swaps n w) =
      Ledger-cong (Swap-Ledger inv.ledger i e.shared_state.word own w) (swapped k g n)
  Change-Ledger (filters why) g (hands h z w) =
      Ledger-cong (Grant-Ledger inv.ledger m.park_token i e.shared_state.word e.sent w handed_none)
        given
    where
      queued_of : (a : ℕ) → a ∈ e.sent → a ∈ m.queue
      queued_of a s =
          ground (arith, (filter_all-Sifted m.park_token (base why) m.queue t.distinct).split a)

      handed_none : (a : ℕ) → a ∈ e.sent → hold (f a) ≡ nothing
      handed_none a s =
          let (p, n, q) = t.queued a (queued_of a s) in
          ap (hold_at (f a).pc) n ∙ no_token (f a).pc p

      given :
          (j : ℕ)
          → hold (threads j)
            ≡ granted_to inv.ledger m.park_token i e.shared_state.word e.sent w handed_none j
      given j = elim (Bool-cases (has j e.sent)) [
        | inl s ↦
            let (ne, none_yet) = sent_to (filters why) g j s in
            let (p, n, q) = t.queued j (queued_of j s) in
            rw (s, ne, h) (handed_token (f j).pc p ∙ ap hold_token (sym q))
        | inr s ↦ elim (Bool-cases (i == j)) [ inl d ↦ rw (s, d) z | inr d ↦ rw (s, d) ]
      ]

  pub Move-Inv : Move i m (f i).pc (f i).mail e → Inv e.shared_state threads
  Move-Inv (k, g, c) = record { traffic = Move-Traffic t i e k g; ledger = Change-Ledger k g c }
