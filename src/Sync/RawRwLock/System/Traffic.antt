-- ===== src/Sync/RawRwLock/System/Traffic.antt =====
-- Who is in the queues, and who has a token: kept by each kind of step.
use parking_lot.Prelude.{
  ℕ, ◌≡◌, ◌∙◌, sym, ==_refl, inl, inr, false, not, ◌&&◌, none, List, [], ◌∷◌, ◌==◌, arith,
  Bool-cases, keep, has, ◌∈◌, ◌∉◌, Distinct, Distinct-keep, Distinct-snoc, has-append, has-keep,
  update,
}
use parking_lot.Sync.RawRwLock.{Shared, Thread, Effect, WakeReason}
use parking_lot.Sync.RawRwLock.Wake.{base, filter_all}
use parking_lot.Sync.RawRwLock.System.{deliver}
use parking_lot.Sync.RawRwLock.System.Sift.{Sifted, filter_all-Sifted}
use parking_lot.Sync.RawRwLock.System.Moves.{
  awake, in_main, in_writer, place, asks, Kind, plain, stays, joins_main, joins_writer, leaves_main,
  leaves_writer, wakes, signals, filters, Guard,
}

pub record Traffic (m : Shared) (f : ℕ → Thread) : Type 0 where
  pub queued :
      (j : ℕ)
      → j ∈ m.queue
      → (place (f j).pc ≡ in_main) × ((f j).mail ≡ none) × (m.park_token j ≡ asks (f j).pc)
  pub waiting : (j : ℕ) → j ∈ m.writer_queue → (place (f j).pc ≡ in_writer) × ((f j).mail ≡ none)
  pub quiet : (j : ℕ) → place (f j).pc ≡ awake → (f j).mail ≡ none
  pub distinct : Distinct m.queue
  pub distinct_writer : Distinct m.writer_queue

module _ {m : Shared} {f : ℕ → Thread} (t : Traffic m f) (i : ℕ) (e : Effect) where
  abbrev G : Kind → Type 0
  G = Guard i m (f i).pc (f i).mail e

  abbrev threads : ℕ → Thread
  threads = deliver e.sent e.token (update f i e.self)

  sifted :
      (why : WakeReason)
      → Sifted m.park_token (base why) m.queue (filter_all m.park_token (base why) m.queue)
  sifted why = filter_all-Sifted m.park_token (base why) m.queue t.distinct

  keep_main : (j : ℕ) → has j (keep (λ k. not (k == i)) m.queue) ≡ (has j m.queue && not (j == i))
  keep_main j = has-keep j i m.queue

  keep_writer :
      (j : ℕ)
      → has j (keep (λ k. not (k == i)) m.writer_queue) ≡ (has j m.writer_queue && not (j == i))
  keep_writer j = has-keep j i m.writer_queue

  -- The thread that is signalled is not in the main queue.
  not_signalled :
      (x j : ℕ) (others : List ℕ) → m.writer_queue ≡ x ∷ others → j ∈ m.queue → (j == x) ≡ false
  not_signalled x j others q o = ground (arith, t.queued j, t.waiting j)

  Move-queued :
      (k : Kind)
      → G k
      → (j : ℕ) → j ∈ e.shared_state.queue
      → (place (threads j).pc ≡ in_main)
        × ((threads j).mail ≡ none)
        × (e.shared_state.park_token j ≡ asks (threads j).pc)
  Move-queued plain g j o = ground (arith, t.queued j, t.queued i)
  Move-queued stays (a, b, c, (q, w, p, n)) j o = elim (Bool-cases (i == j)) [
    | inl h ↦
        let f' : j ≡ i = ground arith in
        let old = t.queued i (ground (arith, q, f')) in
        rw (n, p, f', ==_refl i) (a ∙ old.0, c ∙ old.1, old.2 ∙ sym b)
    | inr h ↦ let old = t.queued j (ground (arith, q)) in rw (n, p, h) old
  ]
  Move-queued joins_main g j o =
      ground (arith, t.queued j, t.queued i, has-append j m.queue (i ∷ []))
  Move-queued joins_writer g j o = ground (arith, t.queued j, t.queued i)
  Move-queued leaves_main g j o = ground (arith, t.queued j, t.queued i, keep_main j)
  Move-queued leaves_writer g j o = ground (arith, t.queued j, t.queued i)
  Move-queued (wakes token) g j o = ground (arith, t.queued j, t.queued i)
  Move-queued (signals x others) (a, b, c, q, p, n, aw) j o =
      let here : j ∈ m.queue = ground (arith, q) in
      let old = t.queued j here in
      let ne = not_signalled x j others b here in
      elim (Bool-cases (i == j)) [
        | inl h ↦ absurd (ground (arith, old, a))
        | inr h ↦ rw (n, p, h, ne) old
      ]
  Move-queued (filters why) g j o =
      ground (arith, t.queued j, t.queued i, (sifted why).split j, (sifted why).apart j)

  Move-waiting :
      (k : Kind)
      → G k
      → (j : ℕ) → j ∈ e.shared_state.writer_queue
      → (place (threads j).pc ≡ in_writer) × ((threads j).mail ≡ none)
  Move-waiting joins_writer g j o =
      ground (arith, t.waiting j, t.waiting i, has-append j m.writer_queue (i ∷ []))
  Move-waiting leaves_writer g j o = ground (arith, t.waiting j, t.waiting i, keep_writer j)
  Move-waiting (signals x others) g j o =
      ground (arith, t.waiting j, t.waiting i, t.distinct_writer)
  Move-waiting (filters why) g j o =
      ground (arith, t.waiting j, t.waiting i, t.queued j, (sifted why).split j)
  Move-waiting stays (a, b, c, (q, w, p, n)) j o = elim (Bool-cases (i == j)) [
    | inl h ↦
        let f' : j ≡ i = ground arith in
        let old = t.waiting i (ground (arith, w, f')) in
        rw (n, f', ==_refl i) (a ∙ old.0, c ∙ old.1)
    | inr h ↦ let old = t.waiting j (ground (arith, w)) in rw (n, h) old
  ]
  Move-waiting k g j o = ground (arith, t.waiting j, t.waiting i)

  Move-quiet : (k : Kind) → G k → (j : ℕ) → place (threads j).pc ≡ awake → (threads j).mail ≡ none
  Move-quiet (signals x others) g j o = ground (arith, t.quiet j, t.quiet i, t.waiting j)
  Move-quiet (filters why) g j o =
      ground (arith, t.quiet j, t.quiet i, t.queued j, (sifted why).split j)
  Move-quiet k g j o = ground (arith, t.quiet j, t.quiet i)

  Move-Distinct : (k : Kind) → G k → Distinct e.shared_state.queue
  Move-Distinct joins_main g =
      let out : i ∉ m.queue = elim (Bool-cases (has i m.queue)) [
        | inl h ↦ absurd (ground (arith, t.queued i))
        | inr h ↦ h
      ] in
      rw (g.3) (Distinct-snoc i m.queue t.distinct out)
  Move-Distinct leaves_main g = rw (g.1) (Distinct-keep i m.queue t.distinct)
  Move-Distinct (filters why) g = rw (g.1) (sifted why).distinct_left
  Move-Distinct k g = ground (arith, t.distinct)

  Move-Distinct_writer : (k : Kind) → G k → Distinct e.shared_state.writer_queue
  Move-Distinct_writer joins_writer g =
      let out : i ∉ m.writer_queue = elim (Bool-cases (has i m.writer_queue)) [
        | inl h ↦ absurd (ground (arith, t.waiting i))
        | inr h ↦ h
      ] in
      rw (g.3) (Distinct-snoc i m.writer_queue t.distinct_writer out)
  Move-Distinct_writer leaves_writer g = rw (g.1) (Distinct-keep i m.writer_queue t.distinct_writer)
  Move-Distinct_writer (signals x others) g = ground (arith, t.distinct_writer)
  Move-Distinct_writer k g = ground (arith, t.distinct_writer)

  pub Move-Traffic : (k : Kind) → G k → Traffic e.shared_state threads
  Move-Traffic k g = record {
    queued = Move-queued k g;
    waiting = Move-waiting k g;
    quiet = Move-quiet k g;
    distinct = Move-Distinct k g;
    distinct_writer = Move-Distinct_writer k g;
  }
