-- ===== src/Sync/RawRwLock/System/Wakeup.antt =====
-- No writer that waits for the readers to leave is forgotten.
use parking_lot.Prelude.{
  ℕ, ◌≡◌, ◌⊎◌, refl, inl, inr, true, false, Option, ◌==◌, arith, Bool-cases, List, [], ◌∷◌, length,
  has, ◌∈◌,
}
use parking_lot.Sync.RawRwLock.{Pc, drain_enqueuing, Shared, Thread}
use parking_lot.Sync.RawRwLock.System.{System, pick, init, Reach, initial, later}
use parking_lot.Sync.RawRwLock.System.Holds.{counts, is_major, hold_at, hold}
use parking_lot.Sync.RawRwLock.System.Ledger.{Ledger-Shows}
use parking_lot.Sync.RawRwLock.System.Invariant.{Inv}
use parking_lot.Sync.RawRwLock.System.Safety.{Reach-Inv, one_waiting_writer, waits_major}
use parking_lot.Sync.RawRwLock.System.Rings.{signals, enqueues, pending, Rung, Ring-Rung}
use parking_lot.Sync.RawRwLock.System.RingClassify.{step-Ring}

enqueues_major : (p : Pc) (mail : Option ℕ) → enqueues p ≡ true → is_major (hold_at p mail) ≡ true
enqueues_major (drain_enqueuing upgrading timeout w) mail h = refl
enqueues_major _ mail h = absurd (cc)

pending_major :
    {m : Shared} {f : ℕ → Thread} (inv : Inv m f) (j : ℕ)
    → pending m f j ≡ true
    → is_major (hold (f j)) ≡ true
pending_major {m} {f} inv j h = elim (Bool-cases (has j m.writer_queue)) [
  | inl q ↦ waits_major (f j).pc (f j).mail (inv.traffic.waiting j q).0
  | inr q ↦ enqueues_major (f j).pc (f j).mail (ground arith)
]

init-Rung : Rung init.shared_state init.threads
init-Rung = record { door = λ j h. cc; bell = λ j h. absurd (cc) }

Reach-Rung : {s : System} → Reach s → Rung s.shared_state s.threads
Reach-Rung initial = init-Rung
Reach-Rung (later {s} r (pick i a {e} h)) =
    let inv = Reach-Inv r in
    Ring-Rung (Reach-Rung r) i e inv.ledger.unique (pending_major inv)
      (λ j q. (inv.traffic.waiting j q).0) (one_waiting_writer r)
      (step-Ring i s.shared_state e a (s.threads i).pc (s.threads i).mail
        (Ledger-Shows inv.ledger i) h)

member_of : (xs : List ℕ) (n : ℕ) → length xs ≡ n → (n == 0) ≡ false → (a : ℕ) × (a ∈ xs)
member_of [] n e z = absurd (ground arith)
member_of (x ∷ xs) n e z = (x, ground arith)

-- In every reachable state in which a thread is in the writer's queue, where it sleeps until it is
-- woken, it cannot be forgotten: either the bit of a parked writer is set and some thread still
-- holds a shared or upgradable lock, or some thread has left as the last reader and is on its way
-- to wake the queue.
pub writer_is_woken :
    {s : System}
    → Reach s
    → (j : ℕ) → j ∈ s.shared_state.writer_queue
    → ((s.shared_state.word.writer_parked ≡ true) × (k : ℕ) × (counts (hold (s.threads k)) ≡ true))
      ⊎ ((k : ℕ) × (signals (s.threads k).pc ≡ true))
writer_is_woken {s} r j q =
    let l = (Reach-Inv r).ledger in
    elim ((Reach-Rung r).bell j (ground arith)) [
      | inr b ↦ inr b
      | inl g ↦
          let (k, i) = member_of l.members s.shared_state.word.readers l.total (ground arith) in
          inl (ground arith, k, ground (arith, l.member k))
    ]
