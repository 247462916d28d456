-- ===== src/Sync/RawRwLock/System/Safety.antt =====
-- What holds of every reachable state of a reader-writer lock.
use parking_lot.Prelude.{
  ℕ, ◌-◌, ◌^◌, ◌<◌, ◌≤◌, ◌≡◌, refl, inl, inr, true, false, Option, none, some, ◌∷◌, ltb, List, [],
  ◌==◌, arith, Bool-cases, length, length_pos, length-below, has, ◌∈◌, ◌∉◌, Distinct,
}
use parking_lot.Sync.RawRwLock.{
  Word, ParkToken, remove_token, max_readers, Pc, drain_asleep, drain_timing, drain_timed,
}
use parking_lot.Sync.RawRwLock.Usize.{encode, value, token_held, remove_exact, fits_usize}
use parking_lot.Sync.RawRwLock.System.{System, Step, pick, init, Reach, initial, later}
use parking_lot.Sync.RawRwLock.System.Holds.{
  Hold, nothing, writes, counts, is_upgrade, is_writer, is_major, hold_at, hold,
}
use parking_lot.Sync.RawRwLock.System.Ledger.{Ledger, Ledger-Shows}
use parking_lot.Sync.RawRwLock.System.Moves.{in_main, in_writer, place, asks}
use parking_lot.Sync.RawRwLock.System.Classify.{step-Move}
use parking_lot.Sync.RawRwLock.System.Invariant.{Inv, Move-Inv}

init-Inv : Inv init.shared_state init.threads
init-Inv = record {
  traffic = record {
    queued = λ j h. cc;
    waiting = λ j h. cc;
    quiet = λ j h. refl;
    distinct = tt;
    distinct_writer = tt;
  };
  ledger = record {
    members = [];
    distinct = tt;
    member = λ j. refl;
    total = refl;
    unique = λ j k h. cc;
    upgrade = λ j h. cc;
    write = λ j h. cc;
    sole = λ j h. cc;
    owner = λ h. absurd (cc);
  };
}

Step-Inv : {s t : System} → Step s t → Inv s.shared_state s.threads → Inv t.shared_state t.threads
Step-Inv {s} (pick i a {e} h) inv = Move-Inv inv i e (
    step-Move i s.shared_state (s.threads i).mail e inv.traffic.distinct a (s.threads i).pc h
      (Ledger-Shows inv.ledger i))

pub Reach-Inv : {s : System} → Reach s → Inv s.shared_state s.threads
Reach-Inv initial = init-Inv
Reach-Inv (later r st) = Step-Inv st (Reach-Inv r)

holds_nothing : (h : Hold) → counts h ≡ false → is_major h ≡ false → h ≡ nothing
holds_nothing h c m = ground arith

no_member :
    {s : Word} {held : ℕ → Hold} (l : Ledger s held) (j : ℕ)
    → s.readers ≡ 0
    → counts (held j) ≡ false
no_member {s} {held} l j z = elim (Bool-cases (counts (held j))) [
  | inl c ↦ absurd (ground (arith, length_pos j l.members, l.member j, l.total))
  | inr c ↦ c
]

-- In every reachable state, while a thread holds the lock exclusively no other thread holds
-- anything of it: no shared lock, no upgradable lock, no exclusive lock, and not the writer bit of
-- a writer that waits. The writer bit is then set, the upgradable bit is clear and the reader count
-- is 0.
pub writer_excludes :
    {s : System}
    → Reach s
    → (i : ℕ) → hold (s.threads i) ≡ writes
    → ((j : ℕ) → (i == j) ≡ false → hold (s.threads j) ≡ nothing)
      × (s.shared_state.word.writer ≡ true)
      × (s.shared_state.word.upgradable ≡ false)
      × (s.shared_state.word.readers ≡ 0)
writer_excludes {s} r i h =
    let l = (Reach-Inv r).ledger in
    let sole = l.sole i (rw h refl) in
    let (w, u) = l.write i (rw h refl) in
    let alone : (j : ℕ) → (i == j) ≡ false → hold (s.threads j) ≡ nothing = λ j n.
      holds_nothing (hold (s.threads j)) (no_member l j sole)
        (elim (Bool-cases (is_major (hold (s.threads j)))) [
          | inl m ↦ let e = l.unique i j (rw h refl) m in absurd (ground arith)
          | inr m ↦ m
        ]) in
    (alone, w, u, sole)

-- In every reachable state at most one thread holds an upgradable lock, an exclusive lock, or the
-- writer bit with which a writer waits for the readers to leave. The upgradable bit is set exactly
-- while a thread holds an upgradable lock, and the writer bit exactly while a thread holds the lock
-- exclusively or waits for the readers to leave.
pub one_major :
    {s : System}
    → Reach s
    → ((i j : ℕ)
        → is_major (hold (s.threads i)) ≡ true
        → is_major (hold (s.threads j)) ≡ true
        → i ≡ j)
      × ((i : ℕ) → is_upgrade (hold (s.threads i)) ≡ true → s.shared_state.word.upgradable ≡ true)
      × ((i : ℕ) → is_writer (hold (s.threads i)) ≡ true → s.shared_state.word.writer ≡ true)
      × (s.shared_state.word.upgradable ≡ true → (i : ℕ) × (is_upgrade (hold (s.threads i)) ≡ true))
      × (s.shared_state.word.writer ≡ true → (i : ℕ) × (is_writer (hold (s.threads i)) ≡ true))
one_major {s} r =
    let l = (Reach-Inv r).ledger in
    (
      l.unique,
      λ i h. (l.upgrade i h).0,
      λ i h. (l.write i h).0,
      λ u. let (i, m) = l.owner (ground arith) in (i, ground (arith, l.write i)),
      λ w. let (i, m) = l.owner (ground arith) in (i, ground (arith, l.upgrade i)),
    )

-- In every reachable state the reader count is the number of threads that hold a shared or an
-- upgradable lock: some list without repetition has that length and holds exactly those threads.
pub readers_counted :
    {s : System}
    → Reach s
    → (xs : List ℕ) × Distinct xs
      × ((j : ℕ) → has j xs ≡ counts (hold (s.threads j)))
      × (length xs ≡ s.shared_state.word.readers)
readers_counted r = let l = (Reach-Inv r).ledger in (l.members, l.distinct, l.member, l.total)

-- In every reachable state a thread in the main queue is parked there without a token, and its park
-- token is that of the lock it asks for; a thread in the writer's queue is parked there without a
-- token; no thread is in either queue twice, nor in both.
pub queues_agree :
    {s : System}
    → Reach s
    → Distinct s.shared_state.queue
      × Distinct s.shared_state.writer_queue
      × ((j : ℕ)
          → j ∈ s.shared_state.queue
          → (place (s.threads j).pc ≡ in_main)
            × ((s.threads j).mail ≡ none)
            × (s.shared_state.park_token j ≡ asks (s.threads j).pc)
            × (j ∉ s.shared_state.writer_queue))
      × ((j : ℕ)
          → j ∈ s.shared_state.writer_queue
          → (place (s.threads j).pc ≡ in_writer) × ((s.threads j).mail ≡ none))
queues_agree {s} r =
    let t = (Reach-Inv r).traffic in
    let apart : (j : ℕ) → j ∈ s.shared_state.queue → j ∉ s.shared_state.writer_queue = λ j o.
      elim (Bool-cases (has j s.shared_state.writer_queue)) [
        | inl w ↦ absurd (ground (arith, t.queued j, t.waiting j))
        | inr w ↦ w
      ] in
    (
      t.distinct,
      t.distinct_writer,
      λ j o. let (p, n, k) = t.queued j o in (p, n, k, apart j o),
      t.waiting,
    )

-- In every reachable state the `fetch_sub` (or `fetch_add` of a difference) with which a thread
-- gives its lock up subtracts a token that is at most the `usize`, so that it does not wrap around,
-- and changes only the fields of that token: `ONE_READER` for a shared lock,
-- `ONE_READER | UPGRADABLE_BIT` for an upgradable lock, `WRITER_BIT` for an exclusive lock or a
-- writer that waits.
pub release_exact :
    {s : System}
    → Reach s
    → (i : ℕ) (t : ParkToken) → token_held (hold (s.threads i)) ≡ some t
    → (value t ≤ encode s.shared_state.word)
      × (encode (remove_token t s.shared_state.word) ≡ encode s.shared_state.word - value t)
release_exact {s} r i t k =
    remove_exact s.shared_state.word (hold (s.threads i)) t k (Ledger-Shows (Reach-Inv r).ledger i)

-- In every reachable state, when no thread from number `n` on holds a shared or an upgradable lock,
-- the reader count is at most `n`; and when `n` is below 2⁶⁰ the word fits into 64 bits.
pub readers_bounded :
    {s : System}
    → Reach s
    → (n : ℕ) → ((j : ℕ) → n ≤ j → counts (hold (s.threads j)) ≡ false)
    → (s.shared_state.word.readers ≤ n) × (n < max_readers → encode s.shared_state.word < 2 ^ 64)
readers_bounded {s} r n h =
    let l = (Reach-Inv r).ledger in
    let below : (a : ℕ) → a ∈ l.members → a < n = λ a m. elim (Bool-cases (ltb a n)) [
      | inl p ↦ ground arith
      | inr p ↦ absurd (ground (arith, l.member a, h a (ground arith)))
    ] in
    let few : s.shared_state.word.readers ≤ n =
      rw (← l.total) (length-below n l.members l.distinct below) in
    (few, λ b. (fits_usize s.shared_state.word).1 (omega (arith, few)))

pub waits_major :
    (p : Pc) (mail : Option ℕ) → place p ≡ in_writer → is_major (hold_at p mail) ≡ true
waits_major (drain_asleep upgrading timeout w) mail h = refl
waits_major (drain_timing upgrading w) mail h = refl
waits_major (drain_timed upgrading w) mail h = refl
waits_major _ mail h = absurd (cc)

one_of : (xs : List ℕ) → Distinct xs → ((a b : ℕ) → a ∈ xs → b ∈ xs → a ≡ b) → length xs ≤ 1
one_of [] d h = omega arith
one_of (x ∷ []) d h = omega arith
one_of (x ∷ y ∷ ys) d h = absurd (ground (arith, h x y (ground arith) (ground arith), d.0))

-- In every reachable state at most one thread is in the writer's queue. So the thread that is woken
-- by the last reader is the only one there, and one whose deadline passes there is the last one,
-- which the closure `timed_out` of `wait_for_readers` asserts.
pub one_waiting_writer : {s : System} → Reach s → length s.shared_state.writer_queue ≤ 1
one_waiting_writer {s} r =
    let inv = Reach-Inv r in
    one_of s.shared_state.writer_queue inv.traffic.distinct_writer λ a b i j.
      inv.ledger.unique a b
        (waits_major (s.threads a).pc (s.threads a).mail (inv.traffic.waiting a i).0)
        (waits_major (s.threads b).pc (s.threads b).mail (inv.traffic.waiting b j).0)
