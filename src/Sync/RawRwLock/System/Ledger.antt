-- ===== src/Sync/RawRwLock/System/Ledger.antt =====
-- The word of a reader-writer lock agrees with what all threads hold.
use parking_lot.Prelude.{
  ℕ, ◌≡◌, inl, inr, true, false, not, ◌||◌, List, ◌∷◌, ◌==◌, if◌then◌else◌, arith, Bool-cases,
  length, keep, has, Distinct, Distinct-keep, has-keep, update, length-keep_other, length_pos,
}
use parking_lot.Sync.RawRwLock.{Word}
use parking_lot.Sync.RawRwLock.System.Holds.{
  Hold, counts, is_upgrade, is_writer, is_sole, is_major, Shows, Swap,
}

pub record Ledger (s : Word) (hold : ℕ → Hold) : Type 0 where
  pub members : List ℕ
  pub distinct : Distinct members
  pub member : (j : ℕ) → has j members ≡ counts (hold j)
  pub total : length members ≡ s.readers
  pub unique : (j k : ℕ) → is_major (hold j) ≡ true → is_major (hold k) ≡ true → j ≡ k
  pub upgrade : (j : ℕ) → is_upgrade (hold j) ≡ true → (s.upgradable ≡ true) × (s.writer ≡ false)
  pub write : (j : ℕ) → is_writer (hold j) ≡ true → (s.writer ≡ true) × (s.upgradable ≡ false)
  pub sole : (j : ℕ) → is_sole (hold j) ≡ true → s.readers ≡ 0
  pub owner : (s.upgradable || s.writer) ≡ true → (j : ℕ) × (is_major (hold j) ≡ true)

pub Ledger-cong : {s : Word} {g h : ℕ → Hold} → Ledger s g → ((j : ℕ) → h j ≡ g j) → Ledger s h
Ledger-cong {s} {g} {h} l same = record {
  members = l.members;
  distinct = l.distinct;
  member = λ j. rw (same j) (l.member j);
  total = l.total;
  unique = λ j k. rw (same j, same k) (l.unique j k);
  upgrade = λ j. rw (same j) (l.upgrade j);
  write = λ j. rw (same j) (l.write j);
  sole = λ j. rw (same j) (l.sole j);
  owner = λ o. let (j, m) = l.owner o in (j, rw (same j) m);
}

pub Ledger-Shows : {s : Word} {hold : ℕ → Hold} → Ledger s hold → (j : ℕ) → Shows s (hold j)
Ledger-Shows {s} {hold} l j = record {
  upgrade = l.upgrade j;
  write = l.write j;
  sole = l.sole j;
  counted = elim (Bool-cases (counts (hold j))) [
    | inl c ↦ rw c (ground (arith, length_pos j l.members, l.member j, l.total))
    | inr c ↦ rw c (omega arith)
  ];
}

module _ {s : Word} {hold : ℕ → Hold} (l : Ledger s hold) (i : ℕ) (s' : Word) (h' : Hold)
    (w : Swap s (hold i) s' h') where
  abbrev after : ℕ → Hold
  after = update hold i h'

  abbrev members' : List ℕ
  members' =
      if counts h'
      then (if counts (hold i) then l.members else i ∷ l.members)
      else keep (λ k. not (k == i)) l.members

  Swap-Distinct : Distinct members'
  Swap-Distinct = elim (Bool-cases (counts h')) [
    | inl c ↦ elim (Bool-cases (counts (hold i))) [
      | inl d ↦ rw (c, d) l.distinct
      | inr d ↦ rw (c, d) (ground (arith, l.member i), l.distinct)
    ]
    | inr c ↦ rw c (Distinct-keep i l.members l.distinct)
  ]

  Swap-member : (j : ℕ) → has j members' ≡ counts (after j)
  Swap-member j = ground (arith, l.member j, l.member i, has-keep j i l.members)

  Swap-total : length members' ≡ s'.readers
  Swap-total =
      ground (arith, l.member i, l.total, w.readers, length-keep_other i l.members l.distinct)

  Swap-unique : (j k : ℕ) → is_major (after j) ≡ true → is_major (after k) ≡ true → j ≡ k
  Swap-unique j k = ground (
    arith,
    l.unique j k,
    l.unique i j,
    l.unique i k,
    l.upgrade j,
    l.upgrade k,
    l.write j,
    l.write k,
    w.admits,
  )

  Swap-upgrade :
      (j : ℕ) → is_upgrade (after j) ≡ true → (s'.upgradable ≡ true) × (s'.writer ≡ false)
  Swap-upgrade j =
      ground (arith, l.upgrade j, l.unique i j, l.write i, w.upgrade, w.write, w.admits)

  Swap-write : (j : ℕ) → is_writer (after j) ≡ true → (s'.writer ≡ true) × (s'.upgradable ≡ false)
  Swap-write j = ground (arith, l.write j, l.unique i j, l.upgrade i, w.upgrade, w.write, w.admits)

  Swap-sole : (j : ℕ) → is_sole (after j) ≡ true → s'.readers ≡ 0
  Swap-sole j = ground (
    arith,
    l.sole j,
    l.write j,
    l.unique i j,
    (Ledger-Shows l i).counted,
    w.readers,
    w.sole,
    w.joins,
    w.admits,
  )

  kept_flags :
      is_major h' ≡ false
      → is_major (hold i) ≡ false
      → (s'.upgradable || s'.writer) ≡ true
      → (s.upgradable || s.writer) ≡ true
  kept_flags m n o = ground (arith, w.upgrade, w.write)

  moved : (j : ℕ) → is_major (hold i) ≡ false → is_major (hold j) ≡ true → is_major (after j) ≡ true
  moved j n h = ground arith

  Swap-owner : (s'.upgradable || s'.writer) ≡ true → (j : ℕ) × (is_major (after j) ≡ true)
  Swap-owner o = elim (Bool-cases (is_major h')) [
    | inl m ↦ (i, ground arith)
    | inr m ↦ elim (Bool-cases (is_major (hold i))) [
      | inl n ↦ absurd (ground (arith, l.upgrade i, l.write i, w.upgrade, w.write))
      | inr n ↦ let (j, h) = l.owner (kept_flags m n o) in (j, moved j n h)
    ]
  ]

  pub Swap-Ledger : Ledger s' after
  Swap-Ledger = record {
    members = members';
    distinct = Swap-Distinct;
    member = Swap-member;
    total = Swap-total;
    unique = Swap-unique;
    upgrade = Swap-upgrade;
    write = Swap-write;
    sole = Swap-sole;
    owner = Swap-owner;
  }
