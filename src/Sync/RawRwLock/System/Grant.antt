-- ===== src/Sync/RawRwLock/System/Grant.antt =====
-- A hand-off: the lock of one thread goes over to the threads that it wakes.
use parking_lot.Prelude.{
  ℕ, ◌+◌, ◌≡◌, refl, inl, inr, true, false, not, ◌&&◌, ◌||◌, List, ◌++◌, ◌==◌, if◌then◌else◌, arith,
  Bool-cases, length, length-append, keep, has, ◌∈◌, ◌∉◌, Distinct, Distinct-keep, Distinct-keep_by,
  Distinct-append, has-append, has-keep, has-keep_by, length-keep_other,
}
use parking_lot.Sync.RawRwLock.{Word, ParkToken, token_shared, token_upgradable, token_exclusive}
use parking_lot.Sync.RawRwLock.System.Holds.{
  Hold, nothing, hold_token, counts, is_upgrade, is_writer, is_sole, is_major, number,
}
use parking_lot.Sync.RawRwLock.System.Ledger.{Ledger}
use parking_lot.Sync.RawRwLock.System.Sift.{token_counts, token_major}

pub record Grant (token : ℕ → ParkToken) (s : Word) (h : Hold) (s' : Word) (taken : List ℕ)
    : Type 0 where
  pub major : is_major h ≡ true
  pub distinct : Distinct taken
  pub total : s'.readers + number h ≡ s.readers + length (keep (token_counts token) taken)
  pub majors :
      (a : ℕ)
      → a ∈ taken
      → token_major token a ≡ true
      → (s'.upgradable ≡ is_upgrade (hold_token (token a)))
        × (s'.writer ≡ is_writer (hold_token (token a)))
  pub unique :
      (a b : ℕ)
      → a ∈ taken
      → b ∈ taken
      → token_major token a ≡ true
      → token_major token b ≡ true
      → a ≡ b
  pub owner :
      (s'.upgradable || s'.writer) ≡ true → (a : ℕ) × (a ∈ taken) × (token_major token a ≡ true)

token-split :
    (t : ParkToken)
    → (is_sole (hold_token t) ≡ false)
      × ((is_upgrade (hold_token t) && is_writer (hold_token t)) ≡ false)
token-split token_shared = (refl, refl)
token-split token_upgradable = (refl, refl)
token-split token_exclusive = (refl, refl)

module _ {s : Word} {hold : ℕ → Hold} (l : Ledger s hold) (token : ℕ → ParkToken) (i : ℕ)
    (s' : Word) (taken : List ℕ) (g : Grant token s (hold i) s' taken)
    (free_handed : (a : ℕ) → a ∈ taken → hold a ≡ nothing) where
  abbrev pub granted_to : ℕ → Hold
  granted_to j = if has j taken then hold_token (token j) else if i == j then nothing else hold j

  abbrev kept : List ℕ
  kept = keep (λ k. not (k == i)) l.members

  abbrev new : List ℕ
  new = keep (token_counts token) taken

  out : i ∉ taken
  out = elim (Bool-cases (has i taken)) [
    | inl m ↦ let e = free_handed i m in absurd (ground (arith, e, g.major))
    | inr m ↦ m
  ]

  outside : (j : ℕ) → counts (hold j) ≡ true → j ∉ taken
  outside j c = elim (Bool-cases (has j taken)) [
    | inl m ↦ let e = free_handed j m in absurd (ground (arith, e))
    | inr m ↦ m
  ]

  Grant-Distinct : Distinct (kept ++ new)
  Grant-Distinct =
      Distinct-append kept new (Distinct-keep i l.members l.distinct)
        (Distinct-keep_by (token_counts token) taken g.distinct)
        λ a m. ground (
          arith,
          has-keep a i l.members,
          has-keep_by a (token_counts token) taken,
          l.member a,
          outside a,
        )

  Grant-member : (j : ℕ) → has j (kept ++ new) ≡ counts (granted_to j)
  Grant-member j = ground (
    arith,
    has-append j kept new,
    has-keep j i l.members,
    has-keep_by j (token_counts token) taken,
    l.member j,
    outside j,
    out,
  )

  Grant-total : length (kept ++ new) ≡ s'.readers
  Grant-total = ground (
    arith,
    length-append kept new,
    length-keep_other i l.members l.distinct,
    l.member i,
    l.total,
    g.total,
  )

  -- A major hold is handed, since the only one that there was has gone.
  handed : (j : ℕ) → is_major (granted_to j) ≡ true → (j ∈ taken) × (token_major token j ≡ true)
  handed j m = ground (arith, l.unique i j, g.major)

  Grant-unique : (j k : ℕ) → is_major (granted_to j) ≡ true → is_major (granted_to k) ≡ true → j ≡ k
  Grant-unique j k m n = let (a, b) = handed j m in let (c, d) = handed k n in g.unique j k a c b d

  Grant-upgrade :
      (j : ℕ) → is_upgrade (granted_to j) ≡ true → (s'.upgradable ≡ true) × (s'.writer ≡ false)
  Grant-upgrade j m =
      let (a, b) = handed j (ground arith) in ground (arith, g.majors j a b, token-split (token j))

  Grant-write :
      (j : ℕ) → is_writer (granted_to j) ≡ true → (s'.writer ≡ true) × (s'.upgradable ≡ false)
  Grant-write j m =
      let (a, b) = handed j (ground arith) in ground (arith, g.majors j a b, token-split (token j))

  sole_major : (h : Hold) → is_sole h ≡ true → is_major h ≡ true
  sole_major h e = ground arith

  Grant-sole : (j : ℕ) → is_sole (granted_to j) ≡ true → s'.readers ≡ 0
  Grant-sole j m =
      let (a, b) = handed j (sole_major (granted_to j) m) in
      absurd (ground (arith, token-split (token j)))

  pub Grant-Ledger : Ledger s' granted_to
  Grant-Ledger = record {
    members = kept ++ new;
    distinct = Grant-Distinct;
    member = Grant-member;
    total = Grant-total;
    unique = Grant-unique;
    upgrade = Grant-upgrade;
    write = Grant-write;
    sole = Grant-sole;
    owner = λ o. let (a, m, v) = g.owner o in (a, ground arith);
  }
