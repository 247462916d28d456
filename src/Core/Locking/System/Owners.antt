-- ===== src/Core/Locking/System/Owners.antt =====
-- What holds in every state: a bucket's lock has one owner, and a critical section keeps its table
-- the current one.
use parking_lot.Prelude.{
  ℕ, suc, ◌≡◌, ◌≤◌, ◌<◌, ◌∙◌, inl, inr, false, ◌&&◌, arith, ◌==◌, ltb, Bool-cases, ==_refl, not,
  ◌||◌, if◌then◌else◌,
}
use parking_lot.Core.Hash.{usize_bits}
use parking_lot.Core.Hash.Laws.{hash-lt}
use parking_lot.Core.Locking.{
  reading_key, comparing_own, Pc, idle, reading, locking, checking, inside, reading_own,
  locking_own, checking_own, inside_own, reading_pair, locking_pair, checking_pair, locking_second,
  inside_pair, leaving_pair, growing, sweeping, backing, moving, finishing, len, index, lower,
}
use parking_lot.Core.Locking.System.{
  System, apply, init, pick, Reach, initial, later, has_locked, Valid, Kind, local, locks, unlocks,
  publishes, stores, effect, Facts,
}
use parking_lot.Core.Locking.System.Classify.{step-Outcome}

-- The owner of a bucket after a lock and after an unlock, seen by the thread that does it.
cell_locked :
    (me u c t b o : ℕ)
    → (t == u && b == c || o == suc me) ≡ ((if t == u && b == c then suc me else o) == suc me)
cell_locked me u c t b o = ground arith

cell_unlocked :
    (me u c t b o : ℕ)
    → (o == suc me && not (t == u && b == c)) ≡ ((if t == u && b == c then 0 else o) == suc me)
cell_unlocked me u c t b o = ground arith

module _ (bits : ℕ → ℕ) where
  pub record Inv (s : System) : Type 0 where
    pub owned : (i t b : ℕ) → has_locked bits (s.threads i) t b ≡ (s.shared.owner t b == suc i)
    pub valid : (i : ℕ) → Valid bits (s.threads i) s.shared.table (s.shared.keys i)

  init-Inv : Inv init
  init-Inv = record { owned = λ i t b. ground arith; valid = λ i. tt }

  module _ (sizes : (t : ℕ) → (0 < bits t) × (bits t ≤ usize_bits)) where
    -- A thread that has no bucket of the current table does not mind a new table.
    Valid-publish :
        (p : Pc) (table key : ℕ)
        → ((b : ℕ) → b < len bits table → has_locked bits p table b ≡ false)
        → Valid bits p table key
        → Valid bits p (suc table) key
    Valid-publish idle table k out v = tt
    Valid-publish (reading key) table k out v = tt
    Valid-publish (locking key u) table k out v = tt
    Valid-publish (checking key u) table k out v = tt
    Valid-publish (inside key u) table k out v = absurd (
        ground (
          arith,
          out (index bits key table) (hash-lt key (bits table) (sizes table).0 (sizes table).1),
          v,
        ))
    Valid-publish reading_own table k out v = tt
    Valid-publish (reading_key u) table k out v = tt
    Valid-publish (locking_own key u) table k out v = tt
    Valid-publish (checking_own key u) table k out v = tt
    Valid-publish (comparing_own key u) table k out v = absurd (
        ground (
          arith,
          out (index bits key table) (hash-lt key (bits table) (sizes table).0 (sizes table).1),
          v,
        ))
    Valid-publish (inside_own key u) table k out v = absurd (
        ground (
          arith,
          out (index bits key table) (hash-lt key (bits table) (sizes table).0 (sizes table).1),
          v.0,
        ))
    Valid-publish (reading_pair key1 key2) table k out v = tt
    Valid-publish (locking_pair key1 key2 u) table k out v = tt
    Valid-publish (checking_pair key1 key2 u) table k out v = tt
    Valid-publish (locking_second key1 key2 u) table k out v = absurd (
        ground (
          arith,
          out (lower bits key1 key2 table),
          hash-lt key1 (bits table) (sizes table).0 (sizes table).1,
          hash-lt key2 (bits table) (sizes table).0 (sizes table).1,
          v.0,
        ))
    Valid-publish (inside_pair key1 key2 u) table k out v = absurd (
        ground (
          arith,
          out (index bits key1 table) (hash-lt key1 (bits table) (sizes table).0 (sizes table).1),
          v,
        ))
    Valid-publish (leaving_pair key1 key2 u) table k out v = tt
    Valid-publish (growing n) table k out v = tt
    Valid-publish (sweeping n u i) table k out v = v
    Valid-publish (backing n u i) table k out v = tt
    Valid-publish (moving u) table k out v =
        let lt : index bits 0 table < len bits table =
          hash-lt 0 (bits table) (sizes table).0 (sizes table).1 in
        let o : (table == table && ltb (index bits 0 table) (len bits table)) ≡ false =
          rw v at (out (index bits 0 table) lt) in
        absurd (ground arith)
    Valid-publish (finishing u i) table k out v = tt

    -- A thread that has not locked the bucket of its key does not mind a new key.
    Valid-store :
        (p : Pc) (table key key' : ℕ)
        → has_locked bits p table (index bits key table) ≡ false
        → Valid bits p table key
        → Valid bits p table key'
    Valid-store idle table k k' out v = tt
    Valid-store (reading key) table k k' out v = tt
    Valid-store (locking key u) table k k' out v = tt
    Valid-store (checking key u) table k k' out v = tt
    Valid-store (inside key u) table k k' out v = v
    Valid-store reading_own table k k' out v = tt
    Valid-store (reading_key u) table k k' out v = tt
    Valid-store (locking_own key u) table k k' out v = tt
    Valid-store (checking_own key u) table k k' out v = tt
    Valid-store (comparing_own key u) table k k' out v = v
    Valid-store (inside_own key u) table k k' out v = absurd (ground (arith, out, v.0, v.1))
    Valid-store (reading_pair key1 key2) table k k' out v = tt
    Valid-store (locking_pair key1 key2 u) table k k' out v = tt
    Valid-store (checking_pair key1 key2 u) table k k' out v = tt
    Valid-store (locking_second key1 key2 u) table k k' out v = v
    Valid-store (inside_pair key1 key2 u) table k k' out v = v
    Valid-store (leaving_pair key1 key2 u) table k k' out v = tt
    Valid-store (growing n) table k k' out v = tt
    Valid-store (sweeping n u i) table k k' out v = v
    Valid-store (backing n u i) table k k' out v = tt
    Valid-store (moving u) table k k' out v = v
    Valid-store (finishing u i) table k k' out v = tt

    module _ (s : System) (inv : Inv s) (me : ℕ) (p' : Pc) where
      abbrev after : Kind → System
      after k = apply me (effect me k s.shared, p') s

      owned_self :
          (k : Kind)
          → Facts bits me k (s.threads me) p' s.shared
          → (t b : ℕ) → has_locked bits p' t b ≡ ((effect me k s.shared).owner t b == suc me)
      owned_self local f t b = f t b ∙ inv.owned me t b
      owned_self (locks u c) f t b =
          f.1 t b ∙ rw (inv.owned me t b) (cell_locked me u c t b (s.shared.owner t b))
      owned_self (unlocks u c) f t b =
          f.1 t b ∙ rw (inv.owned me t b) (cell_unlocked me u c t b (s.shared.owner t b))
      owned_self publishes f t b = f.0 t b ∙ inv.owned me t b
      owned_self (stores x key) f t b = f.0 t b ∙ inv.owned me t b

      owned_other :
          (k : Kind)
          → Facts bits me k (s.threads me) p' s.shared
          → (i t b : ℕ) → (me == i) ≡ false
          → has_locked bits (s.threads i) t b ≡ ((effect me k s.shared).owner t b == suc i)
      owned_other local f i t b e = inv.owned i t b
      owned_other (locks u c) f i t b e = ground (arith, f.0, inv.owned i t b)
      owned_other (unlocks u c) f i t b e = ground (arith, f.0, inv.owned i t b, inv.owned me t b)
      owned_other publishes f i t b e = inv.owned i t b
      owned_other (stores x key) f i t b e = inv.owned i t b

      Valid-other :
          (k : Kind)
          → Facts bits me k (s.threads me) p' s.shared
          → (i : ℕ) → (me == i) ≡ false
          → Valid bits (s.threads i) (effect me k s.shared).table ((effect me k s.shared).keys i)
      Valid-other local f i e = inv.valid i
      Valid-other (locks t b) f i e = inv.valid i
      Valid-other (unlocks t b) f i e = inv.valid i
      Valid-other publishes f i e =
          Valid-publish (s.threads i) s.shared.table (s.shared.keys i)
            (λ b lt.
              ground (arith, inv.owned i s.shared.table b, inv.owned me s.shared.table b, f.1 b))
            (inv.valid i)
      Valid-other (stores x key) f i e = elim (Bool-cases (x == i)) [
        | inl g ↦
            let h : x ≡ i = ground arith in
            let b = index bits (s.shared.keys i) s.shared.table in
            rw g (
              Valid-store (s.threads i) s.shared.table (s.shared.keys i) key
                (ground (arith, inv.owned i s.shared.table b, inv.owned me s.shared.table b, f.1))
                (inv.valid i))
        | inr g ↦ rw g (inv.valid i)
      ]

      after-Inv :
          (k : Kind)
          → Facts bits me k (s.threads me) p' s.shared
          → Valid bits p' (effect me k s.shared).table ((effect me k s.shared).keys me)
          → Inv (after k)
      after-Inv k f v = record {
        owned = λ i t b. elim (Bool-cases (me == i)) [
          | inl e ↦ let g : i ≡ me = ground arith in rw (g, ==_refl me) (owned_self k f t b)
          | inr e ↦ rw e (owned_other k f i t b e)
        ];
        valid = λ i. elim (Bool-cases (me == i)) [
          | inl e ↦ let g : i ≡ me = ground arith in rw (g, ==_refl me) v
          | inr e ↦ rw e (Valid-other k f i e)
        ];
      }

    pub Reach-Inv : {s : System} → Reach bits s → Inv s
    Reach-Inv initial = init-Inv
    Reach-Inv (later {s} r (pick i a {e} h)) =
        let inv = Reach-Inv r in
        let (k, p', q, f, v) = step-Outcome bits i s.shared e (s.threads i) a (inv.valid i) h in
        rw q (after-Inv s inv i p' k f v)
