-- ===== src/LockApi/Remutex/Steps.antt =====
-- Each step of a reentrant mutex keeps its invariant, and what follows for its callers.
use parking_lot.Prelude.{
  ℕ, ◌≡◌, ◌⊎◌, refl, inl, inr, true, false, Option, none, some, ◌==◌, ==_refl, if◌then◌else◌, arith,
  update,
}
use parking_lot.Sync.RawMutex
use parking_lot.Sync.RawMutex.System.{System, apply, pick}
use parking_lot.Sync.RawMutex.System
use parking_lot.LockApi.Remutex.{Pc, Thread, State, init, goes, joined, with_inner}
use parking_lot.LockApi.Remutex.Invariant.{
  holding, resting, marks, counted, fitting, keeps_id, Local, Inv, alone, unmarked, Inv-moves,
  Inv-writes,
}

pub init-Inv : (id : ℕ → ℕ) → ((i : ℕ) → (id i == 0) ≡ false) → Inv id init
init-Inv id pos = record {
  reach = RawMutex.System.initial;
  each = λ i. record { held = λ h. cc; rests = λ h. refl; fits = refl; saved = refl };
  owner = λ i. ground (arith, pos i);
  count = λ i h. absurd (ground arith);
  someone = λ h. absurd (cc);
}

apply_pc :
    (i j : ℕ) (e : RawMutex.Effect) (s : System)
    → ((apply i e s).threads j).pc ≡ (if i == j then e.self.pc else (s.threads j).pc)
apply_pc i j e s = ground (arith, e.sent)

module _ (id : ℕ → ℕ) (pos : (i : ℕ) → (id i == 0) ≡ false)
    (apart : (i j : ℕ) → (i == j) ≡ false → (id i == id j) ≡ false) where
  module _ {s : State} (inv : Inv id s) (i : ℕ) where
    abbrev pub depth : ℕ
    depth = (s.threads i).depth

    abbrev pub inside : RawMutex.Pc
    inside = (s.inner.threads i).pc

    abbrev pub at : Pc → Thread
    at p = record { pc = p; depth = depth }

    local : (p : Pc) → (s.threads i).pc ≡ p → Local (id i) (at p) inside
    local p q = rw (← q) (inv.each i)

    -- The thread goes on, and the rest is as before.
    pub goes-Inv :
        (t : State) (p p' : Pc)
        → (s.threads i).pc ≡ p
        → goes i p' s ≡ some t
        → Local (id i) (at p') inside
        → (marks p' depth ≡ marks p depth) × (counted p' depth ≡ counted p depth)
        → Inv id t
    goes-Inv t p p' q h l (a, b) =
        let n : t ≡ record s { inner = s.inner; threads = update s.threads i (at p') } =
          ground arith in
        rw n (Inv-moves inv i (at p') s.inner inv.reach (λ j k. refl) l (rw q a) (rw q b))

    pub joined-Inv :
        (t : State) (a : RawMutex.Action) (p p' : Pc) (o : Option RawMutex.Effect)
        → (s.threads i).pc ≡ p
        → RawMutex.step i a s.inner.shared inside (s.inner.threads i).mail ≡ o
        → joined i p' s o ≡ some t
        → ((e : RawMutex.Effect) → o ≡ some e → Local (id i) (at p') e.self.pc)
        → (marks p' depth ≡ marks p depth) × (counted p' depth ≡ counted p depth)
        → Inv id t
    joined-Inv t a p p' none q g h l x = absurd (cc)
    joined-Inv t a p p' (some e) q g h l (x, y) =
        let n : t ≡ record s { inner = apply i e s.inner; threads = update s.threads i (at p') } =
          ground arith in
        rw n (
          Inv-moves inv i (at p') (apply i e s.inner) (RawMutex.System.later inv.reach (pick i a g))
            (λ j k. rw (apply_pc i j e s.inner, k) refl)
            (rw (apply_pc i i e s.inner, ==_refl i) (l e refl)) (rw q x) (rw q y))

    -- In a call of the inner mutex nothing is said of it.
    pub called-Inv :
        (t : State) (a : RawMutex.Action) (p p' : Pc)
        → (s.threads i).pc ≡ p
        → with_inner i a p' s ≡ some t
        → (holding p' depth ≡ false) × (resting p' depth ≡ false)
        → (fitting p' depth ≡ true) × (keeps_id (id i) p' ≡ true)
        → (marks p' depth ≡ marks p depth) × (counted p' depth ≡ counted p depth)
        → Inv id t
    unfolding with_inner
    called-Inv t a p p' q h (c, d) (f, k) x =
        joined-Inv t a p p' _ q refl h
          (λ e n. record { held = λ y. absurd (cc); rests = λ y. absurd (cc); fits = f; saved = k })
          x

    pub writes-Inv :
        (t : State) (p : Pc) (owner count : ℕ) (t' : Thread)
        → (s.threads i).pc ≡ p
        → t ≡ record s { owner = owner; lock_count = count; threads = update s.threads i t' }
        → holding p depth ≡ true
        → Local (id i) t' inside
        → (owner == id i) ≡ marks t'.pc t'.depth
        → (owner ≡ s.owner) ⊎ ((owner ≡ 0) ⊎ (owner ≡ id i))
        → ((counted t'.pc t'.depth == 0) ≡ false → count ≡ counted t'.pc t'.depth)
        → ((count == 0) ≡ false → (counted t'.pc t'.depth == 0) ≡ false)
        → Inv id t
    writes-Inv t p owner count t' q n h l a b c d =
        rw n (Inv-writes inv i t' owner count (rw q h) l a (others b) c d)
      where
        others :
            (owner ≡ s.owner) ⊎ ((owner ≡ 0) ⊎ (owner ≡ id i))
            → (j : ℕ) → (i == j) ≡ false
            → (owner == id j) ≡ false
        others (inl e) j k = rw (e, inv.owner j) (unmarked inv j (alone inv i j (rw q h) k))
        others (inr (inl e)) j k = ground (arith, pos j)
        others (inr (inr e)) j k = ground (arith, apart i j k)
