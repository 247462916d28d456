-- ===== src/Core/Locking/System/Safety.antt =====
-- What the callers of the locking functions rely on.
use parking_lot.Prelude.{ℕ, ◌≡◌, ◌≢◌, ◌≤◌, ◌<◌, true, false, arith}
use parking_lot.Core.Hash.{usize_bits}
use parking_lot.Core.Locking.{
  reading_key, comparing_own, Pc, idle, reading, locking, checking, inside, reading_own,
  locking_own, checking_own, inside_own, reading_pair, locking_pair, checking_pair, locking_second,
  inside_pair, leaving_pair, growing, sweeping, backing, moving, finishing, index,
}
use parking_lot.Core.Locking.System.{System, Reach, has_locked, wants, Valid}
use parking_lot.Core.Locking.System.Owners.{Reach-Inv}

module _ (bits : ℕ → ℕ) where
  pub record Guarded (s : System) : Type 0 where
    pub exclusive :
        (i j t b : ℕ)
        → i ≢ j
        → has_locked bits (s.threads i) t b ≡ true
        → has_locked bits (s.threads j) t b ≡ false
    pub one :
        (i key t : ℕ)
        → s.threads i ≡ inside key t
        → (t ≡ s.shared.table) × (has_locked bits (s.threads i) t (index bits key t) ≡ true)
    pub own :
        (i key t : ℕ)
        → s.threads i ≡ inside_own key t
        → (t ≡ s.shared.table)
          × (s.shared.keys i ≡ key)
          × (has_locked bits (s.threads i) t (index bits key t) ≡ true)
    pub pair :
        (i key1 key2 t : ℕ)
        → s.threads i ≡ inside_pair key1 key2 t
        → (t ≡ s.shared.table)
          × (has_locked bits (s.threads i) t (index bits key1 t) ≡ true)
          × (has_locked bits (s.threads i) t (index bits key2 t) ≡ true)
    pub upward :
        (i t b u c : ℕ)
        → wants bits (s.threads i) t b ≡ true
        → has_locked bits (s.threads i) u c ≡ true
        → (u ≡ t) × (c < b)

  waits_upward :
      (p : Pc) (table key t b u c : ℕ)
      → Valid bits p table key
      → wants bits p t b ≡ true
      → has_locked bits p u c ≡ true
      → (u ≡ t) × (c < b)
  waits_upward idle table k t b u c v w h = absurd (cc)
  waits_upward (reading key) table k t b u c v w h = absurd (cc)
  waits_upward (locking key x) table k t b u c v w h = absurd (cc)
  waits_upward (checking key x) table k t b u c v w h = absurd (cc)
  waits_upward (inside key x) table k t b u c v w h = absurd (cc)
  waits_upward reading_own table k t b u c v w h = absurd (cc)
  waits_upward (reading_key x) table k t b u c v w h = absurd (cc)
  waits_upward (locking_own key x) table k t b u c v w h = absurd (cc)
  waits_upward (checking_own key x) table k t b u c v w h = absurd (cc)
  waits_upward (comparing_own key x) table k t b u c v w h = absurd (cc)
  waits_upward (inside_own key x) table k t b u c v w h = absurd (cc)
  waits_upward (reading_pair key1 key2) table k t b u c v w h = absurd (cc)
  waits_upward (locking_pair key1 key2 x) table k t b u c v w h = absurd (cc)
  waits_upward (checking_pair key1 key2 x) table k t b u c v w h = absurd (cc)
  waits_upward (locking_second key1 key2 x) table k t b u c v w h = ground (arith, v.1)
  waits_upward (inside_pair key1 key2 x) table k t b u c v w h = absurd (cc)
  waits_upward (leaving_pair key1 key2 x) table k t b u c v w h = absurd (cc)
  waits_upward (growing n) table k t b u c v w h = absurd (cc)
  waits_upward (sweeping n x i) table k t b u c v w h = ground arith
  waits_upward (backing n x i) table k t b u c v w h = absurd (cc)
  waits_upward (moving x) table k t b u c v w h = absurd (cc)
  waits_upward (finishing x i) table k t b u c v w h = absurd (cc)

  -- In every reachable state of any number of threads that lock buckets, requeue and grow the table,
  -- where each table has 1 to 64 hash bits: no two threads have the same bucket locked. A thread
  -- that has returned from `lock_bucket`, `lock_bucket_checked` or `lock_bucket_pair`, and has not
  -- unlocked, has locked the bucket of its key, or those of both keys, in the table that is
  -- current; in the second case the key is still the one in its own data. A thread that waits for
  -- a bucket has locked only buckets of the same table with smaller indices.
  pub Reach-Guarded :
      {s : System} → ((t : ℕ) → (0 < bits t) × (bits t ≤ usize_bits)) → Reach bits s → Guarded s
  Reach-Guarded {s} sizes r =
      let inv = Reach-Inv bits sizes r in
      record {
        exclusive = λ i j t b n h. ground (arith, inv.owned i t b, inv.owned j t b);
        one = λ i key t e. (rw e at (inv.valid i), rw e (ground arith));
        own = λ i key t e. let v = rw e at (inv.valid i) in (v.0, v.1, rw e (ground arith));
        pair = λ i key1 key2 t e. (rw e at (inv.valid i), rw e (ground arith), rw e (ground arith));
        upward = λ i t b u c.
            waits_upward (s.threads i) s.shared.table (s.shared.keys i) t b u c (inv.valid i);
      }
