-- ===== src/Core/Locking/System.antt =====
-- Any number of threads that lock buckets and grow the table, interleaved in any order.
pub mod Classify
pub mod Owners
pub mod Safety
use parking_lot.Prelude.{
  ℕ, zero, suc, ◌≡◌, ◌≢◌, ◌≤◌, ◌<◌, ◌⊎◌, Bool, true, false, not, ◌&&◌, ◌||◌, some, ◌==◌, ltb, leb,
  if◌then◌else◌, update,
}
use parking_lot.Core.Locking.{
  reading_key, comparing_own, Pc, idle, reading, locking, checking, inside, reading_own,
  locking_own, checking_own, inside_own, reading_pair, locking_pair, checking_pair, locking_second,
  inside_pair, leaving_pair, growing, sweeping, backing, moving, finishing, Action, Shared,
  set_owner, len, index, lower, higher, step,
}

pub record System : Type 0 where
  pub shared : Shared
  pub threads : ℕ → Pc

abbrev pub apply : ℕ → Shared × Pc → System → System
apply i (m, p) s = record { shared = m; threads = update s.threads i p }

abbrev pub init : System
init = record {
  shared = record { table = 0; owner = λ t b. 0; keys = λ i. 0 };
  threads = λ i. idle;
}

-- The kinds of steps.
pub data Kind : Type 0 where
  local : Kind
  locks : (table bucket : ℕ) → Kind
  unlocks : (table bucket : ℕ) → Kind
  publishes : Kind
  stores : (thread key : ℕ) → Kind

abbrev pub effect : (me : ℕ) → Kind → Shared → Shared
effect me local m = m
effect me (locks t b) m = set_owner t b (suc me) m
effect me (unlocks t b) m = set_owner t b 0 m
effect me publishes m = record m { table = suc m.table }
effect me (stores x key) m = record m { keys = update m.keys x key }

module _ (bits : ℕ → ℕ) where
  pub data Step (s : System) : System → Type 0 where
    pick :
        (i : ℕ) (a : Action) {e : Shared × Pc}
        → step bits i a s.shared (s.threads i) ≡ some e
        → Step s (apply i e s)

  pub data Reach : System → Type 0 where
    initial : Reach init
    later : {s t : System} → Reach s → Step s t → Reach t

  -- Whether a thread has locked bucket `b` of table `t`.
  abbrev pub has_locked : Pc → (t b : ℕ) → Bool
  has_locked idle t b = false
  has_locked (reading key) t b = false
  has_locked (locking key u) t b = false
  has_locked (checking key u) t b = t == u && b == index bits key u
  has_locked (inside key u) t b = t == u && b == index bits key u
  has_locked reading_own t b = false
  has_locked (reading_key u) t b = false
  has_locked (locking_own key u) t b = false
  has_locked (checking_own key u) t b = t == u && b == index bits key u
  has_locked (comparing_own key u) t b = t == u && b == index bits key u
  has_locked (inside_own key u) t b = t == u && b == index bits key u
  has_locked (reading_pair key1 key2) t b = false
  has_locked (locking_pair key1 key2 u) t b = false
  has_locked (checking_pair key1 key2 u) t b = t == u && b == lower bits key1 key2 u
  has_locked (locking_second key1 key2 u) t b = t == u && b == lower bits key1 key2 u
  has_locked (inside_pair key1 key2 u) t b =
      t == u && (b == index bits key1 u || b == index bits key2 u)
  has_locked (leaving_pair key1 key2 u) t b =
      t == u && (b == index bits key2 u && not (b == index bits key1 u))
  has_locked (growing num_threads) t b = false
  has_locked (sweeping num_threads u i) t b = t == u && ltb b i
  has_locked (backing num_threads u i) t b = t == u && (leb i b && ltb b (len bits u))
  has_locked (moving u) t b = t == u && ltb b (len bits u)
  has_locked (finishing u i) t b = t == u && (leb i b && ltb b (len bits u))

  -- The bucket that a thread waits to lock.
  abbrev pub wants : Pc → (t b : ℕ) → Bool
  wants (locking key u) t b = t == u && b == index bits key u
  wants (locking_own key u) t b = t == u && b == index bits key u
  wants (locking_pair key1 key2 u) t b = t == u && b == lower bits key1 key2 u
  wants (locking_second key1 key2 u) t b = t == u && b == higher bits key1 key2 u
  wants (sweeping num_threads u i) t b = t == u && (b == i && ltb i (len bits u))
  wants _ t b = false

  -- What a thread's place says, given HASHTABLE and the key in the thread's data.
  abbrev pub Valid : Pc → (table key : ℕ) → Type 0
  Valid (inside key u) table k = u ≡ table
  Valid (comparing_own key u) table k = u ≡ table
  Valid (inside_own key u) table k = (u ≡ table) × (k ≡ key)
  Valid (locking_second key1 key2 u) table k = (u ≡ table) × (index bits key1 u ≢ index bits key2 u)
  Valid (inside_pair key1 key2 u) table k = u ≡ table
  Valid (moving u) table k = u ≡ table
  Valid (sweeping num_threads u i) table k = i ≤ len bits u
  Valid _ table k = Unit

  -- What a step of each kind does to the buckets that the thread has locked.
  abbrev pub Facts : (me : ℕ) → Kind → Pc → Pc → Shared → Type 0
  Facts me local p p' m = (u c : ℕ) → has_locked p' u c ≡ has_locked p u c
  Facts me (locks t b) p p' m =
      (m.owner t b ≡ 0) × ((u c : ℕ) → has_locked p' u c ≡ (u == t && c == b || has_locked p u c))
  Facts me (unlocks t b) p p' m =
      (has_locked p t b ≡ true)
      × ((u c : ℕ) → has_locked p' u c ≡ (has_locked p u c && not (u == t && c == b)))
  Facts me publishes p p' m =
      ((u c : ℕ) → has_locked p' u c ≡ has_locked p u c)
      × ((b : ℕ) → b < len bits m.table → has_locked p m.table b ≡ true)
  Facts me (stores x key) p p' m =
      ((u c : ℕ) → has_locked p' u c ≡ has_locked p u c)
      × ((x ≡ me) ⊎ (has_locked p m.table (index bits (m.keys x) m.table) ≡ true))

  -- What a step is.
  abbrev pub Outcome : (me : ℕ) → Pc → Shared → Shared × Pc → Type 0
  Outcome me p m e =
      (k : Kind) × (p' : Pc) × (e ≡ (effect me k m, p'))
      × Facts me k p p' m
      × Valid p' (effect me k m).table ((effect me k m).keys me)
