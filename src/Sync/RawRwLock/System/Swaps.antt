-- ===== src/Sync/RawRwLock/System/Swaps.antt =====
-- The changes that the operations of a reader-writer lock make to its word, each with what the
-- thread holds before and after it.
use parking_lot.Prelude.{◌+◌, ◌≡◌, refl, Bool, true, false, not, if◌then◌else◌, arith}
use parking_lot.Sync.RawRwLock.{
  Word, free, same_word, Want, shared, upgradable, exclusive, token_shared, token_upgradable,
  token_exclusive, token_of, add_token, remove_token, blocked,
}
use parking_lot.Sync.RawRwLock.Drain.{revert}
use parking_lot.Sync.RawRwLock.Step.{exchange}
use parking_lot.Sync.RawRwLock.System.Holds.{
  Hold, nothing, reads, upgrades, awaits, writes, hold_token, is_upgrade, is_writer, is_sole,
  is_major, number, Shows, Swap,
}

same_bit-eq : (a b : Bool) → (if a then b else not b) ≡ true → a ≡ b
same_bit-eq a b h = ground arith

pub same_word-eq : (a b : Word) → same_word a b ≡ true → a ≡ b
same_word-eq a b h = ground arith

-- A change of the parked bits only.
pub keeps :
    {s : Word} {h : Hold} (s' : Word)
    → Shows s h
    → s'.readers ≡ s.readers
    → s'.upgradable ≡ s.upgradable
    → s'.writer ≡ s.writer
    → Swap s h s' h
keeps {s} {h} s' w r u v = record {
  readers = ground (arith, r);
  upgrade = ground (arith, w.upgrade, u);
  write = ground (arith, w.write, v);
  sole = λ k. ground (arith, w.sole, r);
  admits = λ k l. ground arith;
  joins = λ k l. ground arith;
}

pub gains :
    (w : Want) (s : Word)
    → blocked w s ≡ false
    → Swap s nothing (add_token (token_of w) s) (hold_token (token_of w))
gains (shared recursive) s b = record {
  readers = ground arith;
  upgrade = ground arith;
  write = ground arith;
  sole = λ k. ground arith;
  admits = λ k l. ground arith;
  joins = λ k l m n. ground arith;
}
gains upgradable s b = record {
  readers = ground arith;
  upgrade = ground arith;
  write = ground arith;
  sole = λ k. ground arith;
  admits = λ k l. ground arith;
  joins = λ k l m n. ground arith;
}
gains exclusive s b = record {
  readers = ground arith;
  upgrade = ground arith;
  write = ground arith;
  sole = λ k. ground arith;
  admits = λ k l. ground arith;
  joins = λ k l m n. ground arith;
}

-- From a thread that holds something: what the word then says makes the change a good one.
module _ (s s' : Word) where
  turns :
      (h h' : Hold)
      → Shows s h
      → s'.readers + number h ≡ s.readers + number h'
      → (is_upgrade h' ≡ s'.upgradable)
      → (is_writer h' ≡ s'.writer)
      → (is_sole h' ≡ true → s'.readers ≡ 0)
      → is_major h ≡ true
      → Swap s h s' h'
  turns h h' w r u v k m = record {
    readers = r;
    upgrade = ground (arith, u, v, w.upgrade, w.write);
    write = ground (arith, u, v, w.upgrade, w.write);
    sole = k;
    admits = λ a b. ground arith;
    joins = λ a b c d. ground (arith, w.upgrade);
  }

pub drops : (s : Word) → Shows s reads → Swap s reads (remove_token token_shared s) nothing
drops s w = record {
  readers = ground (arith, w.counted);
  upgrade = refl;
  write = refl;
  sole = λ k. ground arith;
  admits = λ k l. ground arith;
  joins = λ k l m n. ground arith;
}

pub drained : (s : Word) → Shows s awaits → s.readers ≡ 0 → Swap s awaits s writes
drained s w z =
    turns s s awaits writes w refl (ground (arith, w.write)) (ground (arith, w.write)) (λ k. z) refl

pub frees :
    (s : Word) → Shows s upgrades → Swap s upgrades (remove_token token_upgradable s) nothing
frees s w =
    turns s (remove_token token_upgradable s) upgrades nothing w (ground (arith, w.counted))
      (ground (arith, w.upgrade)) (ground (arith, w.upgrade)) (λ k. ground arith) refl

pub exchanges : (s : Word) → Shows s upgrades → Swap s upgrades (exchange s) awaits
exchanges s w =
    turns s (exchange s) upgrades awaits w (ground (arith, w.counted)) refl refl (λ k. ground arith)
      refl

pub exchanges_sole :
    (s : Word) → Shows s upgrades → s.readers ≡ 1 → Swap s upgrades (exchange s) writes
exchanges_sole s w z =
    turns s (exchange s) upgrades writes w (ground (arith, w.counted)) refl refl (λ k. omega arith)
      refl

pub reverts_to :
    (upgrading : Bool) (s : Word)
    → Shows s awaits
    → Swap s awaits (revert upgrading s) (if upgrading then upgrades else nothing)
reverts_to true s w =
    turns s (revert true s) awaits upgrades w (ground arith) refl refl (λ k. ground arith) refl
reverts_to false s w =
    turns s (revert false s) awaits nothing w refl (ground (arith, w.write)) refl
      (λ k. ground arith) refl

pub unlocks :
    (s s' : Word)
    → Shows s writes
    → s'.readers ≡ 0
    → s'.upgradable ≡ false
    → s'.writer ≡ false
    → Swap s writes s' nothing
unlocks s s' w r u v =
    turns s s' writes nothing w (ground (arith, w.sole, r)) (ground (arith, u)) (ground (arith, v))
      (λ k. r) refl

pub downgrades_writer :
    (s : Word)
    → Shows s writes
    → Swap s writes (add_token token_shared (remove_token token_exclusive s)) reads
downgrades_writer s w =
    turns s _ writes reads w (ground arith) (ground (arith, w.write)) refl (λ k. ground arith) refl

pub downgrades_upgradable :
    (s : Word) → Shows s upgrades → Swap s upgrades (record s { upgradable = false }) reads
downgrades_upgradable s w =
    turns s _ upgrades reads w refl refl (ground (arith, w.upgrade)) (λ k. ground arith) refl

pub downgrades_to :
    (s : Word)
    → Shows s writes
    → Swap s writes (add_token token_upgradable (remove_token token_exclusive s)) upgrades
downgrades_to s w = turns s _ writes upgrades w (ground arith) refl refl (λ k. ground arith) refl

-- The fast path of a writer, which takes a free lock whole.
pub takes : (s : Word) → s ≡ free → Swap s nothing (add_token token_exclusive s) writes
takes s e = rw e (record {
  readers = refl;
  upgrade = refl;
  write = refl;
  sole = λ k. refl;
  admits = λ k l. (refl, refl);
  joins = λ k l m n. ground arith;
})
