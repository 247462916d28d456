-- ===== src/Sync/RawRwLock/System/Holds.antt =====
-- What a thread holds of a reader-writer lock, read off its place in the code and its token.
use parking_lot.Prelude.{
  ℕ, ◌+◌, ◌≤◌, ◌≡◌, ◌≢◌, Bool, true, false, ◌||◌, Option, none, some, ◌==◌, if◌then◌else◌,
}
use parking_lot.Sync.RawMutex.{token_handoff}
use parking_lot.Sync.RawRwLock.{
  Word, ParkToken, token_shared, token_upgradable, token_exclusive, Want, token_of, WakeReason,
  unlocks_exclusive, unlocks_upgradable, downgrades, downgrades_to_upgradable, reverts, Pc, asleep,
  timing, timed, drain_loading, draining, drain_parking, drain_validating, drain_enqueuing,
  drain_abandoning, drain_asleep, drain_timing, drain_timed, reverting, held_shared,
  held_upgradable, held_exclusive, dropping, freeing, releasing, release, waking, filtering,
  converting, convert, Thread,
}

-- A shared lock; an upgradable lock; the writer bit, while readers may be left; an exclusive lock.
pub data Hold : Type 0 where
  nothing reads upgrades awaits writes : Hold

-- What a hand-off with this token gives.
abbrev pub hold_token : ParkToken → Hold
hold_token token_shared = reads
hold_token token_upgradable = upgrades
hold_token token_exclusive = awaits

abbrev pub hold_why : WakeReason → Hold
hold_why (unlocks_exclusive force_fair relock) = writes
hold_why (unlocks_upgradable force_fair relock) = upgrades
hold_why downgrades = reads
hold_why downgrades_to_upgradable = upgrades
hold_why (reverts upgrading) = if upgrading then upgrades else nothing

abbrev pub granted : Want → Option ℕ → Hold
granted want none = nothing
granted want (some token) = if token == token_handoff then hold_token (token_of want) else nothing

abbrev pub hold_at : Pc → Option ℕ → Hold
hold_at (asleep want timeout) mail = granted want mail
hold_at (timing want) mail = granted want mail
hold_at (timed want) mail = granted want mail
hold_at (drain_loading upgrading timeout w) mail = awaits
hold_at (draining upgrading timeout state w) mail = if state.readers == 0 then writes else awaits
hold_at (drain_parking upgrading timeout w) mail = awaits
hold_at (drain_validating upgrading timeout w) mail = awaits
hold_at (drain_enqueuing upgrading timeout w) mail = awaits
hold_at (drain_abandoning upgrading timeout w) mail = awaits
hold_at (drain_asleep upgrading timeout w) mail = awaits
hold_at (drain_timing upgrading w) mail = awaits
hold_at (drain_timed upgrading w) mail = awaits
hold_at (reverting upgrading) mail = awaits
hold_at held_shared mail = reads
hold_at held_upgradable mail = upgrades
hold_at held_exclusive mail = writes
hold_at (dropping relock) mail = reads
hold_at freeing mail = upgrades
hold_at (releasing force_fair relock) mail = upgrades
hold_at (release force_fair relock state) mail = upgrades
hold_at (waking why) mail = hold_why why
hold_at (filtering why) mail = hold_why why
hold_at converting mail = upgrades
hold_at (convert state) mail = upgrades
hold_at _ mail = nothing

abbrev pub hold : Thread → Hold
hold t = hold_at t.pc t.mail

-- It is one of the readers that the word counts.
abbrev pub counts : Hold → Bool
counts reads = true
counts upgrades = true
counts _ = false

abbrev pub is_upgrade : Hold → Bool
is_upgrade upgrades = true
is_upgrade _ = false

-- It has set the writer bit.
abbrev pub is_writer : Hold → Bool
is_writer awaits = true
is_writer writes = true
is_writer _ = false

abbrev pub is_sole : Hold → Bool
is_sole writes = true
is_sole _ = false

abbrev pub is_major : Hold → Bool
is_major h = is_upgrade h || is_writer h

abbrev pub number : Hold → ℕ
number h = if counts h then 1 else 0

-- The word says what one thread holds.
pub record Shows (s : Word) (h : Hold) : Type 0 where
  pub upgrade : is_upgrade h ≡ true → (s.upgradable ≡ true) × (s.writer ≡ false)
  pub write : is_writer h ≡ true → (s.writer ≡ true) × (s.upgradable ≡ false)
  pub sole : is_sole h ≡ true → s.readers ≡ 0
  pub counted : number h ≤ s.readers

-- A thread's hold changes from `h` to `h'` while the word changes from `s` to `s'`.
pub record Swap (s : Word) (h : Hold) (s' : Word) (h' : Hold) : Type 0 where
  pub readers : s'.readers + number h ≡ s.readers + number h'
  pub upgrade :
      s'.upgradable ≡ (if is_upgrade h' then true else if is_upgrade h then false else s.upgradable)
  pub write : s'.writer ≡ (if is_writer h' then true else if is_writer h then false else s.writer)
  pub sole : is_sole h' ≡ true → s'.readers ≡ 0
  pub admits : is_major h' ≡ true → is_major h ≡ false → (s.upgradable ≡ false) × (s.writer ≡ false)
  pub joins :
      counts h' ≡ true → counts h ≡ false → is_writer h ≡ false → s.writer ≡ true → s.readers ≢ 0
