-- ===== src/Sync/RawRwLock/System/UnlockMoves.antt =====
-- The steps that release, upgrade or downgrade a lock that is held, by their kinds.
use parking_lot.Prelude.{
  ℕ, ◌≡◌, ap, refl, inl, inr, Bool, true, false, not, ◌&&◌, Option, none, some, ◌==◌, arith,
  Bool-cases,
}
use parking_lot.Sync.RawRwLock.{
  Word, free, same_word, shared, upgradable, token_upgradable, add_token, remove_token,
  unlocks_exclusive, unlocks_upgradable, downgrades, downgrades_to_upgradable, Pc, idle, start,
  drain_loading, held_shared, held_upgradable, held_exclusive, dropping, leaving, freeing,
  releasing, release, waking, converting, convert, Shared, Effect, effect,
}
use parking_lot.Sync.RawRwLock.Step.{
  drop_step, unlock_exclusive_step, free_step, release_step, exchange, upgrade_step,
  try_upgrade_step, convert_step, downgrade_step, downgrade_upgradable_step,
  downgrade_to_upgradable_step,
}
use parking_lot.Sync.RawRwLock.System.Holds.{reads, upgrades, writes, hold_at, Shows, Swap}
use parking_lot.Sync.RawRwLock.System.Swaps.{
  same_word-eq, drops, frees, exchanges, exchanges_sole, unlocks, downgrades_writer,
  downgrades_upgradable, downgrades_to,
}
use parking_lot.Sync.RawRwLock.System.Moves.{awake, place, Move}
use parking_lot.Sync.RawRwLock.System.LockMoves.{plain_to, same}

module _ {me : ℕ} {mail : Option ℕ} (m : Shared) (e : Effect) where
  -- The word changes, and no lock of a bucket.
  sets_to :
      {p : Pc} (p' : Pc) (s' : Word)
      → e ≡ effect (record m { word = s' }) p' none
      → place p ≡ awake
      → place p' ≡ awake
      → Swap m.word (hold_at p mail) s' (hold_at p' none)
      → Move me m p mail e
  sets_to p' s' q a a' w = plain_to p' s' m.bucket m.writer_bucket q a a' w

  -- Nothing changes but the place of a thread, which holds what it did.
  pub moves_to :
      {p : Pc} (p' : Pc)
      → e ≡ effect m p' none
      → place p ≡ awake
      → place p' ≡ awake
      → hold_at p mail ≡ hold_at p' none
      → Shows m.word (hold_at p mail)
      → Move me m p mail e
  moves_to p' q a a' h w = plain_to p' m.word m.bucket m.writer_bucket q a a' (rw (← h) (same w))

  pub drop-Move :
      (relock : Bool)
      → drop_step relock m ≡ some e
      → Shows m.word reads
      → Move me m (dropping relock) mail e
  unfolding drop_step
  drop-Move relock k w = elim (Bool-cases (m.word.readers == 1 && m.word.writer_parked)) [
    | inl last ↦ sets_to (leaving relock) _ (ground arith) refl refl (drops m.word w)
    | inr others ↦ elim (Bool-cases relock) [
      | inl r ↦ sets_to (start (shared false) false) _ (ground arith) refl refl (drops m.word w)
      | inr r ↦ sets_to idle _ (ground arith) refl refl (drops m.word w)
    ]
  ]

  pub unlock_exclusive-Move :
      (fair : Bool)
      → unlock_exclusive_step fair m ≡ some e
      → Shows m.word writes
      → Move me m held_exclusive mail e
  unfolding unlock_exclusive_step
  unlock_exclusive-Move fair k w =
      elim (Bool-cases (same_word m.word (record free { writer = true }))) [
        | inl alone ↦
            sets_to idle free (ground arith) refl refl (unlocks m.word free w refl refl refl)
        | inr busy ↦
            moves_to (waking (unlocks_exclusive fair false)) (ground arith) refl refl refl w
      ]

  pub free-Move :
      (lucky : Bool) → free_step lucky m ≡ some e → Shows m.word upgrades → Move me m freeing mail e
  unfolding free_step
  free-Move lucky k w = elim (Bool-cases (lucky && not m.word.parked)) [
    | inl won ↦ sets_to idle _ (ground arith) refl refl (frees m.word w)
    | inr lost ↦ moves_to (releasing false false) (ground arith) refl refl refl w
  ]

  pub release-Move :
      (lucky force_fair relock : Bool) (state : Word)
      → release_step lucky force_fair relock state m ≡ some e
      → Shows m.word upgrades
      → Move me m (release force_fair relock state) mail e
  unfolding release_step
  release-Move lucky force_fair relock state k w = elim (Bool-cases state.parked) [
    | inl parks ↦
        moves_to (waking (unlocks_upgradable force_fair relock)) (ground arith) refl refl refl w
    | inr alone ↦ elim (Bool-cases (lucky && same_word m.word state)) [
      | inr lost ↦ moves_to (release force_fair relock m.word) (ground arith) refl refl refl w
      | inl won ↦
          let c : m.word ≡ state = same_word-eq m.word state (ground arith) in
          let s' : Word = remove_token token_upgradable m.word in
          elim (Bool-cases relock) [
            | inl r ↦
                sets_to (start upgradable false) s'
                  (ground (arith, ap (remove_token token_upgradable) c)) refl refl (frees m.word w)
            | inr r ↦
                sets_to idle s' (ground (arith, ap (remove_token token_upgradable) c)) refl refl
                  (frees m.word w)
          ]
    ]
  ]

  pub upgrade-Move :
      (timeout : Bool)
      → upgrade_step timeout m ≡ some e
      → Shows m.word upgrades
      → Move me m held_upgradable mail e
  unfolding upgrade_step
  upgrade-Move timeout k w = elim (Bool-cases (m.word.readers == 1)) [
    | inl last ↦
        sets_to held_exclusive (exchange m.word) (ground arith) refl refl
          (exchanges_sole m.word w (ground arith))
    | inr others ↦
        sets_to (drain_loading true timeout (record { counter = 0 })) (exchange m.word)
          (ground arith) refl refl (exchanges m.word w)
  ]

  pub try_upgrade-Move :
      (lucky : Bool)
      → try_upgrade_step lucky m ≡ some e
      → Shows m.word upgrades
      → Move me m held_upgradable mail e
  unfolding try_upgrade_step
  try_upgrade-Move lucky k w =
      elim (Bool-cases (lucky && same_word m.word (add_token token_upgradable free))) [
        | inl won ↦
            let c : m.word ≡ add_token token_upgradable free =
              same_word-eq m.word _ (ground arith) in
            sets_to held_exclusive (exchange m.word) (ground (arith, ap exchange c)) refl refl
              (exchanges_sole m.word w (ap (λ z. z.readers) c))
        | inr lost ↦ moves_to converting (ground arith) refl refl refl w
      ]

  pub convert-Move :
      (lucky : Bool) (state : Word)
      → convert_step lucky state m ≡ some e
      → Shows m.word upgrades
      → Move me m (convert state) mail e
  unfolding convert_step
  convert-Move lucky state k w = elim (Bool-cases (state.readers == 1)) [
    | inr others ↦ moves_to held_upgradable (ground arith) refl refl refl w
    | inl last ↦ elim (Bool-cases (lucky && same_word m.word state)) [
      | inr lost ↦ moves_to (convert m.word) (ground arith) refl refl refl w
      | inl won ↦
          let c : m.word ≡ state = same_word-eq m.word state (ground arith) in
          sets_to held_exclusive (exchange m.word) (ground (arith, ap exchange c)) refl refl
            (exchanges_sole m.word w (ground (arith, ap (λ z. z.readers) c)))
    ]
  ]

  pub downgrade-Move :
      downgrade_step m ≡ some e → Shows m.word writes → Move me m held_exclusive mail e
  unfolding downgrade_step
  downgrade-Move k w = elim (Bool-cases m.word.parked) [
    | inl parks ↦
        sets_to (waking downgrades) _ (ground arith) refl refl (downgrades_writer m.word w)
    | inr alone ↦ sets_to held_shared _ (ground arith) refl refl (downgrades_writer m.word w)
  ]

  pub downgrade_upgradable-Move :
      downgrade_upgradable_step m ≡ some e
      → Shows m.word upgrades
      → Move me m held_upgradable mail e
  unfolding downgrade_upgradable_step
  downgrade_upgradable-Move k w = elim (Bool-cases m.word.parked) [
    | inl parks ↦
        sets_to (waking downgrades) _ (ground arith) refl refl (downgrades_upgradable m.word w)
    | inr alone ↦ sets_to held_shared _ (ground arith) refl refl (downgrades_upgradable m.word w)
  ]

  pub downgrade_to_upgradable-Move :
      downgrade_to_upgradable_step m ≡ some e
      → Shows m.word writes
      → Move me m held_exclusive mail e
  unfolding downgrade_to_upgradable_step
  downgrade_to_upgradable-Move k w = elim (Bool-cases m.word.parked) [
    | inl parks ↦
        sets_to (waking downgrades_to_upgradable) _ (ground arith) refl refl
          (downgrades_to m.word w)
    | inr alone ↦ sets_to held_upgradable _ (ground arith) refl refl (downgrades_to m.word w)
  ]
