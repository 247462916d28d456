-- ===== src/Sync/RawMutex/Marking.antt =====
-- src/raw_mutex.rs: `mark_parked_if_locked` and `mark_parked`, which `RawCondvar` calls.
use parking_lot.Prelude.{
  ℕ, ◌≡◌, inl, inr, Bool, true, false, not, ◌&&◌, Option, none, some, List, [], ◌∷◌, arith, ◌==◌,
  if◌then◌else◌, Bool-cases, has_bit, set_bit,
}
use parking_lot.Sync.RawMutex.{locked_bit, parked_bit}

-- `mark_parked_if_locked` where no other thread comes between its last load and its exchange.
unfoldable pub mark_parked_if_locked : ℕ → Bool × ℕ
mark_parked_if_locked word =
    if has_bit locked_bit word then (true, set_bit parked_bit word) else (false, word)

abbrev pub mark_parked : ℕ → ℕ
mark_parked word = set_bit parked_bit word

-- A turn of the loop: what other threads make of the word since the last load, and whether the weak
-- exchange fails for no reason.
pub record Attempt : Type 0 where
  pub lucky : Bool
  pub meanwhile : ℕ → ℕ

-- The loop of `mark_parked_if_locked`, for as many turns as are given.
pub mark_loop : List Attempt → (state word : ℕ) → Option (Bool × ℕ)
mark_loop [] state word = if has_bit locked_bit state then none else some (false, word)
mark_loop (a ∷ turns) state word =
    let word' = a.meanwhile word in
    let rest = mark_loop turns word' word' in
    if not (has_bit locked_bit state)
    then some (false, word)
    else if a.lucky && (word' == state)
    then some (true, set_bit parked_bit state)
    else rest

-- However other threads interfere, the loop's result is that of the undisturbed operation on a
-- value `v` that the word had.
pub mark_loop-atomic :
    (turns : List Attempt) (word : ℕ) (b : Bool) (word' : ℕ)
    → mark_loop turns word word ≡ some (b, word')
    → (v : ℕ) × ((b, word') ≡ mark_parked_if_locked v)
unfolding mark_loop mark_parked_if_locked
mark_loop-atomic [] word b word' e = (word, ground arith)
mark_loop-atomic (a ∷ turns) word b word' e = elim (Bool-cases (has_bit locked_bit word)) [
  | inl l ↦ elim (Bool-cases (a.lucky && (a.meanwhile word == word))) [
    | inl d ↦ (word, ground arith)
    | inr d ↦ mark_loop-atomic turns (a.meanwhile word) b word' (rw (l, d) at e)
  ]
  | inr l ↦ (word, ground arith)
]
