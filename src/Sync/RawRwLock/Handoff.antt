-- ===== src/Sync/RawRwLock/Handoff.antt =====
-- src/raw_rwlock.rs: what the fair unlock does with the threads that it wakes.
use parking_lot.Prelude.{
  ◌≤◌, ℕ, ◌≡◌, refl, inl, inr, Bool, true, false, not, ◌||◌, none, some, List, [], ◌∷◌, arith,
  is_empty, keep, length, length_pos, ◌↔◌, ◌∙◌, sym, if◌then◌else◌, ◌∈◌, Distinct,
}
use parking_lot.Sync.RawMutex.{token_handoff}
use parking_lot.Sync.RawRwLock.{
  Word, free, ParkToken, token_shared, token_upgradable, token_exclusive, add_token,
  unlocks_exclusive, exclusive, idle, start, Shared, Effect,
}
use parking_lot.Sync.RawRwLock.System.Holds.{hold_token, is_writer, is_upgrade}
use parking_lot.Sync.RawRwLock.System.Sift.{Sifted, token_counts, token_major, filter_all-Sifted}
use parking_lot.Sync.RawRwLock.Wake.{Filtered, filter, filter_all, wake_callback, filter_step}

-- `more` tells whether a thread is left.
pub filter_all-more :
    (token : ℕ → ParkToken) (s : Word) (xs : List ℕ)
    → (filter_all token s xs).more ≡ not (is_empty (filter_all token s xs).left)
unfolding filter_all filter
filter_all-more token s [] = refl
filter_all-more token s (x ∷ xs) =
    ground
      (arith, filter_all-more token (add_token (token x) s) xs, filter_all-more token s xs, token x)

filter_all-first :
    (token : ℕ → ParkToken) (x : ℕ) (xs : List ℕ)
    → (filter_all token free (x ∷ xs)).taken
      ≡ x ∷ (filter_all token (add_token (token x) free) xs).taken
unfolding filter_all filter
filter_all-first token x xs = ground (arith, token x)

-- The readers, the upgradable and the writer bit of the word `w` are those of the threads `xs`,
-- which wait with these tokens.
pub record Grants (token : ℕ → ParkToken) (xs : List ℕ) (w : Word) : Type 0 where
  pub distinct : Distinct xs
  pub readers : w.readers ≡ length (keep (token_counts token) xs)
  pub upgrade : (w.upgradable ≡ true) ↔ ((a : ℕ) × (a ∈ xs) × (token a ≡ token_upgradable))
  pub write : (w.writer ≡ true) ↔ ((a : ℕ) × (a ∈ xs) × (token a ≡ token_exclusive))
  pub unique :
      (a b : ℕ) → a ∈ xs → b ∈ xs → token_major token a ≡ true → token_major token b ≡ true → a ≡ b

upgrade_token : (t : ParkToken) → is_upgrade (hold_token t) ≡ true → t ≡ token_upgradable
upgrade_token token_shared h = absurd (cc)
upgrade_token token_upgradable h = refl
upgrade_token token_exclusive h = absurd (cc)

writer_token : (t : ParkToken) → is_writer (hold_token t) ≡ true → t ≡ token_exclusive
writer_token token_shared h = absurd (cc)
writer_token token_upgradable h = absurd (cc)
writer_token token_exclusive h = refl

Sifted-Grants :
    (token : ℕ → ParkToken) (xs : List ℕ) (r : Filtered) (w : Word)
    → Sifted token free xs r
    → w.readers ≡ r.new_state.readers
    → w.upgradable ≡ r.new_state.upgradable
    → w.writer ≡ r.new_state.writer
    → Grants token r.taken w
Sifted-Grants token xs r w f readers upgrade write = record {
  distinct = f.distinct_taken;
  readers = omega (arith, readers, f.total);
  upgrade = (
    λ h.
        let (a, here, major) = an_owner (ground (arith, upgrade)) in
        (a, here, upgrade_token (token a) (sym (f.majors a here major).1 ∙ sym upgrade ∙ h)),
    λ (a, here, t). upgrade ∙ (f.majors a here (rw t refl)).1 ∙ rw t refl,
  );
  write = (
    λ h.
        let (a, here, major) = an_owner (ground (arith, write)) in
        (a, here, writer_token (token a) (sym (f.majors a here major).2 ∙ sym write ∙ h)),
    λ (a, here, t). write ∙ (f.majors a here (rw t refl)).2 ∙ rw t refl,
  );
  unique = f.unique;
}
  where
    an_owner :
        (r.new_state.upgradable || r.new_state.writer) ≡ true
        → (a : ℕ) × (a ∈ r.taken) × (token_major token a ≡ true)
    an_owner h = elim (f.owner h) [ inl bad ↦ absurd (cc) | inr one ↦ one ]

is_empty-has : (x : ℕ) (xs : List ℕ) → x ∈ xs → is_empty xs ≡ false
is_empty-has x [] h = absurd (cc)
is_empty-has x (y ∷ ys) h = refl

module _ (m : Shared) (x : ℕ) (xs : List ℕ) (q : m.queue ≡ x ∷ xs) (d : Distinct m.queue) where
  -- When a thread that holds the lock exclusively goes to wake others, `x` is the first thread in
  -- the queue, and the unlock is a fair one or the bucket's timer answers that it is to be fair:
  -- the step returns, `x` is woken with the hand-off token, and the parked bit of the new word says
  -- whether a thread is left in the queue. The new word is exactly what the threads that are woken
  -- hold: each of them once in its reader count, if its token adds a reader; the upgradable bit
  -- exactly if one of them has the upgradable token, and the writer bit exactly if one has the
  -- exclusive token. At most one of them has either of these two tokens.
  pub unlock_fair-serves :
      (force_fair relock be_fair gives_up : Bool)
      → (force_fair || be_fair) ≡ true
      → (e : Effect) × (filter_step (unlocks_exclusive force_fair relock) be_fair gives_up m
          ≡ some e)
        × (x ∈ e.sent)
        × (e.token ≡ token_handoff)
        × Grants m.park_token e.sent e.shared_state.word
        × (e.shared_state.word.parked ≡ not (is_empty e.shared_state.queue))
  unfolding filter_step wake_callback
  unlock_fair-serves force_fair relock be_fair gives_up h =
      let r : Filtered = filter_all m.park_token free m.queue in
      let here : x ∈ r.taken = rw (q, filter_all-first m.park_token x xs) (ground arith) in
      let woken : is_empty r.taken ≡ false = is_empty-has x r.taken here in
      let some_taken : 1 ≤ length r.taken = length_pos x r.taken here in
      let word : Word = record r.new_state { parked = r.more } in
      (
        record {
          shared_state = record m { word = word; bucket = none; queue = r.left };
          self = record { pc = if relock then start exclusive false else idle; mail = none };
          sent = r.taken;
          token = token_handoff;
        },
        ground arith,
        here,
        refl,
        Sifted-Grants m.park_token m.queue r word (filter_all-Sifted m.park_token free m.queue d)
            refl refl refl,
        filter_all-more m.park_token free m.queue,
      )
