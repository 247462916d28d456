-- ===== src/Sync/RawRwLock/Refinement.antt =====
-- The step in which a thread wakes others is `unpark_filter` on the table of buckets.
use parking_lot.Prelude.{
  ℕ, ◌<◌, ◌≡◌, ◌∙◌, ap, refl, inl, inr, Bool, true, not, ◌&&◌, none, some, List, [], ◌∷◌, arith,
  ◌==◌, Bool-cases, if◌then◌else◌, is_empty, length, ◌∈◌,
}
use parking_lot.Core.FairTimeout.{should_timeout}
use parking_lot.Core.Queue.{Memory}
use parking_lot.Core.Lot.{Lot, home, UnparkResult, FilterOp, unpark, skip, stop}
use parking_lot.Core.Lot.Table.{IsLot, view}
use parking_lot.Core.Lot.Filter.{unpark_filter_at}
use parking_lot.Core.Lot.Filter.Sieve.{Sift, sift}
use parking_lot.Core.Lot.Filter.Loop.{token_of}
use parking_lot.Core.Lot.Filter.Laws.{on_queue, told, answer, unpark_filter-Sifts}
use parking_lot.Sync.RawRwLock.{
  Word, ParkToken, token_shared, token_upgradable, token_exclusive, add_token, WakeReason, Shared,
  Effect,
}
use parking_lot.Sync.RawRwLock.Usize.{value}
use parking_lot.Sync.RawRwLock.Wake.{
  filter, Filtered, filter_all, base, after, wake_callback, filter_step,
}

-- The park token behind its number.
abbrev pub read_token : ℕ → ParkToken
read_token n =
    if n == value token_exclusive
    then token_exclusive
    else if n == value token_upgradable
    then token_upgradable
    else token_shared

abbrev pub added : FilterOp → ParkToken → Word → Word
added unpark t s = add_token t s
added skip t s = s
added stop t s = s

-- The closures of `wake_parked_threads`, on the lock's word and the cell `new_state`.
abbrev pub filter_closure : ℕ → Word × Word → FilterOp × (Word × Word)
filter_closure n (word, s) =
    (filter s (read_token n), (word, added (filter s (read_token n)) (read_token n) s))

abbrev pub wake_closure :
    WakeReason → (gives_up : Bool) → UnparkResult → Word × Word → ℕ × (Word × Word)
wake_closure why gives_up result (word, s) =
    let (token, word') = wake_callback why gives_up word s result in (token, (word', s))

read-value : (t : ParkToken) → read_token (value t) ≡ t
read-value token_shared = refl
read-value token_upgradable = refl
read-value token_exclusive = refl

abbrev sift_of : Word → Filtered → Sift (Word × Word)
sift_of word r = record {
  taken = r.taken;
  left = r.left;
  more = r.more;
  captured = (word, r.new_state);
}

sift-step :
    (m : Memory) (token : ℕ → ParkToken) (word s : Word) (x : ℕ) (xs : List ℕ) (op : FilterOp)
    → filter s (token x) ≡ op
    → read_token (token_of m x) ≡ token x
    → ((s' : Word)
        → sift filter_closure (λ _. true) (token_of m) xs (word, s')
          ≡ sift_of word (filter_all token s' xs))
    → sift filter_closure (λ _. true) (token_of m) (x ∷ xs) (word, s)
      ≡ sift_of word (filter_all token s (x ∷ xs))
unfolding filter_all sift
sift-step m token word s x xs unpark o e ih = rw (e, o, ih (add_token (token x) s)) refl
sift-step m token word s x xs skip o e ih = rw (e, o, ih s) refl
sift-step m token word s x xs stop o e ih = rw (e, o) refl

filter_all-sift :
    (m : Memory) (token : ℕ → ParkToken) (word s : Word) (xs : List ℕ)
    → ((a : ℕ) → a ∈ xs → token_of m a ≡ value (token a))
    → sift filter_closure (λ _. true) (token_of m) xs (word, s)
      ≡ sift_of word (filter_all token s xs)
unfolding filter_all sift
filter_all-sift m token word s [] t = refl
filter_all-sift m token word s (x ∷ xs) t =
    sift-step m token word s x xs (filter s (token x)) refl
      (rw (t x (ground arith)) (read-value (token x)))
      λ s'. filter_all-sift m token word s' xs λ a i. t a (ground arith)

-- What the table of buckets and the lock's own state have in common after a wake-up.
pub record Agrees (key : ℕ) (s : Lot) (q : ℕ → List ℕ) (word : Word) (e : Effect) : Type 0 where
  pub table : IsLot s q
  pub queue : view s q key ≡ e.shared_state.queue
  pub state : word ≡ e.shared_state.word
  pub sent :
      (a : ℕ) → a ∈ e.sent → ((s.memory a).unpark_token ≡ e.token) × ((s.memory a).parker ≡ 0)

module _ (now key fuel : ℕ) (why : WakeReason) (gives_up : Bool) (s : Lot) (q : ℕ → List ℕ)
    (m : Shared) (i : IsLot s q) (enough : length (q (home s key)) < fuel)
    (same : view s q key ≡ m.queue)
    (tokens : (a : ℕ) → a ∈ m.queue → token_of s.memory a ≡ value (m.park_token a)) where
  abbrev c : Word × Word
  c = (m.word, base why)

  -- The answer of the bucket's timer.
  abbrev pub fair : Bool
  fair = (should_timeout now (s.entries (home s key)).fair_timeout).0

  abbrev r : Filtered
  r = filter_all m.park_token (base why) m.queue

  sieved : on_queue now (wake_closure why gives_up) filter_closure key s c q i ≡ sift_of m.word r
  sieved = rw same (filter_all-sift s.memory m.park_token m.word (base why) m.queue tokens)

  abbrev told_of : Sift (Word × Word) → UnparkResult
  told_of = told now (wake_closure why gives_up) filter_closure key s c q i

  abbrev result : UnparkResult
  result = record {
    unparked_threads = length r.taken;
    requeued_threads = 0;
    have_more_threads = r.more;
    be_fair = not (is_empty r.taken) && fair;
  }

  result_same : told_of (sift_of m.word r) ≡ result
  result_same = elim (Bool-cases (is_empty r.taken)) [ inl h ↦ rw h refl | inr h ↦ rw h refl ]

  abbrev answers : ℕ × Word
  answers = wake_callback why gives_up m.word r.new_state result

  answered :
      answer now (wake_closure why gives_up) filter_closure key s c q i
      ≡ (answers.0, (answers.1, r.new_state))
  answered =
      ap (λ x. wake_closure why gives_up (told_of x) x.captured) sieved
      ∙ ap (λ x. wake_closure why gives_up x (m.word, r.new_state)) result_same

  -- Where the queue of the lock's address in the table is the lock's main queue, with its park
  -- tokens, `unpark_filter` with the closures of `wake_parked_threads` ends, and leaves the table
  -- with the queue, the lock's word and the tokens that the lock's own step leaves, at the answer of
  -- the bucket's timer.
  pub filter_step-Agrees :
      (e : Effect) × (s' : Lot) × (q' : ℕ → List ℕ) × (c' : Word × Word) × (result : UnparkResult)
      × (filter_step why fair gives_up m ≡ some e)
      × (unpark_filter_at now
            (wake_closure why gives_up)
            filter_closure
            fuel
            key
            (s, (m.word, base why))
          ≡ some (s', c', result))
      × Agrees key s' q' c'.0 e
  unfolding filter_step
  filter_step-Agrees =
      let (s', q', ran, f) =
        unpark_filter-Sifts now (wake_closure why gives_up) filter_closure key s c q i fuel
          enough in
      (
        record {
          shared_state = record m { word = answers.1; bucket = none; queue = r.left };
          self = record { pc = after why; mail = none };
          sent = r.taken;
          token = answers.0;
        },
        s',
        q',
        (answer now (wake_closure why gives_up) filter_closure key s c q i).1,
        told_of (on_queue now (wake_closure why gives_up) filter_closure key s c q i),
        refl,
        ran,
        record {
          table = f.table;
          queue = f.queue ∙ ap (λ x. x.left) sieved;
          state = ap (λ x. x.1.0) answered;
          sent = λ a o. let (x, y) = f.awake a (rw sieved o) in (x ∙ ap (λ x. x.0) answered, y);
        },
      )
