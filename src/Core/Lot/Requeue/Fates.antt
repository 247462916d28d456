-- ===== src/Core/Lot/Requeue/Fates.antt =====
-- Which threads stay, are woken and are requeued.
use parking_lot.Prelude.{
  ◌≡◌, ◌≢◌, ◌∙◌, ◌⊎◌, refl, inl, inr, Bool, true, false, not, ◌&&◌, List, [], ◌∷◌, arith,
  if◌then◌else◌, Bool-cases, ◌∈◌, ◌∉◌, length, keep, is_empty, has-keep_by, Distinct, keep_cong_mem,
  keep-keep, keep-nil,
}
use parking_lot.Core.Queue.{Ptr}
use parking_lot.Core.Lot.{
  RequeueOp, abort, unpark_one_requeue_rest, requeue_all, unpark_one, requeue_one,
}
use parking_lot.Core.Lot.Requeue.{takes_one}
use parking_lot.Core.Lot.Requeue.Parts.{first, others, act, woken, moved, left, kept, drop_first}

pub act_start : (op : RequeueOp) → act op true ≡ op
act_start abort = refl
act_start unpark_one_requeue_rest = refl
act_start requeue_all = refl
act_start unpark_one = refl
act_start requeue_one = refl

first-mem : (a : Ptr) (zs : List Ptr) → a ∈ first zs → a ∈ zs
first-mem a [] i = i
first-mem a (z ∷ zs) i = ground arith

others-mem : (a : Ptr) (zs : List Ptr) → a ∈ others zs → a ∈ zs
others-mem a [] i = i
others-mem a (z ∷ zs) i = ground arith

pub moved-mem : (op : RequeueOp) (a : Ptr) (zs : List Ptr) → a ∈ moved op zs → a ∈ zs
moved-mem abort a zs i = absurd (cc)
moved-mem unpark_one_requeue_rest a zs i = others-mem a zs i
moved-mem requeue_all a zs i = i
moved-mem unpark_one a zs i = absurd (cc)
moved-mem requeue_one a zs i = first-mem a zs i

first-cases : (zs : List Ptr) → (first zs ≡ []) ⊎ ((x : Ptr) × (first zs ≡ x ∷ []))
first-cases [] = inl refl
first-cases (z ∷ zs) = inr (z, refl)

-- At most one thread is woken.
pub woken-cases :
    (op : RequeueOp) (zs : List Ptr) → (woken op zs ≡ []) ⊎ ((x : Ptr) × (woken op zs ≡ x ∷ []))
woken-cases abort zs = inl refl
woken-cases unpark_one_requeue_rest zs = first-cases zs
woken-cases requeue_all zs = inl refl
woken-cases unpark_one zs = first-cases zs
woken-cases requeue_one zs = inl refl

first-Distinct : (zs : List Ptr) → Distinct (first zs)
first-Distinct [] = tt
first-Distinct (z ∷ zs) = (refl, tt)

others-Distinct : (zs : List Ptr) → Distinct zs → Distinct (others zs)
others-Distinct [] d = d
others-Distinct (z ∷ zs) d = d.1

pub moved-Distinct : (op : RequeueOp) (zs : List Ptr) → Distinct zs → Distinct (moved op zs)
moved-Distinct abort zs d = tt
moved-Distinct unpark_one_requeue_rest zs d = others-Distinct zs d
moved-Distinct requeue_all zs d = d
moved-Distinct unpark_one zs d = tt
moved-Distinct requeue_one zs d = first-Distinct zs

-- What the callback is told.
length-first : (zs : List Ptr) → (if is_empty (first zs) then 0 else 1) ≡ length (first zs)
length-first [] = refl
length-first (z ∷ zs) = refl

pub length-woken :
    (op : RequeueOp) (zs : List Ptr)
    → (if is_empty (woken op zs) then 0 else 1) ≡ length (woken op zs)
length-woken abort zs = refl
length-woken unpark_one_requeue_rest zs = length-first zs
length-woken requeue_all zs = refl
length-woken unpark_one zs = length-first zs
length-woken requeue_one zs = refl

pub more_left :
    (op : RequeueOp) (zs : List Ptr)
    → op ≢ abort
    → (takes_one op && not (is_empty (others zs))) ≡ not (is_empty (left op zs))
more_left abort zs n = absurd (n refl)
more_left unpark_one_requeue_rest zs n = refl
more_left requeue_all zs n = refl
more_left unpark_one zs n = refl
more_left requeue_one zs n = refl

module _ (here : Ptr → Bool) where
  drop_first-mem : (a : Ptr) (xs : List Ptr) → a ∈ drop_first here xs → a ∈ xs
  unfolding drop_first
  drop_first-mem a [] i = i
  drop_first-mem a (x ∷ xs) i = ground (arith, drop_first-mem a xs)

  drop_first-apart :
      (a : Ptr) (xs : List Ptr) → Distinct xs → a ∈ drop_first here xs → a ∉ first (keep here xs)
  unfolding drop_first
  drop_first-apart a [] d i = refl
  drop_first-apart a (x ∷ xs) d i = elim (Bool-cases (here x)) [
    | inl e ↦ rw e (ground arith)
    | inr e ↦ rw e (
        ground
          (arith, drop_first-apart a xs d.1, first-mem a (keep here xs), has-keep_by a here xs, i))
  ]

  keep-drop_first : (xs : List Ptr) → keep here (drop_first here xs) ≡ others (keep here xs)
  unfolding drop_first
  keep-drop_first [] = refl
  keep-drop_first (x ∷ xs) = ground (arith, keep-drop_first xs)

  keep-drop_first_other :
      (p : Ptr → Bool) (xs : List Ptr)
      → ((a : Ptr) → here a ≡ true → p a ≡ false)
      → keep p (drop_first here xs) ≡ keep p xs
  unfolding drop_first
  keep-drop_first_other p [] n = refl
  keep-drop_first_other p (x ∷ xs) n = ground (arith, keep-drop_first_other p xs n, n x)

  pub kept-mem : (op : RequeueOp) (a : Ptr) (xs : List Ptr) → a ∈ kept op here xs → a ∈ xs
  kept-mem op a xs i =
      ground (arith, drop_first-mem a xs, has-keep_by a (λ (b : Ptr). not (here b)) xs)

  pub kept-apart :
      (op : RequeueOp) (a : Ptr) (xs : List Ptr)
      → Distinct xs
      → a ∈ kept op here xs
      → a ∉ moved op (keep here xs)
  kept-apart abort a xs d i = refl
  kept-apart unpark_one_requeue_rest a xs d i = ground (
    arith,
    others-mem a (keep here xs),
    has-keep_by a here xs,
    has-keep_by a (λ (b : Ptr). not (here b)) xs,
  )
  kept-apart requeue_all a xs d i =
      ground (arith, has-keep_by a here xs, has-keep_by a (λ (b : Ptr). not (here b)) xs)
  kept-apart unpark_one a xs d i = refl
  kept-apart requeue_one a xs d i = drop_first-apart a xs d i

  keep-others : (xs : List Ptr) → keep here (keep (λ a. not (here a)) xs) ≡ []
  keep-others xs =
      keep-nil here (keep (λ a. not (here a)) xs)
        (λ a i. ground (arith, has-keep_by a (λ (b : Ptr). not (here b)) xs))

  -- The queue of `key_from`.
  pub keep-kept :
      (op : RequeueOp) (xs : List Ptr)
      → op ≢ abort
      → keep here (kept op here xs) ≡ left op (keep here xs)
  keep-kept abort xs n = absurd (n refl)
  keep-kept unpark_one_requeue_rest xs n = keep-others xs
  keep-kept requeue_all xs n = keep-others xs
  keep-kept unpark_one xs n = keep-drop_first xs
  keep-kept requeue_one xs n = keep-drop_first xs

  -- The queue of another key.
  pub keep-kept_other :
      (op : RequeueOp) (p : Ptr → Bool) (xs : List Ptr)
      → ((a : Ptr) → here a ≡ true → p a ≡ false)
      → keep p (kept op here xs) ≡ keep p xs
  keep-kept_other op p xs n = elim (Bool-cases (takes_one op)) [
    | inl e ↦ rw e (keep-drop_first_other p xs n)
    | inr e ↦
        rw e
          (keep-keep p (λ a. not (here a)) xs ∙ keep_cong_mem p _ xs (λ a i. ground (arith, n a)))
  ]
