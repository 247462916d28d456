-- ===== src/Core/Lot/Requeue/Parts.antt =====
-- How `unpark_requeue` parts a queue, as a function of lists.
use parking_lot.Prelude.{
  ◌≡◌, ◌≢◌, refl, ◌++◌, Bool, true, false, not, ◌&&◌, List, [], ◌∷◌, arith, if◌then◌else◌, keep,
}
use parking_lot.Core.Queue.{Ptr}
use parking_lot.Core.Lot.{
  RequeueOp, abort, unpark_one_requeue_rest, requeue_all, unpark_one, requeue_one,
}
use parking_lot.Core.Lot.Requeue.{unparks, takes_one}

abbrev pub first : List Ptr → List Ptr
first [] = []
first (x ∷ xs) = x ∷ []

abbrev pub others : List Ptr → List Ptr
others [] = []
others (x ∷ xs) = xs

-- Of the threads `zs` that wait for `key_from`: those that are woken.
abbrev pub woken : RequeueOp → List Ptr → List Ptr
woken abort zs = []
woken unpark_one_requeue_rest zs = first zs
woken requeue_all zs = []
woken unpark_one zs = first zs
woken requeue_one zs = []

-- Those that are requeued.
abbrev pub moved : RequeueOp → List Ptr → List Ptr
moved abort zs = []
moved unpark_one_requeue_rest zs = others zs
moved requeue_all zs = zs
moved unpark_one zs = []
moved requeue_one zs = first zs

-- Those that stay.
abbrev pub left : RequeueOp → List Ptr → List Ptr
left abort zs = zs
left unpark_one_requeue_rest zs = []
left requeue_all zs = []
left unpark_one zs = others zs
left requeue_one zs = others zs

-- What the operation does from a round on: `unchosen`, while no thread is chosen for a wake-up.
abbrev pub act : RequeueOp → (unchosen : Bool) → RequeueOp
act abort u = abort
act unpark_one_requeue_rest u = if u then unpark_one_requeue_rest else requeue_all
act requeue_all u = requeue_all
act unpark_one u = if u then unpark_one else requeue_one
act requeue_one u = requeue_one

unfoldable pub drop_first : (here : Ptr → Bool) → List Ptr → List Ptr
drop_first here [] = []
drop_first here (x ∷ xs) = if here x then xs else x ∷ drop_first here xs

-- What stays of the bucket's queue.
abbrev pub kept : RequeueOp → (here : Ptr → Bool) → List Ptr → List Ptr
kept op here xs = if takes_one op then drop_first here xs else keep (λ a. not (here a)) xs

-- What one round adds to the threads that are woken, and to those that are requeued.
abbrev pub woken_here : (wakes : Bool) → Ptr → List Ptr
woken_here w x = if w then x ∷ [] else []

abbrev pub moved_here : (wakes : Bool) → Ptr → List Ptr
moved_here w x = if w then [] else x ∷ []

pub woken-nil : (op : RequeueOp) (u : Bool) → woken (act op u) [] ≡ []
woken-nil abort u = refl
woken-nil unpark_one_requeue_rest true = refl
woken-nil unpark_one_requeue_rest false = refl
woken-nil requeue_all u = refl
woken-nil unpark_one true = refl
woken-nil unpark_one false = refl
woken-nil requeue_one u = refl

pub moved-nil : (op : RequeueOp) (u : Bool) → moved (act op u) [] ≡ []
moved-nil abort u = refl
moved-nil unpark_one_requeue_rest true = refl
moved-nil unpark_one_requeue_rest false = refl
moved-nil requeue_all u = refl
moved-nil unpark_one true = refl
moved-nil unpark_one false = refl
moved-nil requeue_one u = refl

module _ (x : Ptr) (ws : List Ptr) where
  -- One thread of an operation that goes on.
  pub woken-round :
      (op : RequeueOp) (u : Bool)
      → op ≢ abort
      → takes_one op ≡ false
      → let w = unparks op && u in
        woken (act op u) (x ∷ ws) ≡ woken_here w x ++ woken (act op (u && not w)) ws
  woken-round abort u n e = absurd (n refl)
  woken-round unpark_one_requeue_rest true n e = refl
  woken-round unpark_one_requeue_rest false n e = refl
  woken-round requeue_all u n e = refl
  woken-round unpark_one u n e = absurd (cc)
  woken-round requeue_one u n e = absurd (cc)

  pub moved-round :
      (op : RequeueOp) (u : Bool)
      → op ≢ abort
      → takes_one op ≡ false
      → let w = unparks op && u in
        moved (act op u) (x ∷ ws) ≡ moved_here w x ++ moved (act op (u && not w)) ws
  moved-round abort u n e = absurd (n refl)
  moved-round unpark_one_requeue_rest true n e = refl
  moved-round unpark_one_requeue_rest false n e = refl
  moved-round requeue_all u n e = refl
  moved-round unpark_one u n e = absurd (cc)
  moved-round requeue_one u n e = absurd (cc)

  -- The thread of an operation that takes one.
  pub woken-only :
      (op : RequeueOp) (u : Bool)
      → takes_one op ≡ true
      → woken (act op u) (x ∷ ws) ≡ woken_here (unparks op && u) x
  woken-only abort u e = absurd (cc)
  woken-only unpark_one_requeue_rest u e = absurd (cc)
  woken-only requeue_all u e = absurd (cc)
  woken-only unpark_one true e = refl
  woken-only unpark_one false e = refl
  woken-only requeue_one u e = refl

  pub moved-only :
      (op : RequeueOp) (u : Bool)
      → takes_one op ≡ true
      → moved (act op u) (x ∷ ws) ≡ moved_here (unparks op && u) x
  moved-only abort u e = absurd (cc)
  moved-only unpark_one_requeue_rest u e = absurd (cc)
  moved-only requeue_all u e = absurd (cc)
  moved-only unpark_one true e = refl
  moved-only unpark_one false e = refl
  moved-only requeue_one u e = refl

module _ (op : RequeueOp) (here : Ptr → Bool) where
  pub kept-nil : kept op here [] ≡ []
  unfolding drop_first
  kept-nil = ground arith

  module _ (x : Ptr) (xs : List Ptr) where
    pub kept_passed : here x ≡ false → kept op here (x ∷ xs) ≡ x ∷ kept op here xs
    unfolding drop_first
    kept_passed e = ground arith

    pub kept_taken : here x ≡ true → takes_one op ≡ false → kept op here (x ∷ xs) ≡ kept op here xs
    kept_taken e t = ground arith

    pub kept_stopped : here x ≡ true → takes_one op ≡ true → kept op here (x ∷ xs) ≡ xs
    unfolding drop_first
    kept_stopped e t = ground arith
