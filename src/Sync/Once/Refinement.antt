-- ===== src/Sync/Once/Refinement.antt =====
-- The wake-up of a `Once` on its own queue is the parking lot's `unpark_all` on the table.
use parking_lot.Prelude.{ℕ, ◌<◌, ◌≡◌, refl, ◌∙◌, ap, Bool, some, List, ◌∈◌, length}
use parking_lot.Core.Lot.{Lot, home, unpark_all_at}
use parking_lot.Core.Lot.Table.{IsLot, view}
use parking_lot.Core.Lot.UnparkAll.{unpark_all-Freed}
use parking_lot.Sync.Once.{Shared, Effect, unpark_all_step}

-- Where the queue of the address of a `Once` in the table is its queue, `unpark_all` ends, counts
-- the threads that the step of the `Once` wakes, and leaves the table with the queue that the step
-- leaves and each of those threads awake.
pub unpark_all_step-unpark_all_at :
    (fuel key token : ℕ) (ok : Bool) (s : Lot) (q : ℕ → List ℕ) (m : Shared)
    → IsLot s q
    → length (q (home s key)) < fuel
    → view s q key ≡ m.queue
    → (e : Effect) × (s' : Lot) × (q' : ℕ → List ℕ) × (unpark_all_step ok m ≡ some e)
      × (unpark_all_at fuel key token s ≡ some (s', length e.woken))
      × IsLot s' q'
      × (view s' q' key ≡ e.shared.queue)
      × ((a : ℕ) → a ∈ e.woken → (s'.memory a).parker ≡ 0)
unfolding unpark_all_step
unpark_all_step-unpark_all_at fuel key token ok s q m i h same =
    let (s', q', ran, freed) = unpark_all-Freed fuel key token s q i h in
    (
      _,
      s',
      q',
      refl,
      ran ∙ ap (λ (xs : List ℕ). some (s', length xs)) same,
      freed.table,
      freed.queue,
      λ a w. (freed.awake a (rw same w)).1,
    )
