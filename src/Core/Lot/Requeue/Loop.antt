-- ===== src/Core/Lot/Requeue/Loop.antt =====
-- The loop of `unpark_requeue` parts the bucket's queue as its operation says.
use mathlib.Core.List.{append_assoc, append-nil}
use parking_lot.Prelude.{
  ℕ, zero, suc, ◌<◌, ◌≡◌, ◌≢◌, ◌∙◌, refl, ap, inl, inr, Bool, true, false, not, ◌&&◌, some, List,
  [], ◌∷◌, ◌++◌, arith, ◌==◌, if◌then◌else◌, Bool-cases, ◌∈◌, ◌∉◌, length, keep, any, any-keep,
  is_empty, has-append, Distinct, Distinct-append, Distinct-append_right, Distinct-apart,
}
use parking_lot.Core.Queue.{Ptr, null, next_of, key_of, Link, at_next, scan}
use parking_lot.Core.Queue.Cursor.{Cursor, Cursor-stop, Cursor-next}
use parking_lot.Core.Queue.Frames.{waits, scan-any}
use parking_lot.Core.Lot.{RequeueOp, abort}
use parking_lot.Core.Lot.Requeue.{Moving, is_none, unparks, takes_one, requeue_loop}
use parking_lot.Core.Lot.Requeue.Parts.{
  kept-nil, kept_passed, kept_taken, kept_stopped, act, woken, moved, kept, others, woken_here,
  moved_here, woken-nil, moved-nil, woken-round, moved-round, woken-only, moved-only,
}
use parking_lot.Core.Lot.Requeue.Chain.{IsChain}
use parking_lot.Core.Lot.Requeue.Rounds.{Moved, Moved-then, Moved-pass, Moved-stop, chosen-nil}
use parking_lot.Core.Lot.Requeue.Round.{taken, taken-Moved, taken-Cursor, taken_unchosen}

any_cong_mem :
    (p q : Ptr → Bool) (xs : List Ptr) → ((a : Ptr) → a ∈ xs → q a ≡ p a) → any q xs ≡ any p xs
any_cong_mem p q [] h = refl
any_cong_mem p q (x ∷ xs) h =
    rw (h x (ground arith), any_cong_mem p q xs (λ a i. h a (ground arith))) refl

module _ (op : RequeueOp) (key_from key_to : ℕ) (here : Ptr → Bool) (proceeds : op ≢ abort) where
  -- What the loop leaves, from a queue `rest` behind `pre`.
  abbrev pub Parts : Moving → Moving → (pre rest zs : List Ptr) → Type 0
  Parts st st' pre rest zs =
      let op' = act op (is_none st.wakeup_thread) in
      let ws = keep here rest in
      Moved key_to st st' pre rest zs (kept op here rest) (woken op' ws) (moved op' ws)
        (takes_one op && not (is_empty (others ws)))

  Moved-none :
      (st : Moving) {link : Link} {current previous : Ptr} (pre zs : List Ptr)
      → Cursor st.locked link current previous pre []
      → IsChain st.locked.memory st.requeue_threads st.requeue_threads_tail zs
      → Parts st st pre [] zs
  Moved-none st pre zs c chain =
      rw
        (
          kept-nil op here,
          woken-nil op (is_none st.wakeup_thread),
          moved-nil op (is_none st.wakeup_thread),
        )
        (record {
          queue = Cursor-stop st.locked pre [] c;
          chain = rw append-nil chain;
          keys = λ a. refl;
          outside = λ a o p q. refl;
          fields = λ a. refl;
          fair = refl;
          wakeup = chosen-nil st.wakeup_thread;
          result = ground arith;
        })

  module _ (link : Link) (current previous : Ptr) (pre : List Ptr) (x : Ptr) (rest zs : List Ptr)
      (st : Moving) (c : Cursor st.locked link current previous pre (x ∷ rest))
      (chain : IsChain st.locked.memory st.requeue_threads st.requeue_threads_tail zs)
      (d : Distinct zs) (apart : (a : Ptr) → a ∈ zs → a ∉ (pre ++ x ∷ rest))
      (reads : (a : Ptr) → a ∈ (x ∷ rest) → waits st.locked.memory key_from a ≡ here a) where
    abbrev w : Bool
    w = unparks op && is_none st.wakeup_thread

    abbrev after : Moving
    after = taken op key_from key_to st link current previous pre x rest zs c chain d apart

    step : Moved key_to st after pre (x ∷ rest) zs rest (woken_here w x) (moved_here w x) false
    step = taken-Moved op key_from key_to st link current previous pre x rest zs c chain d apart

    cursor : Cursor after.locked link (next_of st.locked.memory current) previous pre rest
    cursor = taken-Cursor op key_from key_to st link current previous pre x rest zs c chain d apart

    nonnull : (current == null) ≡ false
    nonnull = ground (arith, c.back.0, c.back.1)

    here_x : (key_of st.locked.memory current == key_from) ≡ here x
    here_x = rw c.back.0 (reads x (ground arith))

    x_out_rest : x ∉ rest
    x_out_rest = (Distinct-append_right pre (x ∷ rest) c.distinct).0

    x_out_pre : x ∉ pre
    x_out_pre = ground (arith, Distinct-apart pre (x ∷ rest) x c.distinct)

    moved_only : (a : Ptr) → a ∈ moved_here w x → a ≡ x
    moved_only a i = ground arith

    reads_on : (a : Ptr) → a ∈ rest → waits after.locked.memory key_from a ≡ here a
    reads_on a i = ground (arith, step.keys a, moved_only a, reads a, x_out_rest)

    more :
        (f : ℕ)
        → length rest < f
        → scan f key_from after.locked.memory (next_of st.locked.memory current)
          ≡ some (any here rest)
    more f h =
        scan-any f key_from after.locked.memory _ rest cursor.back h
        ∙ ap some (any_cong_mem here (waits after.locked.memory key_from) rest reads_on)

    zs_apart : (a : Ptr) → a ∈ (zs ++ moved_here w x) → a ∉ (pre ++ rest)
    zs_apart a i = ground (
      arith,
      apart a,
      moved_only a,
      x_out_rest,
      x_out_pre,
      has-append a pre (x ∷ rest),
      has-append a pre rest,
      has-append a zs (moved_here w x),
    )

    zs-Distinct : Distinct (zs ++ moved_here w x)
    zs-Distinct =
        Distinct-append zs (moved_here w x) d (ground arith)
          (λ a i. ground (arith, apart x, apart a, moved_only a, has-append x pre (x ∷ rest)))

    unchosen : is_none after.wakeup_thread ≡ (is_none st.wakeup_thread && not w)
    unchosen =
        taken_unchosen op key_from key_to st link current previous pre x rest zs c chain d apart

    abbrev final : Moving
    final =
        if any here rest
        then record after { result = record after.result { have_more_threads = true } }
        else after

    stopped : here x ≡ true → takes_one op ≡ true → Parts st final pre (x ∷ rest) zs
    stopped e t =
        rw
          (
            kept_stopped op here x rest e t,
            e,
            woken-only x (keep here rest) op (is_none st.wakeup_thread) t,
            moved-only x (keep here rest) op (is_none st.wakeup_thread) t,
            t,
            any-keep here rest,
          )
          (Moved-stop key_to st after pre (x ∷ rest) zs rest (woken_here w x) (moved_here w x)
            (not (is_empty (keep here rest))) step)

    taken-Parts :
        (st' : Moving)
        → here x ≡ true
        → takes_one op ≡ false
        → Parts after st' pre rest (zs ++ moved_here w x)
        → Parts st st' pre (x ∷ rest) zs
    taken-Parts st' e t k =
        rw
          (
            kept_taken op here x rest e t,
            e,
            woken-round x (keep here rest) op (is_none st.wakeup_thread) proceeds t,
            moved-round x (keep here rest) op (is_none st.wakeup_thread) proceeds t,
            t,
          )
          (Moved-then key_to st after st' pre x rest zs _ (woken_here w x) (moved_here w x) _ _
            false step moved_only (rw (unchosen, t) at k))

  pub requeue_loop-Parts :
      (f : ℕ) (link : Link) (current previous : Ptr) (pre rest zs : List Ptr) (st : Moving)
      → Cursor st.locked link current previous pre rest
      → IsChain st.locked.memory st.requeue_threads st.requeue_threads_tail zs
      → Distinct zs
      → ((a : Ptr) → a ∈ zs → a ∉ (pre ++ rest))
      → ((a : Ptr) → a ∈ rest → waits st.locked.memory key_from a ≡ here a)
      → length rest < f
      → (st' : Moving) × (requeue_loop op key_from key_to f link current previous st ≡ some st')
        × Parts st st' pre rest zs
  unfolding requeue_loop
  requeue_loop-Parts zero link current previous pre rest zs st c chain d apart reads h =
      absurd (omega arith)
  requeue_loop-Parts (suc f) link current previous pre [] zs st c chain d apart reads h =
      (st, ground (arith, c.back), Moved-none st pre zs c chain)
  requeue_loop-Parts (suc f) link current previous pre (x ∷ rest) zs st c chain d apart reads h =
      elim (Bool-cases (here x)) [
        | inl e ↦ elim (Bool-cases (takes_one op)) [
          | inl t ↦ (
            final link current previous pre x rest zs st c chain d apart reads,
            rw
                (
                  nonnull link current previous pre x rest zs st c chain d apart reads,
                  here_x link current previous pre x rest zs st c chain d apart reads,
                  e,
                  t,
                  more link current previous pre x rest zs st c chain d apart reads f (omega arith),
                )
                refl,
            stopped link current previous pre x rest zs st c chain d apart reads e t,
          )
          | inr t ↦
              let (st', ran, k) =
                requeue_loop-Parts f link (next_of st.locked.memory current) previous pre rest
                  (zs
                    ++ moved_here (w link current previous pre x rest zs st c chain d apart reads)
                        x)
                  (after link current previous pre x rest zs st c chain d apart reads)
                  (cursor link current previous pre x rest zs st c chain d apart reads)
                  ((step link current previous pre x rest zs st c chain d apart reads).chain)
                  (zs-Distinct link current previous pre x rest zs st c chain d apart reads)
                  (zs_apart link current previous pre x rest zs st c chain d apart reads)
                  (reads_on link current previous pre x rest zs st c chain d apart reads)
                  (omega arith) in
              (
                st',
                rw
                    (
                      nonnull link current previous pre x rest zs st c chain d apart reads,
                      here_x link current previous pre x rest zs st c chain d apart reads,
                      e,
                      t,
                    )
                    ran,
                taken-Parts link current previous pre x rest zs st c chain d apart reads st' e t k,
              )
        ]
        | inr e ↦
            let (st', ran, k) =
              requeue_loop-Parts f (at_next current) (next_of st.locked.memory current) current
                (pre ++ x ∷ []) rest zs st (Cursor-next st.locked pre x rest c) chain d
                (λ a i. rw (append_assoc pre (x ∷ []) rest) (apart a i))
                (λ a i. reads a (ground arith)) (omega arith) in
            (
              st',
              rw
                  (
                    nonnull link current previous pre x rest zs st c chain d apart reads,
                    here_x link current previous pre x rest zs st c chain d apart reads,
                    e,
                  )
                  ran,
              rw (kept_passed op here x rest e, e)
                  (Moved-pass key_to st st' pre x rest zs _ _ _ _ k),
            )
      ]
