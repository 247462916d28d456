-- ===== src/Core/Lot/Requeue/Buckets.antt =====
-- The table after the threads have left `bucket_from` and have entered `bucket_to`.
use parking_lot.Prelude.{
  ℕ, ◌≡◌, ◌≢◌, ◌∙◌, ◌⊎◌, sym, refl, ap, inl, inr, Bool, true, List, [], ◌++◌, arith, ◌==◌,
  if◌then◌else◌, Bool-cases, ◌∈◌, ◌∉◌, has, update, keep, keep-append, keep_cong_mem, keep-nil,
  keep-whole, ==_refl, has-append, has-keep_by, Distinct-keep_by,
}
use mathlib.Core.List.{append-nil}
use parking_lot.Core.Queue.{Ptr, key_of, Locked}
use parking_lot.Core.Queue.Cursor.{IsQueue}
use parking_lot.Core.Queue.Frames.{waits}
use parking_lot.Core.Lot.{Lot, home, lock_bucket, unlock_bucket, RequeueOp, abort}
use parking_lot.Core.Lot.Table.{IsLot, view, unlock-IsQueue}
use parking_lot.Core.Lot.Requeue.{Moving, start_moving, append_requeued, requeued}
use parking_lot.Core.Lot.Requeue.Parts.{woken, moved, left, kept}
use parking_lot.Core.Lot.Requeue.Fates.{
  moved-mem, moved-Distinct, kept-mem, kept-apart, keep-kept, keep-kept_other,
}
use parking_lot.Core.Lot.Requeue.Rounds.{Moved}
use parking_lot.Core.Lot.Requeue.Append.{append-fields, append-fair, append-outside, append-IsQueue}

module _ (op : RequeueOp) (key_from key_to : ℕ) (s : Lot) (q : ℕ → List Ptr) (i : IsLot s q)
    (st : Moving) (more : Bool) (proceeds : op ≢ abort) where
  abbrev from : ℕ
  from = home s key_from

  abbrev to : ℕ
  to = home s key_to

  abbrev here : Ptr → Bool
  here = waits s.memory key_from

  abbrev pub ws : List Ptr
  ws = view s q key_from

  abbrev stay : List Ptr
  stay = kept op here (q from)

  abbrev mv : List Ptr
  mv = moved op ws

  abbrev pub Run : Type 0
  Run =
      Moved key_to (start_moving (lock_bucket s from)) st [] (q from) [] stay (woken op ws) mv more

  abbrev q1 : ℕ → List Ptr
  q1 = update q from stay

  abbrev pub q2 : ℕ → List Ptr
  q2 = update q1 to (q1 to ++ mv)

  abbrev s1 : Lot
  s1 = unlock_bucket s from st.locked

  abbrev pub s2 : Lot
  s2 = requeued from to st s

  abbrev entered : Locked
  entered = append_requeued st.requeue_threads st.requeue_threads_tail (lock_bucket s1 to)

  mv_from : (a : Ptr) → a ∈ mv → a ∈ q from
  mv_from a m = ground (arith, moved-mem op a ws, has-keep_by a here (q from))

  q1_from : (c : ℕ) (a : Ptr) → a ∈ q1 c → a ∈ q c
  q1_from c a m = ground (arith, kept-mem here op a (q from))

  q1_apart : (b c : ℕ) (a : Ptr) → a ∈ q1 b → a ∈ q1 c → b ≡ c
  q1_apart b c a m n = i.apart b c a (q1_from b a m) (q1_from c a n)

  mv_out : (c : ℕ) (a : Ptr) → a ∈ q1 c → a ∉ mv
  mv_out c a m = elim (Bool-cases (from == c)) [
    | inl e ↦
        let m' : a ∈ stay = rw e at m in kept-apart here op a (q from) (i.queue from).distinct m'
    | inr e ↦ ground (arith, mv_from a, i.apart from c a, q1_from c a m)
  ]

  q2_mem : (c : ℕ) (p : Ptr) → p ∈ q2 c → (p ∈ q1 c) ⊎ ((p ∈ mv) × (to ≡ c))
  q2_mem c p m = elim (Bool-cases (to == c)) [
    | inl e ↦
        let f : c ≡ to = ground arith in
        let m' : p ∈ (q1 to ++ mv) = rw e at m in
        elim (Bool-cases (has p mv)) [
          | inl g ↦ inr (g, sym f)
          | inr g ↦ inl (rw f (ground (arith, has-append p (q1 to) mv)))
        ]
    | inr e ↦ inl (rw e at m)
  ]

  q2_apart : (a b : ℕ) (p : Ptr) → p ∈ q2 a → p ∈ q2 b → a ≡ b
  q2_apart a b p m n =
      ground (arith, q2_mem a p m, q2_mem b p n, q1_apart a b p, mv_out a p, mv_out b p)

  module _ (k : Run) where
    first_queues : (c : ℕ) → IsQueue s1.memory (s1.entries c) (q1 c)
    first_queues =
        unlock-IsQueue s q from st.locked stay i.queue k.queue
          (λ c a e m. k.outside a refl (ground (arith, i.apart from c a)) refl)

    pub requeued-queues : (c : ℕ) → IsQueue s2.memory (s2.entries c) (q2 c)
    unfolding requeued
    requeued-queues =
        unlock-IsQueue s1 q1 to entered (q1 to ++ mv) first_queues
          (append-IsQueue _ _ (lock_bucket s1 to) (q1 to) mv (first_queues to) k.chain
            (moved-Distinct op ws (Distinct-keep_by here (q from) (i.queue from).distinct))
            (mv_out to))
          (λ c a e m.
            append-outside _ _ (lock_bucket s1 to) (q1 to) mv (first_queues to) k.chain a
              (ground (arith, q1_apart to c a)) (mv_out c a m))

    pub requeued-keys :
        (a : Ptr) → key_of s2.memory a ≡ (if has a mv then key_to else key_of s.memory a)
    unfolding requeued
    requeued-keys a = ap (λ d. d.key) (append-fields _ _ (lock_bucket s1 to) a) ∙ k.keys a

    key_stays : (c : ℕ) (a : Ptr) → a ∈ q1 c → key_of s2.memory a ≡ key_of s.memory a
    key_stays c a m = requeued-keys a ∙ rw (mv_out c a m) refl

    placed_of : (c : ℕ) (p : Ptr) → p ∈ q2 c → home s (key_of s2.memory p) ≡ c
    placed_of c p m = elim (Bool-cases (has p mv)) [
      | inl e ↦ rw (requeued-keys p, e) (ground (arith, q2_mem c p m, mv_out c p))
      | inr e ↦ rw (requeued-keys p, e) (ground (arith, i.placed c p, q1_from c p, q2_mem c p m))
    ]

    pub requeued-IsLot : IsLot s2 q2
    unfolding requeued
    requeued-IsLot = record { queue = requeued-queues; apart = q2_apart; placed = placed_of }

    stay_view :
        (key : ℕ)
        → keep (waits s.memory key) (q1 (home s key))
          ≡ (if key_from == key then left op ws else view s q key)
    stay_view key = elim (Bool-cases (key_from == key)) [
      | inl g ↦
          let h : key ≡ key_from = ground arith in
          rw (g, h, ==_refl from) (keep-kept here op (q from) proceeds)
      | inr g ↦ rw g (elim (Bool-cases (from == home s key)) [
        | inl e ↦
            let f : home s key ≡ from = ground arith in
            rw (e, f) (keep-kept_other here op (waits s.memory key) (q from) (λ a w. ground arith))
        | inr e ↦ rw e refl
      ])
    ]

    moved_view :
        (key : ℕ)
        → keep (waits s2.memory key) (if to == home s key then mv else [])
          ≡ (if key_to == key then mv else [])
    moved_view key = elim (Bool-cases (key_to == key)) [
      | inl g ↦
          let h : key ≡ key_to = ground arith in
          rw (g, h, ==_refl to)
            (keep-whole (waits s2.memory key_to) mv
              (λ a m. rw (requeued-keys a, m) (==_refl key_to)))
      | inr g ↦ rw g (elim (Bool-cases (to == home s key)) [
        | inl e ↦ rw e (keep-nil (waits s2.memory key) mv (λ a m. rw (requeued-keys a, m) g))
        | inr e ↦ rw e refl
      ])
    ]

    q2_split : (c : ℕ) → q2 c ≡ q1 c ++ (if to == c then mv else [])
    q2_split c = elim (Bool-cases (to == c)) [
      | inl e ↦ let f : c ≡ to = ground arith in rw (f, ==_refl to) refl
      | inr e ↦ rw e (sym (append-nil _))
    ]

    pub requeued-view :
        (key : ℕ)
        → view s2 q2 key
          ≡ (if key_from == key then left op ws else view s q key)
            ++ (if key_to == key then mv else [])
    unfolding requeued
    requeued-view key =
        ap (keep (waits s2.memory key)) (q2_split (home s key))
        ∙ keep-append (waits s2.memory key) (q1 (home s key)) _
        ∙ rw
            (
              keep_cong_mem (waits s.memory key) (waits s2.memory key) (q1 (home s key))
                  (λ a m. rw (key_stays (home s key) a m) refl),
              stay_view key,
              moved_view key,
            )
            refl

    pub requeued-data :
        (a : Ptr)
        → ((s2.memory a).unpark_token ≡ (s.memory a).unpark_token)
          × ((s2.memory a).parker ≡ (s.memory a).parker)
    unfolding requeued
    requeued-data a = (
      ap (λ d. d.unpark_token) (append-fields _ _ (lock_bucket s1 to) a)
          ∙ ap (λ d. d.unpark_token) (k.fields a),
      ap (λ d. d.parker) (append-fields _ _ (lock_bucket s1 to) a)
          ∙ ap (λ d. d.parker) (k.fields a),
    )

    pub requeued-fair : (s2.entries from).fair_timeout ≡ (s.entries from).fair_timeout
    unfolding requeued
    requeued-fair = elim (Bool-cases (to == from)) [
      | inl e ↦
          let g : (from == to) ≡ true = ground arith in
          rw e (append-fair _ _ (lock_bucket s1 to) ∙ (rw g k.fair))
      | inr e ↦ rw (e, ==_refl from) (k.fair)
    ]
