-- ===== src/Core/Lot/Requeue/Chain.antt =====
-- The chain of the requeued threads, from `requeue_threads` to `requeue_threads_tail`.
use parking_lot.Prelude.{
  ◌≡◌, ◌≢◌, ◌∙◌, sym, refl, subst, false, not, ◌&&◌, List, [], ◌∷◌, ◌++◌, arith, ◌==◌,
  if◌then◌else◌, ◌∈◌, ◌∉◌, last_or, last_or-append, last_or-mem, Distinct,
}
use parking_lot.Core.Queue.{Ptr, null, Memory, next_of, set_next}
use parking_lot.Core.Queue.Cursor.{Seg, Seg-append, Seg-frame, Seg-relink}

-- The requeued threads `zs`, linked from `h` to `t`; where the last one leads is open.
abbrev pub IsChain : Memory → (h t : Ptr) → List Ptr → Type 0
IsChain m h t [] = h ≡ null
IsChain m h t (z ∷ zs) = (q : Ptr) × Seg m h (z ∷ zs) q × (t ≡ last_or z zs)

pub IsChain-frame :
    (m n : Memory) (h t : Ptr) (zs : List Ptr)
    → IsChain m h t zs
    → ((a : Ptr) → a ∈ zs → next_of n a ≡ next_of m a)
    → IsChain n h t zs
IsChain-frame m n h t [] c same = c
IsChain-frame m n h t (z ∷ zs) (q, s, e) same = (q, Seg-frame m n h (z ∷ zs) q s same, e)

-- The chain grows by `x`.
pub IsChain-snoc :
    (m n : Memory) (h t : Ptr) (zs : List Ptr) (x : Ptr)
    → IsChain m h t zs
    → Distinct zs
    → x ∉ zs
    → x ≢ null
    → ((a : Ptr) → next_of n a ≡ (if not (h == null) && (t == a) then x else next_of m a))
    → IsChain n (if h == null then x else h) x (zs ++ x ∷ [])
IsChain-snoc m n h t [] x c d out nonnull next = rw c (next_of n x, (refl, nonnull, refl), refl)
IsChain-snoc m n h t (z ∷ zs) x (q, s, e) d out nonnull next =
    let some_head : (h == null) ≡ false = ground (arith, s.0, s.1) in
    rw some_head (
      next_of n x,
      Seg-append n h (z ∷ zs) x (x ∷ []) _
          (Seg-frame (set_next (last_or null (z ∷ zs)) x m) n h (z ∷ zs) x
            (Seg-relink m h z zs q x s d) (λ a i. next a ∙ ground (arith, e, some_head)))
          (refl, nonnull, refl),
      sym (last_or-append z zs (x ∷ [])),
    )

pub chain_tail :
    (m : Memory) (h t : Ptr) (zs : List Ptr) → IsChain m h t zs → (h == null) ≡ false → t ∈ zs
chain_tail m h t [] c n = absurd (ground arith)
chain_tail m h t (z ∷ zs) (q, s, e) n = subst (λ a. a ∈ (z ∷ zs)) (sym e) (last_or-mem null z zs)
