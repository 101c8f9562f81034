-- ===== src/ControlStore/Queries.antt =====
-- What earliestOrderDifference and nearestCheckpointBefore of
-- packages/control-store/src/control-store.ts find: from where a materialized prefix must be replayed.
use chronolog_db.Prelude.{
  ℕ, zero, suc, ◌≤◌, ◌≡◌, ◌≢◌, ◌⊎◌, refl, ap₂, subst, Option, none, some, List, [], ◌∷◌, arith,
  take, get_elem?, leb, Bool-cases, Option-cases, inl, inr, ◌&&◌,
}
use chronolog_db.Prelude.Map
use chronolog_db.Bytes.{Bytes, bytes_equal}
use chronolog_db.Bytes.Laws.{bytes_equal_iff}
use chronolog_db.ControlStore.Types.{StoredCheckpoint}
use chronolog_db.ControlStore.State.{ControlStore}
use chronolog_db.ControlStore.Candidates.{earliest_order_difference}
use chronolog_db.ControlStore.Heads.{is_further, nearest_from, nearest_checkpoint_before}

-- Two orders are equal and no difference is reported, or the reported index is the first at which
-- they differ: the orders agree before it, and at it they have different entries or only one of them
-- has an entry.
pub earliest_order_difference-IsFirst :
    (xs ys : List Bytes)
    → ((earliest_order_difference xs ys ≡ none) × (xs ≡ ys))
      ⊎ ((i : ℕ) × (earliest_order_difference xs ys ≡ some i)
          × (take i xs ≡ take i ys)
          × (get_elem? xs i ≢ get_elem? ys i))
unfolding earliest_order_difference
earliest_order_difference-IsFirst [] [] = inl (refl, refl)
earliest_order_difference-IsFirst [] (y ∷ ys) = inr (0, refl, refl, λ e. ground (arith, e))
earliest_order_difference-IsFirst (x ∷ xs) [] = inr (0, refl, refl, λ e. ground (arith, e))
earliest_order_difference-IsFirst (x ∷ xs) (y ∷ ys) = elim (Bool-cases (bytes_equal x y)) [
  | inr differ ↦ inr (0, ground arith, refl, λ e. ground (arith, e, bytes_equal_iff x y))
  | inl same ↦
      let eq = (bytes_equal_iff x y).0 same in
      elim (earliest_order_difference-IsFirst xs ys) [
        | inl (nothing, equal) ↦ inl (ground (arith, nothing), ap₂ (λ a as'. a ∷ as') eq equal)
        | inr (i, there, agree, differ) ↦
            inr (suc i, ground (arith, there), ap₂ (λ a as'. a ∷ as') eq agree, differ)
      ]
]

-- What a search that starts at `from` finds is `from` or a checkpoint at or before the index, and
-- is not before `from`.
nearest_from-keeps :
    (index : ℕ) (from : StoredCheckpoint) (cs : List StoredCheckpoint)
    → (n : StoredCheckpoint) × (nearest_from index (some from) cs ≡ some n)
      × (from.prefix_length ≤ n.prefix_length)
      × ((from.prefix_length ≤ index) → (n.prefix_length ≤ index))
unfolding nearest_from
nearest_from-keeps index from [] = (from, refl, omega arith, λ h. h)
nearest_from-keeps index from (c ∷ cs) =
    elim (Bool-cases (leb c.prefix_length index && is_further (some from) c)) [
      | inl takes ↦
          let (n, found, far, low) = nearest_from-keeps index c cs in
          (n, rw takes found, ground (arith, takes, far), λ h. low (ground (arith, takes)))
      | inr passes ↦
          let (n, found, far, low) = nearest_from-keeps index from cs in
          (n, rw passes found, far, low)
    ]

abbrev IsStarted : ℕ → Option StoredCheckpoint → Type 0
IsStarted index none = Unit
IsStarted index (some c) = c.prefix_length ≤ index

nearest_from-reaches :
    (index : ℕ) (from : Option StoredCheckpoint) (cs : List StoredCheckpoint) (j : ℕ)
    (k : StoredCheckpoint)
    → IsStarted index from
    → get_elem? cs j ≡ some k
    → k.prefix_length ≤ index
    → (n : StoredCheckpoint) × (nearest_from index from cs ≡ some n)
      × (n.prefix_length ≤ index)
      × (k.prefix_length ≤ n.prefix_length)
unfolding nearest_from
nearest_from-reaches index from [] j k ok at le = cc
nearest_from-reaches index from (c ∷ cs) zero k ok at le =
    let same : c ≡ k = ground arith in
    elim (Bool-cases (leb c.prefix_length index && is_further from c)) [
      | inl takes ↦
          let (n, found, far, low) = nearest_from-keeps index c cs in
          let small : c.prefix_length ≤ index = ground (arith, takes) in
          (n, rw takes found, low small, subst (λ z. z.prefix_length ≤ n.prefix_length) same far)
      | inr passes ↦ elim (Option-cases from) [
        | inl nothing ↦ ground arith
        | inr (f, started) ↦
            let (n, found, far, low) = nearest_from-keeps index f cs in
            let small : f.prefix_length ≤ index = subst (IsStarted index) started ok in
            let short : k.prefix_length ≤ f.prefix_length =
              subst (λ z. z.prefix_length ≤ f.prefix_length) same
                (ground (arith, passes, started, same, le)) in
            (n, rw (passes, started) found, low small, omega (arith, far, short))
      ]
    ]
nearest_from-reaches index from (c ∷ cs) (suc j) k ok at le =
    elim (Bool-cases (leb c.prefix_length index && is_further from c)) [
      | inl takes ↦
          rw takes (nearest_from-reaches index (some c) cs j k (ground (arith, takes)) at le)
      | inr passes ↦ rw passes (nearest_from-reaches index from cs j k ok at le)
    ]

-- If a stored checkpoint is at or before an index, the nearest checkpoint before the index is found,
-- it is at or before the index, and no stored checkpoint at or before the index is further.
pub nearest_checkpoint_before-IsNearest :
    (s : ControlStore) (index j : ℕ) (k : StoredCheckpoint)
    → get_elem? (Map.values s.checkpoints) j ≡ some k
    → k.prefix_length ≤ index
    → (n : StoredCheckpoint) × (nearest_checkpoint_before s index ≡ some n)
      × (n.prefix_length ≤ index)
      × (k.prefix_length ≤ n.prefix_length)
unfolding nearest_checkpoint_before
nearest_checkpoint_before-IsNearest s index j k at le =
    nearest_from-reaches index none (Map.values s.checkpoints) j k tt at le
