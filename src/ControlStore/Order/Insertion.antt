-- ===== src/ControlStore/Order/Insertion.antt =====
-- `#insertOrder` on a valid order: it does not throw, and the order is valid again.
use chronolog_db.Prelude.{
  ℕ, ◌≡◌, ◌≢◌, sym, ◌∙◌, inl, inr, ap, Bool, true, false, ◌||◌, some, List, arith, Sorted,
  insert_at, Option-cases,
}
use chronolog_db.Prelude.Map
use chronolog_db.Bytes.{Bytes, bytes_equal}
use chronolog_db.Bytes.Laws.{Bytes_eq, bytes_equal_iff}
use chronolog_db.OrderKey.{TransactionOrderKey}
use chronolog_db.ControlStore.Types.{StoredCandidate}
use chronolog_db.ControlStore.Result.{Result, ok, err}
use chronolog_db.ControlStore.State.{ControlStore, append_delta}
use chronolog_db.ControlStore.Insert.{occupied, insert_order}
use chronolog_db.ControlStore.Candidates.{has_ref}
use chronolog_db.ControlStore.Order.{
  Candidates, Before, admitted, OrderIsValid, has_ref-get_elem?, has_ref-insert_at,
  lower_bound-Sorted,
}

-- The candidates and the order of a store.
abbrev pub IsOrdered : ControlStore → Type 0
IsOrdered s = OrderIsValid s.candidates s.ordered_tx_ids

abbrev pub is_ok {ℓ} : {A : Type ℓ} → Result A → Bool
is_ok (ok a) = true
is_ok (err e) = false

pub candidates-insert_order :
    (candidate : StoredCandidate) (s : ControlStore)
    → (insert_order candidate s).1.candidates ≡ s.candidates
unfolding insert_order append_delta
candidates-insert_order candidate s = ground arith

occupied_fresh :
    (ids : List Bytes) (k : ℕ) (id : Bytes) → has_ref ids id ≡ false → occupied ids k id ≡ false
unfolding occupied
occupied_fresh ids k id h = grind (arith, has_ref-get_elem?, bytes_equal_iff)

-- Every admissible candidate but a new one is in the order.
pub record IsMissing (candidate : StoredCandidate) (m : Candidates) (ids : List Bytes)
    : Type 0 where
  pub keyed :
      (id : Bytes) (c : StoredCandidate)
      → Map.get m id ≡ some c
      → (c.tx_id ≡ id) × (c.order_key.tx_id ≡ id)
  pub sorted : Sorted (Before m) ids
  pub stored : Map.get m candidate.tx_id ≡ some candidate
  pub absent : has_ref ids candidate.tx_id ≡ false
  pub complete : (id : Bytes) → (bytes_equal candidate.tx_id id || has_ref ids id) ≡ admitted m id

module _ (candidate : StoredCandidate) (s : ControlStore)
    (h : IsMissing candidate s.candidates s.ordered_tx_ids) where
  known :
      (id : Bytes)
      → has_ref s.ordered_tx_ids id ≡ true
      → (c : StoredCandidate) × (Map.get s.candidates id ≡ some c)
        × (c.order_key ≢ candidate.order_key)
  known id listed = elim (Option-cases (Map.get s.candidates id)) [
    | inl missing ↦ absurd (ground (arith, h.complete id))
    | inr (c, found) ↦ (
      c,
      found,
      λ same.
          let of_key = ap (λ (k : TransactionOrderKey). k.tx_id) same in
          let here : id ≡ candidate.tx_id =
            sym (h.keyed id c found).1 ∙ of_key ∙ (h.keyed candidate.tx_id candidate h.stored).1 in
          cc (h.absent, listed, ap (has_ref s.ordered_tx_ids) here),
    )
  ]

  insert_order_run :
      (k : ℕ) × ((insert_order candidate s).1.ordered_tx_ids
        ≡ insert_at k candidate.tx_id s.ordered_tx_ids)
      × Sorted (Before s.candidates) (insert_at k candidate.tx_id s.ordered_tx_ids)
      × (is_ok (insert_order candidate s).0 ≡ true)
  unfolding insert_order append_delta
  insert_order_run =
      let (k, e, sorted) = lower_bound-Sorted s candidate h.stored h.sorted known in
      let free = occupied_fresh s.ordered_tx_ids k candidate.tx_id h.absent in
      (k, ground arith, sorted, ground arith)

  -- The insertion succeeds and makes the order valid.
  pub insert_order-IsOrdered :
      IsOrdered (insert_order candidate s).1 × (is_ok (insert_order candidate s).0 ≡ true)
  insert_order-IsOrdered =
      let (k, ids, sorted, done) = insert_order_run in
      (
        rw (candidates-insert_order candidate s, ids)
            (record {
              keyed = h.keyed;
              sorted = sorted;
              complete =
                  λ id. has_ref-insert_at k candidate.tx_id s.ordered_tx_ids id ∙ h.complete id;
            }),
        done,
      )
