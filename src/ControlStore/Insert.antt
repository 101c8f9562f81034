-- ===== src/ControlStore/Insert.antt =====
-- `#insertOrder` of packages/control-store/src/control-store.ts: a binary search for the first
-- position whose candidate does not come before the new one, and the insertion there.
pub mod Search
use chronolog_db.Prelude.{
  ℕ, zero, suc, ◌+◌, ◌/◌, Bool, true, false, none, some, List, ◌∷◌, ◌++◌, ltb, length, take, drop,
  get_elem?, is_lt, insert_at, ◌==◌, ℕ_eq, if◌then◌else◌,
}
use chronolog_db.Prelude.Map
use chronolog_db.Bytes.{Bytes, bytes_equal}
use chronolog_db.Bytes.Laws.{Bytes_eq}
use chronolog_db.OrderKey.{compare_transaction_order}
use chronolog_db.ControlStore.Types.{StoredCandidate, ControlStoreDelta, order_append, order_insert}
use chronolog_db.ControlStore.Result.{
  Result, ok, err, ◌>>=◌, unknown_candidate, duplicate_order_entry, type_error,
}
use chronolog_db.ControlStore.State.{ControlStore, append_delta}

-- `#requiredCandidate`
unfoldable pub required_candidate : ControlStore → Bytes → Result StoredCandidate
required_candidate s tx_id = elim (Map.get s.candidates tx_id) [
  | none ↦ err unknown_candidate
  | some c ↦ ok c
]

abbrev pub element : List Bytes → ℕ → Result Bytes
element ids i = elim (get_elem? ids i) [ none ↦ err type_error | some id ↦ ok id ]

-- Whether the candidate at `middle` comes before the new one.
unfoldable pub probe : ControlStore → StoredCandidate → ℕ → Result Bool
unfolding required_candidate
probe s candidate middle = do
  id ← element s.ordered_tx_ids middle
  middle_candidate ← required_candidate s id
  ok (is_lt (compare_transaction_order middle_candidate.order_key candidate.order_key))

-- `while (low < high)`. Each round shrinks `high - low`, which is the fuel at the start.
unfoldable pub lower_bound : (ℕ → Result Bool) → ℕ → ℕ → ℕ → Result ℕ
lower_bound test zero low high = ok low
lower_bound test (suc fuel) low high =
    let middle = (low + high) / 2 in
    let upper = lower_bound test fuel (middle + 1) high in
    let lower = lower_bound test fuel low middle in
    if ltb low high
    then elim (test middle) [ err e ↦ err e | ok true ↦ upper | ok false ↦ lower ]
    else ok low

-- Whether the position already holds the transaction.
unfoldable pub occupied : List Bytes → ℕ → Bytes → Bool
occupied ids low tx_id = elim (get_elem? ids low) [ none ↦ false | some id ↦ bytes_equal id tx_id ]

unfoldable pub insert_order :
    StoredCandidate → ControlStore → Result ControlStoreDelta × ControlStore
unfolding probe lower_bound occupied append_delta
insert_order candidate s =
    let count = length s.ordered_tx_ids in
    elim (lower_bound (probe s candidate) count 0 count) [
      | err e ↦ (err e, s)
      | ok low ↦
          if occupied s.ordered_tx_ids low candidate.tx_id
          then (err duplicate_order_entry, s)
          else (let (delta, s') =
                append_delta
                  (if low == count
                    then order_append candidate.tx_id low count
                    else order_insert candidate.tx_id low count)
                  (record s { ordered_tx_ids = insert_at low candidate.tx_id s.ordered_tx_ids }) in
              (ok delta, s'))
    ]
