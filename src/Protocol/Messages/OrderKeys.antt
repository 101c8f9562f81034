-- ===== src/Protocol/Messages/OrderKeys.antt =====
-- For assertUniqueOrderKeys of packages/protocol/src/messages.ts: what it accepts.
use chronolog_db.Prelude.{
  ◌≡◌, ◌≢◌, ◌↔◌, refl, sym, false, not, List, [], ◌∷◌, arith, All, Sorted, sort, is_gt,
  IsLinear-IsPreorder, sort-Sorted, sort-Sorted_iff, subst,
}
use chronolog_db.OrderKey.{
  TransactionOrderKey, compare_transaction_order, compare_transaction_order-IsLinear,
}
use chronolog_db.Protocol.{returned, duplicate_transaction, invariant-returned}
use chronolog_db.Protocol.Messages.{compare_equal, check_neighbors, assert_unique_order_keys}

abbrev pub Differ : TransactionOrderKey → TransactionOrderKey → Type 0
Differ a b = a ≢ b

abbrev Ascends : TransactionOrderKey → TransactionOrderKey → Type 0
Ascends a b = is_gt (compare_transaction_order a b) ≡ false

Differ-compare_equal : (a b : TransactionOrderKey) → Differ a b → compare_equal a b ≡ false
Differ-compare_equal a b h = ground (arith, h, compare_transaction_order-IsLinear.eq_iff a b)

-- A key between neighbors that differ is not that of a later element.
Differ-later :
    (j k z : TransactionOrderKey)
    → compare_equal j k ≡ false
    → Ascends j k
    → Ascends k z
    → Differ j z
Differ-later j k z differ up more same =
    let back : is_gt (compare_transaction_order k j) ≡ false =
      subst (λ w. is_gt (compare_transaction_order k w) ≡ false) (sym same) more in
    ground (arith, differ, up, back, compare_transaction_order-IsLinear.flipped j k)

All-Differ :
    (j k : TransactionOrderKey) (keys : List TransactionOrderKey)
    → compare_equal j k ≡ false
    → Ascends j k
    → All (Ascends k) keys
    → All (Differ j) keys
All-Differ j k [] differ up all = tt
All-Differ j k (z ∷ keys) differ up all =
    (Differ-later j k z differ up all.0, All-Differ j k keys differ up all.1)

Differ-neighbor : (j k : TransactionOrderKey) → compare_equal j k ≡ false → Differ j k
Differ-neighbor j k h same =
    ground (arith, h, (compare_transaction_order-IsLinear.eq_iff j k).1 same)

check_neighbors-Sorted :
    (keys : List TransactionOrderKey)
    → Sorted Ascends keys
    → check_neighbors keys ≡ returned tt
    → Sorted Differ keys
unfolding check_neighbors
check_neighbors-Sorted [] s h = tt
check_neighbors-Sorted (k ∷ []) s h = (tt, tt)
check_neighbors-Sorted (j ∷ k ∷ keys) s h =
    let (differ, rest) =
      invariant-returned (not (compare_equal j k)) duplicate_transaction
        (check_neighbors (k ∷ keys)) h in
    let unequal : compare_equal j k ≡ false = ground (arith, differ) in
    (
      (Differ-neighbor j k unequal, All-Differ j k keys unequal s.0.0 s.1.0),
      check_neighbors-Sorted (k ∷ keys) s.1 rest,
    )

Sorted-check_neighbors :
    (keys : List TransactionOrderKey) → Sorted Differ keys → check_neighbors keys ≡ returned tt
unfolding check_neighbors
Sorted-check_neighbors [] d = refl
Sorted-check_neighbors (k ∷ []) d = refl
Sorted-check_neighbors (j ∷ k ∷ keys) d =
    rw (Differ-compare_equal j k d.0.0, Sorted-check_neighbors (k ∷ keys) d.1) refl

-- The order keys of a list are accepted as unique exactly if they differ from each other.
pub assert_unique_order_keys_iff :
    (keys : List TransactionOrderKey)
    → (assert_unique_order_keys keys ≡ returned tt) ↔ Sorted Differ keys
unfolding assert_unique_order_keys
assert_unique_order_keys_iff keys =
    let cmp = compare_transaction_order in
    let order = sort-Sorted (IsLinear-IsPreorder compare_transaction_order-IsLinear) keys in
    let same = sort-Sorted_iff Differ (λ a b h e. h (sym e)) cmp keys in
    (
      (λ h. same.0 (check_neighbors-Sorted (sort cmp keys) order h)),
      (λ d. Sorted-check_neighbors (sort cmp keys) (same.1 d)),
    )
