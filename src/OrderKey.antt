-- ===== src/OrderKey.antt =====
-- The order of transactions: packages/protocol/src/messages.ts (TransactionOrderKey,
-- compareTransactionOrder). Timestamps and feed sequences are unsigned there, so they are ℕ here.
use chronolog_db.Prelude.{
  ℕ, Ordering, ◌≡◌, ◌↔◌, ◌==◌, ◌&&◌, Bool, arith, compare, or_else, HasEquality, ℕ_eq, IsLinear,
  compare-IsLinear, lex, lex-IsLinear,
}
use chronolog_db.Bytes.{Bytes, compare_bytes}
use chronolog_db.Bytes.Laws.{Bytes_eq, compare_bytes-IsLinear, bytes_equal_iff}

pub record TransactionOrderKey : Type 0 where
  pub author_timestamp_ms : ℕ
  pub author_id : Bytes
  pub author_feed_sequence : ℕ
  pub tx_id : Bytes

unfoldable pub compare_transaction_order : TransactionOrderKey → TransactionOrderKey → Ordering
compare_transaction_order left right =
    or_else (compare left.author_timestamp_ms right.author_timestamp_ms) (
      or_else (compare_bytes left.author_id right.author_id) (
        or_else (compare left.author_feed_sequence right.author_feed_sequence)
          (compare_bytes left.tx_id right.tx_id)))

-- `sameValue` of the control store at two order keys.
unfoldable pub same_order_key : TransactionOrderKey → TransactionOrderKey → Bool
same_order_key left right =
    left.author_timestamp_ms == right.author_timestamp_ms
    && left.author_id == right.author_id
    && left.author_feed_sequence == right.author_feed_sequence
    && left.tx_id == right.tx_id

pub same_order_key_iff : (a b : TransactionOrderKey) → (same_order_key a b ≡ Bool.true) ↔ (a ≡ b)
unfolding same_order_key
same_order_key_iff a b =
    ground (arith, bytes_equal_iff a.author_id b.author_id, bytes_equal_iff a.tx_id b.tx_id)

instance abbrev pub TransactionOrderKey_eq : HasEquality TransactionOrderKey
TransactionOrderKey_eq = record { agrees = same_order_key; agrees_iff = same_order_key_iff }

-- The key as nested pairs, in the order in which the code compares.
abbrev parts : TransactionOrderKey → ℕ × (Bytes × (ℕ × Bytes))
parts k = (k.author_timestamp_ms, (k.author_id, (k.author_feed_sequence, k.tx_id)))

parts_IsLinear : IsLinear (
    lex compare-IsLinear
      (lex-IsLinear compare_bytes-IsLinear (lex-IsLinear compare-IsLinear compare_bytes-IsLinear)))
parts_IsLinear =
    lex-IsLinear compare-IsLinear
      (lex-IsLinear compare_bytes-IsLinear (lex-IsLinear compare-IsLinear compare_bytes-IsLinear))

-- The transaction order is a strict linear order on order keys: two keys compare as equal exactly
-- when all four components agree, the sign changes with the order of the arguments, and the order
-- is transitive.
pub compare_transaction_order-IsLinear : IsLinear compare_transaction_order
unfolding compare_transaction_order
compare_transaction_order-IsLinear = record {
  eq_iff = λ a b. ground (arith, parts_IsLinear.eq_iff (parts a) (parts b));
  flipped = λ a b. parts_IsLinear.flipped (parts a) (parts b);
  trans = λ a b c. parts_IsLinear.trans (parts a) (parts b) (parts c);
}
