-- ===== src/ControlStore/Order.antt =====
-- The invariant of the replay order (`#orderedTxIds` and `#candidates` of
-- packages/control-store/src/control-store.ts), and the insertion that keeps it.
pub mod Insertion
pub mod Update
pub mod Methods
pub mod Convergence
use chronolog_db.Prelude.{
  ℕ, zero, suc, ◌<◌, ◌≡◌, refl, ◌≢◌, Bool, true, false, ◌||◌, Option, none, some, List, [], ◌∷◌,
  arith, is_lt, length, get_elem?, get_elem?_of_lt, get_elem?_lt, Sorted, insert_at,
  Sorted-insert_at, Sorted-get_elem?, All-take, All-drop,
}
use chronolog_db.Prelude.Map
use chronolog_db.Prelude.Map.{Map}
use chronolog_db.Bytes.{Bytes, bytes_equal}
use chronolog_db.Bytes.Laws.{Bytes_eq, bytes_equal_iff}
use chronolog_db.OrderKey.{
  TransactionOrderKey, compare_transaction_order, compare_transaction_order-IsLinear,
}
use chronolog_db.ControlStore.Types.{StoredCandidate}
use chronolog_db.ControlStore.Result.{ok}
use chronolog_db.ControlStore.State.{ControlStore}
use chronolog_db.ControlStore.Insert.{probe, lower_bound}
use chronolog_db.ControlStore.Insert.Search.{lower_bound-IsBoundary}
use chronolog_db.ControlStore.Candidates.{is_admissible, has_ref}

abbrev pub Candidates : Type 0
Candidates = Map Bytes StoredCandidate

-- The order key of a stored transaction.
abbrev pub key_of : Candidates → Bytes → Option TransactionOrderKey
key_of m id = elim (Map.get m id) [ none ↦ none | some c ↦ some c.order_key ]

abbrev pub key_before : Option TransactionOrderKey → Option TransactionOrderKey → Bool
key_before none b = false
key_before (some a) none = false
key_before (some a) (some b) = is_lt (compare_transaction_order a b)

-- Both transactions are stored, and the first comes strictly before the second.
abbrev pub Before : Candidates → Bytes → Bytes → Type 0
Before m x y = key_before (key_of m x) (key_of m y) ≡ true

-- Whether a transaction is stored as admissible.
abbrev pub admitted : Candidates → Bytes → Bool
admitted m id = elim (Map.get m id) [ none ↦ false | some c ↦ is_admissible c.state ]

-- The order holds exactly the admissible candidates, strictly in the transaction order, and every
-- candidate is stored under its own id, which is the one in its order key.
pub record OrderIsValid (m : Candidates) (ids : List Bytes) : Type 0 where
  pub keyed :
      (id : Bytes) (c : StoredCandidate)
      → Map.get m id ≡ some c
      → (c.tx_id ≡ id) × (c.order_key.tx_id ≡ id)
  pub sorted : Sorted (Before m) ids
  pub complete : (id : Bytes) → has_ref ids id ≡ admitted m id

pub has_ref-get_elem? :
    (ids : List Bytes) (i : ℕ) {id : Bytes} → get_elem? ids i ≡ some id → has_ref ids id ≡ true
unfolding has_ref
has_ref-get_elem? [] i e = cc
has_ref-get_elem? (x ∷ ids) zero {id} e = ground (arith, bytes_equal_iff x id)
has_ref-get_elem? (x ∷ ids) (suc i) e = ground (arith, has_ref-get_elem? ids i e)

pub has_ref-insert_at :
    (k : ℕ) (x : Bytes) (ids : List Bytes) (id : Bytes)
    → has_ref (insert_at k x ids) id ≡ (bytes_equal x id || has_ref ids id)
unfolding has_ref
has_ref-insert_at zero x ids id = refl
has_ref-insert_at (suc k) x [] id = refl
has_ref-insert_at (suc k) x (y ∷ ids) id = ground (arith, has_ref-insert_at k x ids id)

key_before_trans :
    (a b c : Option TransactionOrderKey)
    → key_before a b ≡ true
    → key_before b c ≡ true
    → key_before a c ≡ true
key_before_trans (some a) (some b) (some c) h k =
    ground (arith, compare_transaction_order-IsLinear.trans a b c)
key_before_trans none b c h k = cc
key_before_trans (some a) none c h k = cc
key_before_trans (some a) (some b) none h k = cc

-- Of two different keys one comes before the other.
key_before_other :
    (a b : TransactionOrderKey)
    → a ≢ b
    → key_before (some a) (some b) ≡ false
    → key_before (some b) (some a) ≡ true
key_before_other a b ne h = ground (
  arith,
  compare_transaction_order-IsLinear.eq_iff a b,
  compare_transaction_order-IsLinear.flipped a b,
)

-- The insertion of a stored candidate whose key differs from those in the order.
module _ (s : ControlStore) (candidate : StoredCandidate)
    (stored : Map.get s.candidates candidate.tx_id ≡ some candidate)
    (sorted : Sorted (Before s.candidates) s.ordered_tx_ids)
    (known : (id : Bytes)
      → has_ref s.ordered_tx_ids id ≡ true
      → (c : StoredCandidate) × (Map.get s.candidates id ≡ some c)
        × (c.order_key ≢ candidate.order_key)) where
  before_new : ℕ → Bool
  before_new i = elim (get_elem? s.ordered_tx_ids i) [
    | none ↦ false
    | some id ↦ key_before (key_of s.candidates id) (some candidate.order_key)
  ]

  probe-before_new : (i : ℕ) → i < length s.ordered_tx_ids → probe s candidate i ≡ ok (before_new i)
  unfolding probe before_new
  probe-before_new i h =
      let (id, e) = get_elem?_of_lt s.ordered_tx_ids i h in
      let (c, f, _) = known id (has_ref-get_elem? s.ordered_tx_ids i e) in ground arith

  before_new_prefix :
      (i j : ℕ) → i < j → j < length s.ordered_tx_ids → before_new j ≡ true → before_new i ≡ true
  unfolding before_new
  before_new_prefix i j lt hj t =
      let (x, e) = get_elem?_of_lt s.ordered_tx_ids i (omega arith) in
      let (y, f) = get_elem?_of_lt s.ordered_tx_ids j hj in
      ground (
        arith,
        key_before_trans (key_of s.candidates x) (key_of s.candidates y) (some candidate.order_key),
        Sorted-get_elem? (Before s.candidates) s.ordered_tx_ids i j sorted lt e f,
      )

  -- Where the search ends, and that the insertion there keeps the order strict.
  pub lower_bound-Sorted :
      let count = length s.ordered_tx_ids in
      (k : ℕ) × (lower_bound (probe s candidate) count 0 count ≡ ok k)
      × Sorted (Before s.candidates) (insert_at k candidate.tx_id s.ordered_tx_ids)
  unfolding before_new
  lower_bound-Sorted =
      let count = length s.ordered_tx_ids in
      let (k, e, b) =
        lower_bound-IsBoundary (probe s candidate) before_new count probe-before_new
          before_new_prefix count 0 count (omega arith) (omega arith) (omega arith)
          (λ i h. absurd (omega arith)) (λ i h h'. absurd (omega arith)) in
      (
        k,
        e,
        Sorted-insert_at (Before s.candidates) k candidate.tx_id s.ordered_tx_ids sorted
            (All-take (λ y. Before s.candidates y candidate.tx_id) k s.ordered_tx_ids
              (λ i y h f. ground (arith, b.before i h)))
            (All-drop (Before s.candidates candidate.tx_id) k s.ordered_tx_ids (λ i y h f.
              let (c, g, ne) = known y (has_ref-get_elem? s.ordered_tx_ids i f) in
              ground (
                arith,
                key_before_other c.order_key candidate.order_key ne,
                b.behind i h (get_elem?_lt s.ordered_tx_ids i f),
              ))),
      )
