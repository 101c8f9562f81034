-- ===== src/ControlStore/Order/Update.antt =====
-- What a write to the candidates does to the invariant of the order.
use chronolog_db.Prelude.{◌≡◌, true, false, ◌⊎◌, none, some, List, arith, Sorted-map}
use chronolog_db.Prelude.Map
use chronolog_db.Prelude.Map.{get-set}
use chronolog_db.Bytes.{Bytes, bytes_equal}
use chronolog_db.Bytes.Laws.{Bytes_eq, bytes_equal_iff}
use chronolog_db.ControlStore.Types.{StoredCandidate}
use chronolog_db.ControlStore.Candidates.{is_admissible}
use chronolog_db.ControlStore.Order.{Candidates, Before, key_of, admitted, OrderIsValid}
use chronolog_db.ControlStore.Order.Insertion.{IsMissing}

module _ (m : Candidates) (ids : List Bytes) (id : Bytes) (next : StoredCandidate)
    (valid : OrderIsValid m ids) (own_id : next.tx_id ≡ id) (own_key : next.order_key.tx_id ≡ id)
    (same_key : (key_of m id ≡ none) ⊎ (key_of m id ≡ some next.order_key)) where
  keyed-set :
      (j : Bytes) (c : StoredCandidate)
      → Map.get (Map.set m id next) j ≡ some c
      → (c.tx_id ≡ j) × (c.order_key.tx_id ≡ j)
  keyed-set j c h = ground (arith, get-set m id j next, bytes_equal_iff id j, valid.keyed j c)

  Before-set : (x y : Bytes) → Before m x y → Before (Map.set m id next) x y
  Before-set x y h =
      ground (
        arith,
        get-set m id x next,
        get-set m id y next,
        bytes_equal_iff id x,
        bytes_equal_iff id y,
      )

  admitted-set :
      (j : Bytes)
      → admitted (Map.set m id next) j
        ≡ elim (bytes_equal id j) [ true ↦ is_admissible next.state | false ↦ admitted m j ]
  admitted-set j = ground (arith, get-set m id j next)

  -- The candidate is in the order exactly if it is admissible.
  pub OrderIsValid-set :
      admitted m id ≡ is_admissible next.state → OrderIsValid (Map.set m id next) ids
  OrderIsValid-set same = record {
    keyed = keyed-set;
    sorted = Sorted-map ids valid.sorted Before-set;
    complete = λ j. ground (arith, admitted-set j, valid.complete j, bytes_equal_iff id j);
  }

  -- The candidate has become admissible and is not in the order yet.
  pub IsMissing-set :
      admitted m id ≡ false
      → is_admissible next.state ≡ true
      → IsMissing next (Map.set m id next) ids
  IsMissing-set before now = record {
    keyed = keyed-set;
    sorted = Sorted-map ids valid.sorted Before-set;
    stored = ground (arith, get-set m id next.tx_id next, bytes_equal_iff id next.tx_id);
    absent = ground (arith, valid.complete id);
    complete = λ j. ground (arith, admitted-set j, valid.complete j, bytes_equal_iff id j);
  }
