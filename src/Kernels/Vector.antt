-- ===== src/Kernels/Vector.antt =====
-- packages/kernels/src/vector.ts. Bytes are numbers below 256 and signed bytes are integers. The mask of
-- the unused bits of a last byte is a remainder, and `POPCOUNT` counts the ones of a byte.
pub mod Nearest
use chronolog_db.Prelude.{
  ℕ, zero, suc, ◌+◌, ◌-◌, ◌*◌, ◌/◌, ◌%◌, ◌^◌, Ordering, Bool, true, false, ◌&&◌, List, [], ◌∷◌, map,
  Option, none, some, ltb, leb, nat_eq, length, get_last?, take, sort, or_else, if◌then◌else◌,
}
use chronolog_db.Prelude.Int.{ℤ, pos, ◌+ℤ◌, ◌-ℤ◌, ◌*ℤ◌, magnitude}
use chronolog_db.Bytes.{Bytes, compare_bytes}
use chronolog_db.Kernels.{
  Computed, gives, fails, ◌>>◌, kernel_assert, vector_value_invalid, vector_dimension_mismatch,
  invalid_argument_encoding,
}
use chronolog_db.Kernels.Int64.{compare_bigint}

-- `Number.isSafeInteger`, at a number that is no negative one.
abbrev pub is_safe : ℕ → Bool
is_safe n = leb n (2 ^ 53 - 1)

-- The last byte has zeros in its `unused` low bits.
abbrev pub has_padding : Option ℕ → ℕ → Bool
has_padding none unused = true
has_padding (some last) unused = nat_eq (last % 2 ^ unused) 0

unfoldable pub validate_bit_vector : Bytes → ℕ → Computed Bytes
validate_bit_vector bytes dimensions =
    let unused = length bytes * 8 - dimensions in
    kernel_assert (is_safe dimensions && ltb 0 dimensions) vector_value_invalid
    >> kernel_assert (nat_eq (length bytes) ((dimensions + 7) / 8)) vector_dimension_mismatch
    >> kernel_assert (has_padding (get_last? bytes) unused) vector_value_invalid
    >> gives bytes

-- The number of positions, of the lowest `n`, at which the digits of two numbers differ.
unfoldable pub differing_bits : ℕ → ℕ → ℕ → ℕ
differing_bits zero a b = 0
differing_bits (suc n) a b =
    let rest = differing_bits n (a / 2) (b / 2) in if nat_eq (a % 2) (b % 2) then rest else suc rest

-- The loop over the bytes.
unfoldable pub differing_bytes : Bytes → Bytes → ℕ
unfolding differing_bits
differing_bytes (x ∷ a) (y ∷ b) = differing_bits 8 x y + differing_bytes a b
differing_bytes _ _ = 0

unfoldable pub hamming_distance : Bytes → Bytes → ℕ → Computed ℕ
unfolding validate_bit_vector differing_bytes
hamming_distance a b dimensions =
    validate_bit_vector a dimensions
    >> validate_bit_vector b dimensions
    >> gives (differing_bytes a b)

unfoldable pub equal_int8_dimensions : List ℤ → List ℤ → Computed (Unit {0})
equal_int8_dimensions a b = kernel_assert (nat_eq (length a) (length b)) vector_dimension_mismatch

-- A sum over the positions of both vectors.
unfoldable pub sum_over : (ℤ → ℤ → ℤ) → List ℤ → List ℤ → ℤ
sum_over term (x ∷ a) (y ∷ b) = term x y +ℤ sum_over term a b
sum_over term _ _ = pos 0

unfoldable pub int8_manhattan : List ℤ → List ℤ → Computed ℤ
unfolding equal_int8_dimensions sum_over
int8_manhattan a b =
    equal_int8_dimensions a b >> gives (sum_over (λ x y. pos (magnitude (x -ℤ y))) a b)

unfoldable pub int8_squared_l2 : List ℤ → List ℤ → Computed ℤ
unfolding equal_int8_dimensions sum_over
int8_squared_l2 a b =
    equal_int8_dimensions a b >> gives (sum_over (λ x y. (x -ℤ y) *ℤ (x -ℤ y)) a b)

unfoldable pub int8_dot : List ℤ → List ℤ → Computed ℤ
unfolding equal_int8_dimensions sum_over
int8_dot a b = equal_int8_dimensions a b >> gives (sum_over (λ x y. x *ℤ y) a b)

pub record VectorCandidate {ℓ} (T : Type ℓ) : Type ℓ where
  pub key : Bytes
  pub value : T

pub record VectorNeighbor {ℓ} (T : Type ℓ) : Type ℓ where
  pub candidate : VectorCandidate T
  pub distance : ℤ

module _ {ℓ} {T : Type ℓ} where
  -- The comparison of neighbors: by distance, then by key.
  unfoldable pub neighbor_order : VectorNeighbor T → VectorNeighbor T → Ordering
  neighbor_order a b =
      or_else (compare_bigint a.distance b.distance) (compare_bytes a.candidate.key b.candidate.key)

  unfoldable pub neighbor_of : T → (T → T → ℤ) → VectorCandidate T → VectorNeighbor T
  neighbor_of query distance candidate = record {
    candidate = candidate;
    distance = distance candidate.value query;
  }

  unfoldable pub exact_knn :
      List (VectorCandidate T) → T → ℕ → (T → T → ℤ) → Computed (List (VectorNeighbor T))
  unfolding neighbor_of
  exact_knn candidates query k distance =
      kernel_assert (is_safe k) invalid_argument_encoding
      >> gives (take k (sort neighbor_order (map (neighbor_of query distance) candidates)))
