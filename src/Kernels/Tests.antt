-- ===== src/Kernels/Tests.antt =====
-- Runs of the kernels' model at concrete inputs.
use chronolog_db.Prelude.{ℕ, ◌≡◌, ◌<◌, refl, some, List, [], ◌∷◌, get_elem?, sort, insert_sorted}
use chronolog_db.Prelude.Int.{
  ℤ, pos, negsuc, signed, signs_differ, magnitude, quotient, remainder, ◌+ℤ◌, ◌-ℤ◌,
}
use chronolog_db.Bytes.{compare_bytes}
use chronolog_db.Kernels.Int64.{int64_min, int64_div, compare_bigint}
use chronolog_db.Kernels.Int64.Exact.{div, compute, Meets}
use chronolog_db.Kernels.Int64.Results.{compute-Meets}
use chronolog_db.Kernels.{fails, numeric_overflow}
use chronolog_db.Kernels.Decimal.{rounded_quotient, half_even}
use chronolog_db.Kernels.Decimal.Rounding.{rounded_quotient-Rounds}
use chronolog_db.Kernels.Decimal.Modes.{Rounds}
use chronolog_db.Kernels.Vector.{
  VectorCandidate, VectorNeighbor, neighbor_order, neighbor_of, exact_knn,
}
use chronolog_db.Kernels.Vector.Nearest.{exact_knn-IsNearest}

-- The least integer divided by -1.
compute-Meets_example : Meets (div int64_min (negsuc 0)) (fails numeric_overflow)
unfolding compute int64_div
compute-Meets_example = compute-Meets (div int64_min (negsuc 0)) refl

-- -7/2 to the even integer -4.
rounded_quotient-Rounds_example :
    (k : ℕ) × (negsuc 3 ≡ signed (signs_differ (pos 7) (negsuc 1)) k)
    × Rounds half_even
        (signs_differ (pos 7) (negsuc 1))
        (magnitude (pos 7))
        (magnitude (negsuc 1))
        k
unfolding rounded_quotient quotient remainder ◌+ℤ◌
rounded_quotient-Rounds_example =
    rounded_quotient-Rounds (pos 7) (negsuc 1) (negsuc 3) half_even refl

abbrev point : ℕ → ℤ → VectorCandidate ℤ
point name at = record { key = name ∷ []; value = at }

abbrev points : List (VectorCandidate ℤ)
points = point 1 (pos 9) ∷ point 2 (pos 4) ∷ point 3 (pos 5) ∷ []

abbrev gap : ℤ → ℤ → ℤ
gap a b = pos (magnitude (a -ℤ b))

abbrev nearest : List (VectorNeighbor ℤ)
nearest =
    record { candidate = point 2 (pos 4); distance = pos 0 }
    ∷ record { candidate = point 3 (pos 5); distance = pos 1 }
    ∷ []

exact_knn-IsNearest_example :
    (p : ℕ) × (p < 1) × (get_elem? nearest p ≡ some (neighbor_of (pos 4) gap (point 2 (pos 4))))
unfolding exact_knn sort insert_sorted neighbor_order neighbor_of compare_bigint compare_bytes ◌-ℤ◌
exact_knn-IsNearest_example =
    exact_knn-IsNearest points (pos 4) 2 gap nearest 1 1
      (record { candidate = point 3 (pos 5); distance = pos 1 }) (point 2 (pos 4)) refl refl refl
      refl
