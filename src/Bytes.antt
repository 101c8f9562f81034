-- ===== src/Bytes.antt =====
-- packages/canonical/src/bytes.ts and the byte helpers of packages/control-store/src/control-store.ts:
-- byte strings, their equality and their order. The proofs are in the module below.
pub mod Laws
use chronolog_db.Prelude.{
  ℕ, compare, Ordering, Bool, true, false, List, [], ◌∷◌, nat_eq, ◌&&◌, length, if◌then◌else◌,
}

-- A `Uint8Array`, as the list of its bytes.
abbrev pub Bytes : Type 0
Bytes = List ℕ

-- The loop over the common length, and the comparison of the lengths behind it.
unfoldable pub compare_bytes : Bytes → Bytes → Ordering
compare_bytes [] [] = Ordering.eq
compare_bytes [] (y ∷ right) = Ordering.lt
compare_bytes (x ∷ left) [] = Ordering.gt
compare_bytes (x ∷ left) (y ∷ right) = elim (compare x y) [
  | Ordering.lt ↦ Ordering.lt
  | Ordering.eq ↦ compare_bytes left right
  | Ordering.gt ↦ Ordering.gt
]

-- `left.every((value, index) => value === right[index])`: past the end of `right` there is no value.
unfoldable pub every_equal : Bytes → Bytes → Bool
every_equal [] right = true
every_equal (x ∷ left) [] = false
every_equal (x ∷ left) (y ∷ right) = nat_eq x y && every_equal left right

unfoldable pub bytes_equal : Bytes → Bytes → Bool
unfolding every_equal
bytes_equal left right =
    if nat_eq (length left) (length right) then every_equal left right else false
