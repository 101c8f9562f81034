-- ===== src/Bytes/Laws.antt =====
-- The byte order is linear, and the equality test decides equality.
use chronolog_db.Prelude.{
  Ordering, ◌≡◌, refl, ap, ◌↔◌, true, [], ◌∷◌, length, arith, HasEquality, List, list_beq,
  list_beq_iff, flip, IsLinear,
}
use chronolog_db.Bytes.{Bytes, compare_bytes, every_equal, bytes_equal}

compare_bytes-eq_iff : (a b : Bytes) → (compare_bytes a b ≡ Ordering.eq) ↔ (a ≡ b)
unfolding compare_bytes
compare_bytes-eq_iff [] [] = ground arith
compare_bytes-eq_iff (x ∷ a) (y ∷ b) = ground (arith, compare_bytes-eq_iff a b)
compare_bytes-eq_iff _ _ = ground arith

compare_bytes-flipped : (a b : Bytes) → compare_bytes b a ≡ flip (compare_bytes a b)
unfolding compare_bytes
compare_bytes-flipped [] [] = refl
compare_bytes-flipped (x ∷ a) (y ∷ b) = ground (arith, compare_bytes-flipped a b)
compare_bytes-flipped _ _ = ground arith

compare_bytes_trans :
    (a b c : Bytes)
    → compare_bytes a b ≡ Ordering.lt
    → compare_bytes b c ≡ Ordering.lt
    → compare_bytes a c ≡ Ordering.lt
unfolding compare_bytes
compare_bytes_trans [] (y ∷ b) (z ∷ c) h k = refl
compare_bytes_trans (x ∷ a) (y ∷ b) (z ∷ c) h k = ground (arith, compare_bytes_trans a b c)
compare_bytes_trans _ _ _ h k = ground arith

-- The comparison of byte strings is a strict linear order: it is zero exactly on equal strings, it
-- changes its sign with the order of its arguments, and it is transitive.
pub compare_bytes-IsLinear : IsLinear compare_bytes
compare_bytes-IsLinear = record {
  eq_iff = compare_bytes-eq_iff;
  flipped = compare_bytes-flipped;
  trans = compare_bytes_trans;
}

every_equal_iff : (a b : Bytes) → length a ≡ length b → (every_equal a b ≡ true) ↔ (a ≡ b)
unfolding every_equal
every_equal_iff [] [] h = ground arith
every_equal_iff (x ∷ a) (y ∷ b) h = ground (arith, every_equal_iff a b (omega arith))
every_equal_iff [] (y ∷ b) h = absurd (omega arith)
every_equal_iff (x ∷ a) [] h = absurd (omega arith)

pub bytes_equal_iff : (a b : Bytes) → (bytes_equal a b ≡ true) ↔ (a ≡ b)
unfolding bytes_equal
bytes_equal_iff a b = (
  λ h. (every_equal_iff a b (ground arith)).0 (ground arith),
  λ e. ground (arith, ap length e, (every_equal_iff a b (ap length e)).1 e),
)

instance abbrev pub Bytes_eq : HasEquality Bytes
Bytes_eq = record { agrees = bytes_equal; agrees_iff = bytes_equal_iff }

instance abbrev pub BytesList_eq : HasEquality (List Bytes)
BytesList_eq = record { agrees = list_beq; agrees_iff = list_beq_iff }
