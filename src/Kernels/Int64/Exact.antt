-- ===== src/Kernels/Int64/Exact.antt =====
-- For packages/kernels/src/int64.ts: the exact integer of each function, described without the arithmetic of
-- the code, by differences of the parts above and below zero.
use native.Mathlib.Nat.{div-add-mod', mod-lt, one-le-pow}
use chronolog_db.Prelude.{
  ℕ, zero, suc, ◌+◌, ◌*◌, ◌/◌, ◌%◌, ◌&&◌, ◌^◌, ◌≤◌, ◌<◌, ◌≡◌, refl, ◌⊎◌, Bool, true, false, arith,
}
use chronolog_db.Prelude.Int.{
  ℤ, pos, negsuc, ◌+ℤ◌, ◌-ℤ◌, ◌*ℤ◌, positive_part, negative_part, magnitude, is_negative,
  signs_differ, signed, quotient, remainder, opposite, shift_left, shift_right,
}
use chronolog_db.Kernels.{
  Computed, gives, fails, numeric_overflow, division_by_zero, invalid_argument_encoding,
}
use chronolog_db.Kernels.Int64.{
  in_range, int64, int64_add, int64_sub, int64_mul, int64_div, int64_rem, int64_neg, int64_abs,
  int64_shift_left, int64_shift_right,
}

-- The operations of the file.
pub data Operation : Type 0 where
  add sub mul div rem : ℤ → ℤ → Operation
  neg abs convert : ℤ → Operation
  shift_up shift_down : ℤ → ℕ → Operation

unfoldable pub compute : Operation → Computed ℤ
compute (add a b) = int64_add a b
compute (sub a b) = int64_sub a b
compute (mul a b) = int64_mul a b
compute (div a b) = int64_div a b
compute (rem a b) = int64_rem a b
compute (neg a) = int64_neg a
compute (abs a) = int64_abs a
compute (convert a) = int64 a
compute (shift_up a n) = int64_shift_left a n
compute (shift_down a n) = int64_shift_right a n

-- Whether the integers that an operation takes are in the range; `convert` takes any integer.
abbrev pub takes_range : Operation → Bool
takes_range (add a b) = in_range a && in_range b
takes_range (sub a b) = in_range a && in_range b
takes_range (mul a b) = in_range a && in_range b
takes_range (div a b) = in_range a && in_range b
takes_range (rem a b) = in_range a && in_range b
takes_range (neg a) = in_range a
takes_range (abs a) = in_range a
takes_range (convert a) = true
takes_range (shift_up a n) = in_range a
takes_range (shift_down a n) = in_range a

-- An integer of 64 bits, and one of more.
abbrev pub IsInt64 : ℤ → Type 0
IsInt64 c = (positive_part c < 2 ^ 63) × (negative_part c ≤ 2 ^ 63)

abbrev pub IsLarge : ℤ → Type 0
IsLarge c = (2 ^ 63 ≤ positive_part c) ⊎ (2 ^ 63 < negative_part c)

-- Two differences are equal: `up - down` and `c`.
abbrev pub Differs : ℕ → ℕ → ℤ → Type 0
Differs up down c = up + negative_part c ≡ down + positive_part c

-- `c` is the exact result of an operation.
abbrev pub Exact : Operation → ℤ → Type 0
Exact (add a b) c =
    Differs (positive_part a + positive_part b) (negative_part a + negative_part b) c
Exact (sub a b) c =
    Differs (positive_part a + negative_part b) (negative_part a + positive_part b) c
Exact (mul a b) c =
    Differs (positive_part a * positive_part b + negative_part a * negative_part b)
      (positive_part a * negative_part b + negative_part a * positive_part b) c
-- The quotient without its fraction, whose sign is that of the quotient.
Exact (div a b) c =
    (k : ℕ) × (c ≡ signed (signs_differ a b) k)
    × (k * magnitude b ≤ magnitude a)
    × (magnitude a < k * magnitude b + magnitude b)
-- What that quotient leaves, with the sign of the dividend.
Exact (rem a b) c =
    (k : ℕ) × (r : ℕ) × (c ≡ signed (is_negative a) r)
    × (magnitude a ≡ k * magnitude b + r)
    × (r < magnitude b)
Exact (neg a) c = Differs (negative_part a) (positive_part a) c
Exact (abs a) c = c ≡ pos (magnitude a)
Exact (convert a) c = c ≡ a
Exact (shift_up a n) c = Differs (positive_part a * 2 ^ n) (negative_part a * 2 ^ n) c
-- The greatest integer that is not above `a / 2 ^ n`.
Exact (shift_down a n) c =
    (positive_part c * 2 ^ n + negative_part a ≤ positive_part a + negative_part c * 2 ^ n)
    × (positive_part a + negative_part c * 2 ^ n
        < positive_part c * 2 ^ n + 2 ^ n + negative_part a)

-- What an operation may do.
pub data Meets (o : Operation) : Computed ℤ → Type 0 where
  returns_exact : {c : ℤ} → Exact o c → IsInt64 c → Meets o (gives c)
  overflows : (c : ℤ) → Exact o c → IsLarge c → Meets o (fails numeric_overflow)
  no_divisor :
      (a : ℤ) → (o ≡ div a (pos 0)) ⊎ (o ≡ rem a (pos 0)) → Meets o (fails division_by_zero)
  no_shift :
      (a : ℤ) (n : ℕ)
      → (o ≡ shift_up a n) ⊎ (o ≡ shift_down a n)
      → 64 ≤ n
      → Meets o (fails invalid_argument_encoding)

-- The parts of an integer of a sign and an absolute value.
signed-Differs : (k : ℕ) → Differs k 0 (signed false k) × Differs 0 k (signed true k)
signed-Differs zero = (refl, refl)
signed-Differs (suc k) = (omega arith, omega arith)

pub add-Exact : (a b : ℤ) → Exact (add a b) (a +ℤ b)
unfolding ◌+ℤ◌
add-Exact a b = ground arith

pub sub-Exact : (a b : ℤ) → Exact (sub a b) (a -ℤ b)
unfolding ◌-ℤ◌
sub-Exact a b = ground arith

pub mul-Exact : (a b : ℤ) → Exact (mul a b) (a *ℤ b)
unfolding ◌*ℤ◌
mul-Exact (pos m) (pos n) = omega arith
mul-Exact (pos m) (negsuc n) = omega (arith, (signed-Differs (m * suc n)).1)
mul-Exact (negsuc m) (pos n) = omega (arith, (signed-Differs (suc m * n)).1)
mul-Exact (negsuc m) (negsuc n) = omega arith

pub neg-Exact : (a : ℤ) → Exact (neg a) (opposite a)
neg-Exact (pos n) = omega (arith, (signed-Differs n).1)
neg-Exact (negsuc n) = omega arith

pub shift_up-Exact : (a : ℤ) (n : ℕ) → Exact (shift_up a n) (shift_left a n)
shift_up-Exact (pos m) n = omega arith
shift_up-Exact (negsuc m) n = omega (arith, (signed-Differs (suc m * 2 ^ n)).1)

pow-pos : (n : ℕ) → 0 < 2 ^ n
pow-pos n = one-le-pow n 2 (omega arith)

-- The quotient and the remainder of the absolute values, which are whole again together.
pub div-Exact : (a b : ℤ) → 0 < magnitude b → Exact (div a b) (quotient a b)
unfolding quotient
div-Exact a b positive =
    let whole = div-add-mod' (magnitude a) (magnitude b) in
    let less = mod-lt (magnitude a) positive in
    (magnitude a / magnitude b, refl, omega (arith, whole), omega (arith, whole, less))

pub rem-Exact : (a b : ℤ) → 0 < magnitude b → Exact (rem a b) (remainder a b)
unfolding remainder
rem-Exact a b positive =
    let whole = div-add-mod' (magnitude a) (magnitude b) in
    (
      magnitude a / magnitude b,
      magnitude a % magnitude b,
      refl,
      omega (arith, whole),
      mod-lt (magnitude a) positive,
    )

pub shift_down-Exact : (a : ℤ) (n : ℕ) → Exact (shift_down a n) (shift_right a n)
shift_down-Exact (pos m) n =
    let whole = div-add-mod' m (2 ^ n) in
    let less = mod-lt m (pow-pos n) in (omega (arith, whole), omega (arith, whole, less))
shift_down-Exact (negsuc m) n =
    let whole = div-add-mod' m (2 ^ n) in
    let less = mod-lt m (pow-pos n) in (omega (arith, whole, less), omega (arith, whole))
