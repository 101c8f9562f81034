-- ===== src/Kernels/Int64/Results.antt =====
-- For packages/kernels/src/int64.ts: what the functions return and throw at 64-bit integers.
use chronolog_db.Prelude.{
  ℕ, zero, suc, ◌&&◌, and_both, ap, sym, ltb, ◌^◌, ◌≤◌, ◌<◌, ◌≡◌, refl, ◌⊎◌, inl, inr, true, false,
  arith, Bool-cases,
}
use chronolog_db.Prelude.Int.{
  is_same, is_same_lem, is_below, ℤ, pos, negsuc, ◌+ℤ◌, ◌-ℤ◌, ◌*ℤ◌, magnitude, quotient, remainder,
  opposite, shift_left, shift_right,
}
use chronolog_db.Kernels.{gives}
use chronolog_db.Kernels.Int64.{
  int64_min, in_range, int64, checked, int64_add, int64_sub, int64_mul, int64_div, int64_rem,
  int64_neg, int64_abs, int64_shift_left, int64_shift_right,
}
use chronolog_db.Kernels.Int64.Range.{div-range, rem-range, neg-range, shift-range}
use chronolog_db.Kernels.Int64.Exact.{
  Operation, add, sub, mul, div, rem, neg, abs, convert, shift_up, shift_down, compute, takes_range,
  IsInt64, IsLarge, Exact, Meets, returns_exact, overflows, no_divisor, no_shift, add-Exact,
  sub-Exact, mul-Exact, div-Exact, rem-Exact, neg-Exact, shift_up-Exact, shift_down-Exact,
}

in_range-IsInt64 : (c : ℤ) → in_range c ≡ true → IsInt64 c
in_range-IsInt64 (pos n) h = (ground (arith, h), ground arith)
in_range-IsInt64 (negsuc n) h = (ground arith, ground (arith, h))

in_range-IsLarge : (c : ℤ) → in_range c ≡ false → IsLarge c
in_range-IsLarge (pos n) h = inl (ground (arith, h))
in_range-IsLarge (negsuc n) h = inr (ground (arith, h))

checked-Meets : (o : Operation) (c : ℤ) → Exact o c → Meets o (checked c)
unfolding checked
checked-Meets o c exact = elim (Bool-cases (in_range c)) [
  | inl fits ↦ rw fits (returns_exact exact (in_range-IsInt64 c fits))
  | inr large ↦ rw large (overflows c exact (in_range-IsLarge c large))
]

-- A divisor is zero, or its absolute value is positive.
divisor-cases : (b : ℤ) → (b ≡ pos 0) ⊎ ((0 < magnitude b) × (is_same b (pos 0) ≡ false))
divisor-cases (pos zero) = inl refl
divisor-cases (pos (suc n)) = inr (omega arith, ground arith)
divisor-cases (negsuc n) = inr (omega arith, ground arith)

div-Meets : (a b : ℤ) → in_range a ≡ true → in_range b ≡ true → Meets (div a b) (int64_div a b)
unfolding int64_div
div-Meets a b ha hb = elim (divisor-cases b) [
  | inl zero' ↦ rw zero' (no_divisor a (inl refl))
  | inr (positive, nonzero) ↦ elim (Bool-cases (is_same a int64_min && is_same b (negsuc 0))) [
    | inl worst ↦
        let (least, minus) = and_both (is_same a int64_min) (is_same b (negsuc 0)) worst in
        rw (is_same_lem a int64_min least, is_same_lem b (negsuc 0) minus)
          (overflows (pos (2 ^ 63)) (2 ^ 63, refl, omega arith, omega arith) (inl (omega arith)))
    | inr fits ↦
        let given : int64_div a b ≡ gives (quotient a b) = rw (int64_div, nonzero, fits) refl in
        rw (nonzero, fits)
          (returns_exact (div-Exact a b positive)
            (in_range-IsInt64 (quotient a b) (div-range a b (quotient a b) ha hb given)))
  ]
]

rem-Meets : (a b : ℤ) → in_range a ≡ true → Meets (rem a b) (int64_rem a b)
unfolding int64_rem
rem-Meets a b ha = elim (divisor-cases b) [
  | inl zero' ↦ rw zero' (no_divisor a (inr refl))
  | inr (positive, nonzero) ↦
      let given : int64_rem a b ≡ gives (remainder a b) = rw (int64_rem, nonzero) refl in
      rw nonzero (
        returns_exact (rem-Exact a b positive)
          (in_range-IsInt64 (remainder a b) (rem-range a b (remainder a b) ha given)))
]

neg-Meets : (a : ℤ) → in_range a ≡ true → Meets (neg a) (int64_neg a)
unfolding int64_neg
neg-Meets a ha = elim (Bool-cases (is_same a int64_min)) [
  | inl least ↦
      rw (is_same_lem a int64_min least)
        (overflows (pos (2 ^ 63)) (omega arith) (inl (omega arith)))
  | inr other ↦
      let given : int64_neg a ≡ gives (opposite a) = rw (int64_neg, other) refl in
      rw other (
        returns_exact (neg-Exact a)
          (in_range-IsInt64 (opposite a) (neg-range a (opposite a) ha given)))
]

abs-Meets : (a : ℤ) → in_range a ≡ true → Meets (abs a) (int64_abs a)
unfolding int64_abs int64_neg
abs-Meets (pos n) ha =
    let positive : is_below (pos n) (pos 0) ≡ false = ground arith in
    rw positive (returns_exact refl (in_range-IsInt64 (pos n) ha))
abs-Meets (negsuc n) ha =
    let negative : is_below (negsuc n) (pos 0) ≡ true = ground arith in
    elim (Bool-cases (is_same (negsuc n) int64_min)) [
      | inl least ↦
          let same : negsuc n ≡ int64_min = is_same_lem (negsuc n) int64_min least in
          rw (negative, least)
            (overflows (pos (2 ^ 63)) (ap (λ a. pos (magnitude a)) (sym same)) (inl (omega arith)))
      | inr other ↦
          let given : int64_neg (negsuc n) ≡ gives (pos (suc n)) = rw (int64_neg, other) refl in
          rw (negative, other)
            (returns_exact refl
              (in_range-IsInt64 (pos (suc n)) (neg-range (negsuc n) (pos (suc n)) ha given)))
    ]

-- A number of bits that is refused, or one of a shift.
shift-cases : (n : ℕ) → ((64 ≤ n) × (ltb n 64 ≡ false)) ⊎ (ltb n 64 ≡ true)
shift-cases n = elim (Bool-cases (ltb n 64)) [
  | inl fits ↦ inr fits
  | inr large ↦ inl (ground (arith, large), large)
]

shift_up-Meets : (a : ℤ) (n : ℕ) → Meets (shift_up a n) (int64_shift_left a n)
unfolding int64_shift_left
shift_up-Meets a n = elim (shift-cases n) [
  | inl (large, refused) ↦ rw refused (no_shift a n (inl refl) large)
  | inr fits ↦ rw fits (checked-Meets (shift_up a n) (shift_left a n) (shift_up-Exact a n))
]

shift_down-Meets :
    (a : ℤ) (n : ℕ) → in_range a ≡ true → Meets (shift_down a n) (int64_shift_right a n)
unfolding int64_shift_right
shift_down-Meets a n ha = elim (shift-cases n) [
  | inl (large, refused) ↦ rw refused (no_shift a n (inr refl) large)
  | inr fits ↦
      let given : int64_shift_right a n ≡ gives (shift_right a n) =
        rw (int64_shift_right, fits) refl in
      rw fits (
        returns_exact (shift_down-Exact a n)
          (in_range-IsInt64 (shift_right a n) (shift-range a n (shift_right a n) ha given)))
]

-- Each operation at 64-bit integers gives its exact result, which has 64 bits; or it throws an overflow where
-- the exact result has more; or it throws at a divisor of zero, or at a shift by 64 bits or more.
pub compute-Meets : (o : Operation) → takes_range o ≡ true → Meets o (compute o)
unfolding compute int64_add int64_sub int64_mul int64 checked
compute-Meets (add a b) h = checked-Meets (add a b) (a +ℤ b) (add-Exact a b)
compute-Meets (sub a b) h = checked-Meets (sub a b) (a -ℤ b) (sub-Exact a b)
compute-Meets (mul a b) h = checked-Meets (mul a b) (a *ℤ b) (mul-Exact a b)
compute-Meets (div a b) h =
    let (ha, hb) = and_both (in_range a) (in_range b) h in div-Meets a b ha hb
compute-Meets (rem a b) h = rem-Meets a b (and_both (in_range a) (in_range b) h).0
compute-Meets (neg a) h = neg-Meets a h
compute-Meets (abs a) h = abs-Meets a h
compute-Meets (convert a) h = checked-Meets (convert a) a refl
compute-Meets (shift_up a n) h = shift_up-Meets a n
compute-Meets (shift_down a n) h = shift_down-Meets a n h
