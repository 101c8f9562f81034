-- ===== src/Kernels/Int64.antt =====
-- packages/kernels/src/int64.ts. A number of bits that is negative or no integer is refused like 64.
pub mod Range
pub mod Exact
pub mod Results
use chronolog_db.Prelude.{ℕ, ◌-◌, ◌^◌, Ordering, Bool, ◌&&◌, not, ltb, if◌then◌else◌}
use chronolog_db.Prelude.Int.{
  ℤ, pos, negsuc, ◌+ℤ◌, ◌-ℤ◌, ◌*ℤ◌, quotient, remainder, opposite, is_below, is_at_most, is_same,
  shift_left, shift_right,
}
use chronolog_db.Kernels.{
  Computed, gives, fails, ◌>>◌, kernel_assert, numeric_overflow, division_by_zero,
  invalid_argument_encoding,
}

abbrev pub int64_min : ℤ
int64_min = negsuc (2 ^ 63 - 1)

abbrev pub int64_max : ℤ
int64_max = pos (2 ^ 63 - 1)

abbrev pub in_range : ℤ → Bool
in_range value = is_at_most int64_min value && is_at_most value int64_max

-- `int64` at a bigint.
unfoldable pub int64 : ℤ → Computed ℤ
int64 value = kernel_assert (in_range value) numeric_overflow >> gives value

unfoldable pub checked : ℤ → Computed ℤ
checked value = kernel_assert (in_range value) numeric_overflow >> gives value

unfoldable pub int64_add : ℤ → ℤ → Computed ℤ
int64_add a b = checked (a +ℤ b)

unfoldable pub int64_sub : ℤ → ℤ → Computed ℤ
int64_sub a b = checked (a -ℤ b)

unfoldable pub int64_mul : ℤ → ℤ → Computed ℤ
int64_mul a b = checked (a *ℤ b)

unfoldable pub int64_div : ℤ → ℤ → Computed ℤ
int64_div a b =
    kernel_assert (not (is_same b (pos 0))) division_by_zero
    >> kernel_assert (not (is_same a int64_min && is_same b (negsuc 0))) numeric_overflow
    >> gives (quotient a b)

unfoldable pub int64_rem : ℤ → ℤ → Computed ℤ
int64_rem a b = kernel_assert (not (is_same b (pos 0))) division_by_zero >> gives (remainder a b)

unfoldable pub int64_neg : ℤ → Computed ℤ
int64_neg a = kernel_assert (not (is_same a int64_min)) numeric_overflow >> gives (opposite a)

unfoldable pub int64_abs : ℤ → Computed ℤ
unfolding int64_neg
int64_abs a = if is_below a (pos 0) then int64_neg a else gives a

unfoldable pub int64_shift_left : ℤ → ℕ → Computed ℤ
int64_shift_left a bits =
    kernel_assert (ltb bits 64) invalid_argument_encoding >> checked (shift_left a bits)

unfoldable pub int64_shift_right : ℤ → ℕ → Computed ℤ
int64_shift_right a bits =
    kernel_assert (ltb bits 64) invalid_argument_encoding >> gives (shift_right a bits)

unfoldable pub compare_bigint : ℤ → ℤ → Ordering
compare_bigint a b =
    if is_below a b then Ordering.lt else if is_below b a then Ordering.gt else Ordering.eq
