-- ===== src/Kernels/Decimal.antt =====
-- packages/kernels/src/decimal.ts, without the reading and printing of texts. A scale is a number of
-- ℕ: what is negative or no integer is refused like a scale above the safe integers. Sums of
-- scales are exact, which they are for scales below 2 ^ 51.
pub mod Modes
pub mod Halves
pub mod Rounding
use chronolog_db.Prelude.{
  ℕ, zero, suc, ◌+◌, ◌-◌, ◌*◌, ◌^◌, ◌%◌, Ordering, Bool, true, false, not, List, [], ◌∷◌, ltb, leb,
  nat_eq, if◌then◌else◌,
}
use chronolog_db.Prelude.Int.{
  ℤ, pos, negsuc, ◌+ℤ◌, ◌-ℤ◌, ◌*ℤ◌, quotient, remainder, magnitude, is_same, signs_differ,
}
use chronolog_db.Kernels.{
  Computed, gives, fails, ◌>>=◌, ◌>>◌, kernel_assert, numeric_overflow, division_by_zero,
  invalid_argument_encoding, decimal_rescale_required, semantic_resource_limit,
}
use chronolog_db.Kernels.Int64.{compare_bigint}

pub record Decimal : Type 0 where
  pub coefficient : ℤ
  pub scale : ℕ

pub data RoundingMode : Type 0 where
  exact toward_zero floor ceiling half_up half_down half_even : RoundingMode

-- `Number.MAX_SAFE_INTEGER`
abbrev pub max_safe_scale : ℕ
max_safe_scale = 2 ^ 53 - 1

unfoldable pub pow10 : ℕ → Computed ℤ
pow10 n = kernel_assert (leb n 10000) semantic_resource_limit >> gives (pos (10 ^ n))

unfoldable pub decimal : ℤ → ℕ → Computed Decimal
decimal coefficient scale =
    kernel_assert (leb scale max_safe_scale) invalid_argument_encoding
    >> gives (record { coefficient = coefficient; scale = scale })

-- `Math.max`
abbrev pub larger : ℕ → ℕ → ℕ
larger a b = if ltb a b then b else a

-- Both coefficients at the larger scale, and that scale.
unfoldable pub common : Decimal → Decimal → Computed (ℤ × (ℤ × ℕ))
unfolding pow10
common a b =
    let scale = larger a.scale b.scale in
    pow10 (scale - a.scale) >>= λ pa.
    pow10 (scale - b.scale) >>= λ pb. gives (a.coefficient *ℤ pa, (b.coefficient *ℤ pb, scale))

unfoldable pub compare_decimal : Decimal → Decimal → Computed Ordering
unfolding common
compare_decimal a b = common a b >>= λ c. gives (compare_bigint c.0 c.1.0)

unfoldable pub decimal_add : Decimal → Decimal → Computed Decimal
unfolding common decimal
decimal_add a b = common a b >>= λ c. decimal (c.0 +ℤ c.1.0) c.1.1

unfoldable pub decimal_sub : Decimal → Decimal → Computed Decimal
unfolding common decimal
decimal_sub a b = common a b >>= λ c. decimal (c.0 -ℤ c.1.0) c.1.1

unfoldable pub decimal_mul : Decimal → Decimal → Computed Decimal
unfolding decimal
decimal_mul a b = decimal (a.coefficient *ℤ b.coefficient) (a.scale + b.scale)

-- `sameSign ? 1n : -1n`
abbrev pub away_from_zero : Bool → ℤ
away_from_zero true = pos 1
away_from_zero false = negsuc 0

-- The three half modes, at twice the remainder and the divisor, both without sign.
abbrev pub round_half : RoundingMode → ℤ → ℤ → ℕ → ℕ → ℤ
round_half mode q away twice divisor =
    if ltb twice divisor then q else if ltb divisor twice then q +ℤ away else elim mode [
      | half_up ↦ q +ℤ away
      | half_down ↦ q
      | _ ↦ if is_same (remainder q (pos 2)) (pos 0) then q else q +ℤ away
    ]

-- What is done with a remainder that is not zero.
abbrev pub round_up_or_down : RoundingMode → Bool → ℤ → ℤ → ℤ → Computed ℤ
round_up_or_down exact same_sign q r d = fails decimal_rescale_required
round_up_or_down toward_zero same_sign q r d = gives q
round_up_or_down floor same_sign q r d = gives (if same_sign then q else q -ℤ pos 1)
round_up_or_down ceiling same_sign q r d = gives (if same_sign then q +ℤ pos 1 else q)
round_up_or_down mode same_sign q r d =
    gives (round_half mode q (away_from_zero same_sign) (magnitude r * 2) (magnitude d))

unfoldable pub rounded_quotient : ℤ → ℤ → RoundingMode → Computed ℤ
rounded_quotient numerator denominator mode =
    let q = quotient numerator denominator in
    let r = remainder numerator denominator in
    kernel_assert (not (is_same denominator (pos 0))) division_by_zero
    >> (if is_same r (pos 0)
        then gives q
        else round_up_or_down mode (not (signs_differ numerator denominator)) q r denominator)

unfoldable pub decimal_rescale : Decimal → ℕ → RoundingMode → Computed Decimal
unfolding pow10 decimal rounded_quotient
decimal_rescale value scale mode =
    kernel_assert (leb scale max_safe_scale) invalid_argument_encoding
    >> (if leb value.scale scale
        then (pow10 (scale - value.scale) >>= λ p. decimal (value.coefficient *ℤ p) scale)
        else pow10 (value.scale - scale) >>= λ p.
            rounded_quotient value.coefficient p mode >>= λ c. decimal c scale)

-- The numerator and the denominator at the exponent `up - down`.
unfoldable pub scaled_operands : ℤ → ℤ → ℕ → ℕ → Computed (ℤ × ℤ)
unfolding pow10
scaled_operands a b up down =
    if leb down up
    then (pow10 (up - down) >>= λ p. gives (a *ℤ p, b))
    else pow10 (down - up) >>= λ p. gives (a, b *ℤ p)

unfoldable pub decimal_div : Decimal → Decimal → ℕ → RoundingMode → Computed Decimal
unfolding scaled_operands rounded_quotient decimal
decimal_div a b result_scale mode =
    kernel_assert (not (is_same b.coefficient (pos 0))) division_by_zero
    >> (scaled_operands a.coefficient b.coefficient (result_scale + b.scale) a.scale >>= λ o.
        rounded_quotient o.0 o.1 mode >>= λ c. decimal c result_scale)

unfoldable pub decimal_rem : Decimal → Decimal → Computed Decimal
unfolding common decimal
decimal_rem a b = common a b >>= λ c.
    kernel_assert (not (is_same c.1.0 (pos 0))) division_by_zero
    >> decimal (remainder c.0 c.1.0) c.1.1

-- `reduce(decimalAdd, first)`
unfoldable pub sum_from : Decimal → List Decimal → Computed Decimal
unfolding decimal_add
sum_from total [] = gives total
sum_from total (d ∷ rest) = decimal_add total d >>= λ next. sum_from next rest

unfoldable pub decimal_sum : List Decimal → Computed Decimal
unfolding sum_from decimal
decimal_sum [] = decimal (pos 0) 0
decimal_sum (d ∷ rest) = sum_from d rest
