-- ===== src/Kernels/Decimal/Modes.antt =====
-- For packages/kernels/src/decimal.ts: what each rounding mode asks of a quotient.
use chronolog_db.Kernels.Decimal.{
  RoundingMode, exact, toward_zero, floor, ceiling, half_up, half_down, half_even, away_from_zero,
}
use chronolog_db.Prelude.Int.{ℤ, pos, ◌+ℤ◌, ◌-ℤ◌, signed, remainder, is_same}
use chronolog_db.Prelude.{
  ℕ, zero, suc, ◌+◌, ◌*◌, ◌%◌, ◌≤◌, ◌<◌, ◌≡◌, ◌≢◌, ◌⊎◌, inl, Bool, true, false, not, arith, ltb,
}

-- `m` is `a / b` without its fraction, or with the fraction counted as one.
abbrev pub Below : ℕ → ℕ → ℕ → Type 0
Below a b m = (m * b ≤ a) × (a < m * b + b)

abbrev pub Above : ℕ → ℕ → ℕ → Type 0
Above a b m = (a ≤ m * b) × (m * b < a + b)

-- The distance to `a / b` is at most a half.
abbrev pub Near : ℕ → ℕ → ℕ → Type 0
Near a b m = (2 * a ≤ 2 * (m * b) + b) × (2 * (m * b) ≤ 2 * a + b)

-- `m` is the absolute value of `a / b` rounded, where `negative` says that the quotient is below zero.
unfoldable pub Rounds : RoundingMode → Bool → ℕ → ℕ → ℕ → Type 0
Rounds exact negative a b m = m * b ≡ a
Rounds toward_zero negative a b m = Below a b m
Rounds floor false a b m = Below a b m
Rounds floor true a b m = Above a b m
Rounds ceiling false a b m = Above a b m
Rounds ceiling true a b m = Below a b m
Rounds half_up negative a b m = Near a b m × (2 * a < 2 * (m * b) + b)
Rounds half_down negative a b m = Near a b m × (2 * (m * b) < 2 * a + b)
Rounds half_even negative a b m =
    Near a b m × (((2 * a < 2 * (m * b) + b) × (2 * (m * b) < 2 * a + b)) ⊎ (m % 2 ≡ 0))

-- One step away from zero, in the direction of the sign.
pub step_away : (s : Bool) (m : ℕ) → signed s m +ℤ away_from_zero (not s) ≡ signed s (suc m)
unfolding ◌+ℤ◌
step_away false m = ground arith
step_away true zero = ground arith
step_away true (suc m) = ground arith

pub step_down : (m : ℕ) → signed true m -ℤ pos 1 ≡ signed true (suc m)
unfolding ◌-ℤ◌
step_down zero = ground arith
step_down (suc m) = ground arith

-- A quotient that is exact satisfies every mode.
pub Rounds-exact :
    (mode : RoundingMode) (s : Bool) (a b m : ℕ) → 0 < b → m * b ≡ a → Rounds mode s a b m
unfolding Rounds
Rounds-exact exact s a b m lt e = e
Rounds-exact toward_zero s a b m lt e = omega arith
Rounds-exact floor true a b m lt e = omega arith
Rounds-exact floor false a b m lt e = omega arith
Rounds-exact ceiling true a b m lt e = omega arith
Rounds-exact ceiling false a b m lt e = omega arith
Rounds-exact half_up s a b m lt e = omega arith
Rounds-exact half_down s a b m lt e = omega arith
Rounds-exact half_even s a b m lt e = ((omega arith, omega arith), inl (omega arith, omega arith))

pub ltb-false : (x y : ℕ) → ltb x y ≡ false → y ≤ x
ltb-false x y h = ground arith

pub suc-mul : (m b : ℕ) → suc m * b ≡ m * b + b
suc-mul m b = omega arith

pub odd_suc : (m : ℕ) → m % 2 ≢ 0 → suc m % 2 ≡ 0
odd_suc m h = omega arith

pub even_lem :
    (s : Bool) (m : ℕ) → is_same (remainder (signed s m) (pos 2)) (pos 0) ≡ true → m % 2 ≡ 0
unfolding remainder
even_lem false m h = ground arith
even_lem true zero h = ground arith
even_lem true (suc m) h = ground arith

pub odd_lem :
    (s : Bool) (m : ℕ) → is_same (remainder (signed s m) (pos 2)) (pos 0) ≡ false → m % 2 ≢ 0
unfolding remainder
odd_lem false m h = ground arith
odd_lem true zero h = ground arith
odd_lem true (suc m) h = ground arith

-- The two candidates: the truncated quotient, and the next one away from zero.
unfoldable pub Candidate : RoundingMode → Bool → ℕ → ℕ → ℤ → Type 0
Candidate mode s a b c = (k : ℕ) × (c ≡ signed s k) × Rounds mode s a b k
