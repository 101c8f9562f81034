-- ===== src/Kernels/Int64/Range.antt =====
-- For packages/kernels/src/int64.ts: which results of an unchecked operation have 64 bits.
use native.Mathlib.Nat.{mod-le, div-le_self, div-le_of_le-mul}
use chronolog_db.Prelude.{ℕ, ◌/◌, ◌^◌, ◌≤◌, ◌≡◌, true, arith, zero, suc}
use chronolog_db.Prelude.Int.{ℤ, pos, negsuc, quotient, remainder, magnitude}
use chronolog_db.Kernels.{gives}
use chronolog_db.Kernels.Int64.{in_range, int64_div, int64_rem, int64_neg, int64_shift_right}

-- A divisor of at least two halves the quotient.
div_le_half : (m n : ℕ) → 2 ≤ n → m ≤ 2 ^ 63 → m / n ≤ 2 ^ 62
div_le_half m n two le = div-le_of_le-mul n (omega arith)

-- The exact quotient is out of range only at the least integer and -1.
pub div-range :
    (a b c : ℤ)
    → in_range a ≡ true
    → in_range b ≡ true
    → int64_div a b ≡ gives c
    → in_range c ≡ true
unfolding int64_div quotient
div-range (pos m) (pos n) c ha hb h = ground (arith, div-le_self m n)
div-range (pos m) (negsuc n) c ha hb h = ground (arith, div-le_self m (suc n))
div-range (negsuc m) (pos n) c ha hb h = ground (arith, div-le_self (suc m) n)
div-range (negsuc m) (negsuc zero) c ha hb h = ground (arith, div-le_self (suc m) 1)
div-range (negsuc m) (negsuc (suc n)) c ha hb h =
    let half = div_le_half (suc m) (suc (suc n)) (omega arith) (ground arith) in
    ground (arith, half)

pub rem-range : (a b c : ℤ) → in_range a ≡ true → int64_rem a b ≡ gives c → in_range c ≡ true
unfolding int64_rem remainder
rem-range (pos m) b c ha h = ground (arith, mod-le m (magnitude b))
rem-range (negsuc m) b c ha h = ground (arith, mod-le (suc m) (magnitude b))

pub shift-range :
    (a : ℤ) (n : ℕ) (c : ℤ)
    → in_range a ≡ true
    → int64_shift_right a n ≡ gives c
    → in_range c ≡ true
unfolding int64_shift_right
shift-range (pos m) n c ha h = ground (arith, div-le_self m (2 ^ n))
shift-range (negsuc m) n c ha h = ground (arith, div-le_self m (2 ^ n))

pub neg-range : (a c : ℤ) → in_range a ≡ true → int64_neg a ≡ gives c → in_range c ≡ true
unfolding int64_neg
neg-range a c ha h = ground arith
