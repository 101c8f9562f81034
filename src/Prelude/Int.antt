-- ===== src/Prelude/Int.antt =====
-- A JavaScript `bigint`: signed integers over the native numbers. Quotients are cut off towards zero
-- and remainders take the sign of the dividend.
use Prim.Native.Nat.{ℕ, zero, suc, ◌+◌, ◌-◌, ◌*◌, ◌/◌, ◌%◌, ◌^◌}
use mathlib.Core.Path.{◌≡◌, refl}
use mathlib.Core.Bool.{Bool, true, false, not}
use native.Mathlib.Omega.{arith}
use chronolog_db.Prelude.Tests.{ltb, leb, nat_eq, if◌then◌else◌}

pub data ℤ : Type 0 where
  pos negsuc : ℕ → ℤ

-- Whether it is below zero, and its absolute value.
abbrev pub is_negative : ℤ → Bool
is_negative (pos n) = false
is_negative (negsuc n) = true

abbrev pub magnitude : ℤ → ℕ
magnitude (negsuc n) = suc n
magnitude (pos n) = n

-- The integer of a sign and an absolute value.
abbrev pub signed : Bool → ℕ → ℤ
signed false n = pos n
signed true zero = pos zero
signed true (suc n) = negsuc n

abbrev pub positive_part : ℤ → ℕ
positive_part (negsuc n) = 0
positive_part (pos n) = n

abbrev pub negative_part : ℤ → ℕ
negative_part (negsuc n) = suc n
negative_part (pos n) = 0

-- What is left of `up` after `down`.
abbrev pub balance : ℕ → ℕ → ℤ
balance up down = if ltb up down then negsuc (down - up - 1) else pos (up - down)

infixl 65 ◌+ℤ◌ ◌-ℤ◌
infixl 70 ◌*ℤ◌
unfoldable pub ◌+ℤ◌ : ℤ → ℤ → ℤ
x +ℤ y = balance (positive_part x + positive_part y) (negative_part x + negative_part y)

unfoldable pub ◌-ℤ◌ : ℤ → ℤ → ℤ
x -ℤ y = balance (positive_part x + negative_part y) (negative_part x + positive_part y)

-- Whether the signs differ.
abbrev pub signs_differ : ℤ → ℤ → Bool
signs_differ x y = if is_negative x then not (is_negative y) else is_negative y

unfoldable pub ◌*ℤ◌ : ℤ → ℤ → ℤ
x *ℤ y = signed (signs_differ x y) (magnitude x * magnitude y)

unfoldable pub quotient : ℤ → ℤ → ℤ
quotient x y = signed (signs_differ x y) (magnitude x / magnitude y)

unfoldable pub remainder : ℤ → ℤ → ℤ
remainder x y = signed (is_negative x) (magnitude x % magnitude y)

-- `-x`
abbrev pub opposite : ℤ → ℤ
opposite x = signed (not (is_negative x)) (magnitude x)

-- `x < y`, `x <= y`, `x === y`
abbrev pub is_below : ℤ → ℤ → Bool
is_below x y = ltb (positive_part x + negative_part y) (positive_part y + negative_part x)

abbrev pub is_at_most : ℤ → ℤ → Bool
is_at_most x y = leb (positive_part x + negative_part y) (positive_part y + negative_part x)

abbrev pub is_same : ℤ → ℤ → Bool
is_same x y = nat_eq (positive_part x + negative_part y) (positive_part y + negative_part x)

-- `x << n`, and `x >> n`, which rounds down.
abbrev pub shift_left : ℤ → ℕ → ℤ
shift_left x n = signed (is_negative x) (magnitude x * 2 ^ n)

abbrev pub shift_right : ℤ → ℕ → ℤ
shift_right (pos m) n = pos (m / 2 ^ n)
shift_right (negsuc m) n = negsuc (m / 2 ^ n)

pub is_same_lem : (x y : ℤ) → is_same x y ≡ true → x ≡ y
is_same_lem x y h = ground arith

pub magnitude-signed : (s : Bool) (n : ℕ) → magnitude (signed s n) ≡ n
magnitude-signed false n = refl
magnitude-signed true zero = refl
magnitude-signed true (suc n) = refl
