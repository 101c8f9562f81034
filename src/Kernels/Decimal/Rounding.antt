-- ===== src/Kernels/Decimal/Rounding.antt =====
-- What the rounding modes of packages/kernels/src/decimal.ts promise of a quotient.
use native.Mathlib.Nat.{div-add-mod', mod-lt}
use chronolog_db.Kernels.Decimal.{
  rounded_quotient, RoundingMode, exact, toward_zero, floor, ceiling, half_up, half_down, half_even,
  round_up_or_down,
}
use chronolog_db.Prelude.Int.{
  magnitude-signed, quotient, signs_differ, is_negative, ℤ, pos, signed, magnitude, remainder,
  is_same,
}
use chronolog_db.Prelude.{
  ◌/◌, refl, ℕ, suc, ◌+◌, ◌*◌, ◌%◌, ◌<◌, ◌≡◌, inl, inr, Bool, true, false, not, arith, Bool-cases,
}
use chronolog_db.Kernels.{gives}
use chronolog_db.Kernels.Decimal.Modes.{
  Rounds, step_away, step_down, Rounds-exact, suc-mul, Candidate,
}
use chronolog_db.Kernels.Decimal.Halves.{
  half_up-Candidate, half_down-Candidate, half_even-Candidate,
}

round_up_or_down-Candidate :
    (mode : RoundingMode) (s : Bool) (a b m rest : ℕ) (r d c : ℤ)
    → m * b + rest ≡ a
    → 0 < rest
    → rest < b
    → magnitude r ≡ rest
    → magnitude d ≡ b
    → round_up_or_down mode (not s) (signed s m) r d ≡ gives c
    → Candidate mode s a b c
unfolding Candidate Rounds
round_up_or_down-Candidate exact s a b m rest r d c law lo hi er ed h = ground arith
round_up_or_down-Candidate toward_zero s a b m rest r d c law lo hi er ed h =
    (m, ground arith, omega arith)
round_up_or_down-Candidate floor false a b m rest r d c law lo hi er ed h =
    (m, ground arith, omega arith)
round_up_or_down-Candidate floor true a b m rest r d c law lo hi er ed h =
    (suc m, ground (arith, step_down m), omega (arith, suc-mul m b))
round_up_or_down-Candidate ceiling false a b m rest r d c law lo hi er ed h =
    (suc m, ground (arith, step_away false m), omega (arith, suc-mul m b))
round_up_or_down-Candidate ceiling true a b m rest r d c law lo hi er ed h =
    (m, ground arith, omega arith)
round_up_or_down-Candidate half_up s a b m rest r d c law lo hi er ed h =
    half_up-Candidate s a b m rest r d c law hi er ed h
round_up_or_down-Candidate half_down s a b m rest r d c law lo hi er ed h =
    half_down-Candidate s a b m rest r d c law hi er ed h
round_up_or_down-Candidate half_even s a b m rest r d c law lo hi er ed h =
    half_even-Candidate s a b m rest r d c law hi er ed h

magnitude-remainder : (n d : ℤ) → magnitude (remainder n d) ≡ magnitude n % magnitude d
unfolding remainder
magnitude-remainder n d = magnitude-signed (is_negative n) (magnitude n % magnitude d)

magnitude_zero : (r : ℤ) → is_same r (pos 0) ≡ true → magnitude r ≡ 0
magnitude_zero r h = ground arith

magnitude_positive : (r : ℤ) → is_same r (pos 0) ≡ false → 0 < magnitude r
magnitude_positive r h = ground arith

-- A quotient that is returned is the exact quotient rounded as the mode says: towards zero, down, up,
-- or to the nearest integer, where half-up takes a tie away from zero, half-down towards zero and
-- half-even to the even one; `exact` returns only exact quotients. Its sign is that of the exact
-- quotient.
pub rounded_quotient-Rounds :
    (n d c : ℤ) (mode : RoundingMode)
    → rounded_quotient n d mode ≡ gives c
    → (k : ℕ) × (c ≡ signed (signs_differ n d) k)
      × Rounds mode (signs_differ n d) (magnitude n) (magnitude d) k
unfolding rounded_quotient quotient Candidate
rounded_quotient-Rounds n d c mode h =
    let s = signs_differ n d in
    let m = magnitude n / magnitude d in
    let law = div-add-mod' (magnitude n) (magnitude d) in
    let nonzero : 0 < magnitude d = ground (arith, magnitude_positive d, h) in
    elim (Bool-cases (is_same (remainder n d) (pos 0))) [
      | inl whole ↦
          let none_left = magnitude_zero (remainder n d) whole in
          let fits : m * magnitude d ≡ magnitude n =
            omega (arith, law, none_left, magnitude-remainder n d) in
          (
            m,
            ground (arith, whole, h),
            Rounds-exact mode s (magnitude n) (magnitude d) m nonzero fits,
          )
      | inr rest ↦
          let some_left = magnitude_positive (remainder n d) rest in
          let less : magnitude n % magnitude d < magnitude d = mod-lt (magnitude n) nonzero in
          round_up_or_down-Candidate mode s (magnitude n) (magnitude d) m
            (magnitude n % magnitude d) (remainder n d) d c law
            (omega (arith, some_left, magnitude-remainder n d)) less (magnitude-remainder n d) refl
            (ground (arith, rest, h))
    ]
