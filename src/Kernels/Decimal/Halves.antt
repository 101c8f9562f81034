-- ===== src/Kernels/Decimal/Halves.antt =====
-- For packages/kernels/src/decimal.ts: the modes that round to the nearest quotient.
use chronolog_db.Kernels.Decimal.{half_up, half_down, half_even, round_up_or_down}
use chronolog_db.Prelude.Int.{ℤ, pos, signed, magnitude, remainder, is_same}
use chronolog_db.Prelude.{
  ℕ, suc, ◌+◌, ◌*◌, ◌<◌, ◌≡◌, ◌⊎◌, inl, inr, Bool, true, false, not, arith, Bool-cases, ltb, ltb→lt,
}
use chronolog_db.Kernels.{gives}
use chronolog_db.Kernels.Decimal.Modes.{
  Near, Rounds, step_away, ltb-false, suc-mul, odd_suc, even_lem, odd_lem, Candidate,
}

-- What is known of the remainder when it is doubled.
abbrev pub Doubled : ℕ → ℕ → Type 0
Doubled rest b =
    (ltb (rest * 2) b ≡ true)
    ⊎ ((ltb (rest * 2) b ≡ false) × (ltb b (rest * 2) ≡ true))
    ⊎ ((ltb (rest * 2) b ≡ false) × (ltb b (rest * 2) ≡ false) × (rest * 2 ≡ b))

Doubled-cases : (rest b : ℕ) → Doubled rest b
Doubled-cases rest b = elim (Bool-cases (ltb (rest * 2) b)) [
  | inl less ↦ inl less
  | inr small ↦ elim (Bool-cases (ltb b (rest * 2))) [
    | inl more ↦ inr (inl (small, more))
    | inr tie ↦
        inr (
          inr (small, tie, omega (arith, ltb-false (rest * 2) b small, ltb-false b (rest * 2) tie)))
  ]
]

-- The truncated quotient is nearer below a half, and the next one above it.
abbrev Under : ℕ → ℕ → ℕ → Type 0
Under a b m = Near a b m × (2 * a < 2 * (m * b) + b) × (2 * (m * b) < 2 * a + b)

under : (a b m rest : ℕ) → m * b + rest ≡ a → rest < b → ltb (rest * 2) b ≡ true → Under a b m
under a b m rest law hi less =
    let lt = ltb→lt (rest * 2) b less in
    ((omega (arith, lt), omega (arith, lt)), omega (arith, lt), omega (arith, lt))

over : (a b m rest : ℕ) → m * b + rest ≡ a → rest < b → ltb b (rest * 2) ≡ true → Under a b (suc m)
over a b m rest law hi more =
    let lt = ltb→lt b (rest * 2) more in
    let next = suc-mul m b in
    (
      (omega (arith, lt, next), omega (arith, lt, next)),
      omega (arith, lt, next),
      omega (arith, lt, next),
    )

-- At a half both are as near.
tied_low : (a b m rest : ℕ) → m * b + rest ≡ a → rest * 2 ≡ b → Near a b m
tied_low a b m rest law half = (omega arith, omega arith)

tied_high : (a b m rest : ℕ) → m * b + rest ≡ a → rest * 2 ≡ b → Near a b (suc m)
tied_high a b m rest law half = (omega (arith, suc-mul m b), omega (arith, suc-mul m b))

pub half_up-Candidate :
    (s : Bool) (a b m rest : ℕ) (r d c : ℤ)
    → m * b + rest ≡ a
    → rest < b
    → magnitude r ≡ rest
    → magnitude d ≡ b
    → round_up_or_down half_up (not s) (signed s m) r d ≡ gives c
    → Candidate half_up s a b c
unfolding Candidate Rounds
half_up-Candidate s a b m rest r d c law hi er ed h = elim (Doubled-cases rest b) [
  | inl less ↦
      let u = under a b m rest law hi less in (m, ground (arith, less, er, ed, h), (u.0, u.1))
  | inr (inl (small, more)) ↦
      let u = over a b m rest law hi more in
      (suc m, ground (arith, small, more, er, ed, h, step_away s m), (u.0, u.1))
  | inr (inr (small, tie, half)) ↦ (
    suc m,
    ground (arith, small, tie, er, ed, h, step_away s m),
    (tied_high a b m rest law half, omega (arith, half, suc-mul m b)),
  )
]

pub half_down-Candidate :
    (s : Bool) (a b m rest : ℕ) (r d c : ℤ)
    → m * b + rest ≡ a
    → rest < b
    → magnitude r ≡ rest
    → magnitude d ≡ b
    → round_up_or_down half_down (not s) (signed s m) r d ≡ gives c
    → Candidate half_down s a b c
unfolding Candidate Rounds
half_down-Candidate s a b m rest r d c law hi er ed h = elim (Doubled-cases rest b) [
  | inl less ↦
      let u = under a b m rest law hi less in (m, ground (arith, less, er, ed, h), (u.0, u.2))
  | inr (inl (small, more)) ↦
      let u = over a b m rest law hi more in
      (suc m, ground (arith, small, more, er, ed, h, step_away s m), (u.0, u.2))
  | inr (inr (small, tie, half)) ↦ (
    m,
    ground (arith, small, tie, er, ed, h),
    (tied_low a b m rest law half, omega (arith, half)),
  )
]

pub half_even-Candidate :
    (s : Bool) (a b m rest : ℕ) (r d c : ℤ)
    → m * b + rest ≡ a
    → rest < b
    → magnitude r ≡ rest
    → magnitude d ≡ b
    → round_up_or_down half_even (not s) (signed s m) r d ≡ gives c
    → Candidate half_even s a b c
unfolding Candidate Rounds
half_even-Candidate s a b m rest r d c law hi er ed h = elim (Doubled-cases rest b) [
  | inl less ↦
      let u = under a b m rest law hi less in
      (m, ground (arith, less, er, ed, h), (u.0, inl (u.1, u.2)))
  | inr (inl (small, more)) ↦
      let u = over a b m rest law hi more in
      (suc m, ground (arith, small, more, er, ed, h, step_away s m), (u.0, inl (u.1, u.2)))
  | inr (inr (small, tie, half)) ↦
      elim (Bool-cases (is_same (remainder (signed s m) (pos 2)) (pos 0))) [
        | inl even ↦ (
          m,
          ground (arith, small, tie, even, er, ed, h),
          (tied_low a b m rest law half, inr (even_lem s m even)),
        )
        | inr odd ↦ (
          suc m,
          ground (arith, small, tie, odd, er, ed, h, step_away s m),
          (tied_high a b m rest law half, inr (odd_suc m (odd_lem s m odd))),
        )
      ]
]
