-- ===== src/ControlStore/Insert/Search.antt =====
-- The binary search of `#insertOrder` finds the boundary of a test that is true on a prefix.
use chronolog_db.Prelude.{
  ℕ, zero, suc, ◌+◌, ◌-◌, ◌/◌, ◌≤◌, ◌<◌, ◌≡◌, refl, Bool, true, false, inl, inr, arith, ltb,
  Bool-cases,
}
use chronolog_db.ControlStore.Result.{Result, ok}
use chronolog_db.ControlStore.Insert.{lower_bound}

-- `k` is the boundary of `p` below `n`.
pub record IsBoundary (p : ℕ → Bool) (n k : ℕ) : Type 0 where
  pub within : k ≤ n
  pub before : (i : ℕ) → i < k → p i ≡ true
  pub behind : (i : ℕ) → k ≤ i → i < n → p i ≡ false

module _ (test : ℕ → Result Bool) (p : ℕ → Bool) (n : ℕ)
    (total : (i : ℕ) → i < n → test i ≡ ok (p i))
    (prefix : (i j : ℕ) → i < j → j < n → p j ≡ true → p i ≡ true) where
  -- A test that fails at `j` fails from `j` on.
  fails_after : (i j : ℕ) → j ≤ i → i < n → p j ≡ false → p i ≡ false
  fails_after i j h hi e = elim (Bool-cases (p i)) [
    | inl t ↦ elim (Bool-cases (ltb j i)) [
      | inl lt ↦ absurd (ground (arith, prefix j i))
      | inr ge ↦ let same : i ≡ j = ground arith in rw same e
    ]
    | inr f ↦ f
  ]

  holds_before : (i j : ℕ) → i ≤ j → j < n → p j ≡ true → p i ≡ true
  holds_before i j h hj e = elim (Bool-cases (ltb i j)) [
    | inl lt ↦ prefix i j (ground arith) hj e
    | inr ge ↦ let same : i ≡ j = ground arith in rw same e
  ]

  pub lower_bound-IsBoundary :
      (fuel low high : ℕ)
      → high - low ≤ fuel
      → low ≤ high
      → high ≤ n
      → ((i : ℕ) → i < low → p i ≡ true)
      → ((i : ℕ) → high ≤ i → i < n → p i ≡ false)
      → (k : ℕ) × (lower_bound test fuel low high ≡ ok k) × IsBoundary p n k
  unfolding lower_bound
  lower_bound-IsBoundary zero low high f lh hn below above =
      let same : high ≡ low = omega arith in
      (low, refl, record { within = omega arith; before = below; behind = rw same at above })
  lower_bound-IsBoundary (suc fuel) low high f lh hn below above =
      let middle = (low + high) / 2 in
      elim (Bool-cases (ltb low high)) [
        | inl lt ↦
            let lt' : low < high = ground arith in
            let inside : middle < high = omega arith in
            elim (Bool-cases (p middle)) [
              | inl t ↦
                  let (k, e, b) =
                    lower_bound-IsBoundary fuel (middle + 1) high (omega arith) (omega arith) hn
                      (λ i hi. holds_before i middle (omega arith) (omega arith) t) above in
                  (k, rw (lt, total middle (omega arith), t) e, b)
              | inr u ↦
                  let (k, e, b) =
                    lower_bound-IsBoundary fuel low middle (omega arith) (omega arith) (omega arith)
                      below (λ i hi hin. fails_after i middle hi hin u) in
                  (k, rw (lt, total middle (omega arith), u) e, b)
            ]
        | inr ge ↦
            let same : high ≡ low = ground arith in
            (low, rw ge, record { within = omega arith; before = below; behind = rw same at above })
      ]
