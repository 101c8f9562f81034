-- ===== src/Prelude/Sublists.antt =====
-- Lists with elements left out, and what is counted in them.
use Prim.Native.Nat.{ℕ, zero, suc, ◌≤◌, ◌<◌}
use mathlib.Core.Path.{◌≡◌, refl}
use mathlib.Core.Bool.{Bool, true, false}
use mathlib.Core.Logic.{inl, inr}
use mathlib.Core.Option.{some}
use mathlib.Core.List.{List, [], ◌∷◌}
use native.Mathlib.Omega.{arith}
use chronolog_db.Prelude.Tests.{Bool-cases}
use chronolog_db.Prelude.Lists.{length, get_elem?}
use chronolog_db.Prelude.Sorting.{filter, any}

-- `xs` is `ys` with elements left out.
pub data SubOf {ℓ} {A : Type ℓ} : List A → List A → Type ℓ where
  done : SubOf [] []
  skip : {xs ys : List A} (y : A) → SubOf xs ys → SubOf xs (y ∷ ys)
  keep : {xs ys : List A} (y : A) → SubOf xs ys → SubOf (y ∷ xs) (y ∷ ys)

pub SubOf-refl {ℓ} : {A : Type ℓ} (xs : List A) → SubOf xs xs
SubOf-refl [] = done
SubOf-refl (x ∷ xs) = keep x (SubOf-refl xs)

pub any_more {ℓ} :
    {A : Type ℓ} (test : A → Bool) {xs ys : List A}
    → SubOf xs ys
    → any test xs ≡ true
    → any test ys ≡ true
unfolding any
any_more test done h = h
any_more test (skip y sub) h = ground (arith, any_more test sub h)
any_more test (keep y sub) h = ground (arith, any_more test sub)

pub count_more {ℓ} :
    {A : Type ℓ} (test : A → Bool) {xs ys : List A}
    → SubOf xs ys
    → length (filter test xs) ≤ length (filter test ys)
unfolding filter
count_more test done = omega arith
count_more test (skip y sub) = ground (arith, count_more test sub)
count_more test (keep y sub) = ground (arith, count_more test sub)

pub length_more {ℓ} : {A : Type ℓ} {xs ys : List A} → SubOf xs ys → length xs ≤ length ys
length_more done = omega arith
length_more (skip y sub) = omega (arith, length_more sub)
length_more (keep y sub) = omega (arith, length_more sub)

-- If a test does not hold of as many elements as there are, it fails at one.
pub filter-fails {ℓ} :
    {A : Type ℓ} (test : A → Bool) (xs : List A)
    → length (filter test xs) < length xs
    → (i : ℕ) × (x : A) × (get_elem? xs i ≡ some x) × (test x ≡ false)
unfolding filter
filter-fails test [] h = absurd (omega arith)
filter-fails test (x ∷ xs) h = elim (Bool-cases (test x)) [
  | inr fails ↦ (zero, x, refl, fails)
  | inl holds ↦ let (i, y, at, fails) = filter-fails test xs (ground arith) in (suc i, y, at, fails)
]
