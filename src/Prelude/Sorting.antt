-- ===== src/Prelude/Sorting.antt =====
-- Array methods: `filter`, `some`, and `sort` with a comparator, which is stable.
use Prim.Native.Nat.{◌+◌, Ordering}
use mathlib.Core.Path.{◌≡◌, refl}
use mathlib.Core.Bool.{Bool, false, ◌||◌}
use mathlib.Core.List.{List, [], ◌∷◌, ◌++◌}
use native.Mathlib.Omega.{arith}
use chronolog_db.Prelude.Tests.{if◌then◌else◌}
use chronolog_db.Prelude.Lists.{length, All}

module _ {ℓ} {A : Type ℓ} where
  unfoldable pub filter : (A → Bool) → List A → List A
  filter test [] = []
  filter test (x ∷ xs) = let rest = filter test xs in if test x then x ∷ rest else rest

  unfoldable pub any : (A → Bool) → List A → Bool
  any test [] = false
  any test (x ∷ xs) = test x || any test xs

  unfoldable pub insert_sorted : (A → A → Ordering) → A → List A → List A
  insert_sorted cmp x [] = x ∷ []
  insert_sorted cmp x (y ∷ ys) =
      let rest = insert_sorted cmp x ys in
      elim (cmp x y) [ Ordering.gt ↦ y ∷ rest | _ ↦ x ∷ y ∷ ys ]

  unfoldable pub sort : (A → A → Ordering) → List A → List A
  sort cmp [] = []
  sort cmp (x ∷ xs) = insert_sorted cmp x (sort cmp xs)

  pub length-filter-append :
      (test : A → Bool) (xs ys : List A)
      → length (filter test (xs ++ ys)) ≡ length (filter test xs) + length (filter test ys)
  unfolding filter
  length-filter-append test [] ys = omega arith
  length-filter-append test (x ∷ xs) ys = ground (arith, length-filter-append test xs ys)

  pub any-append :
      (test : A → Bool) (xs ys : List A) → any test (xs ++ ys) ≡ (any test xs || any test ys)
  unfolding any
  any-append test [] ys = refl
  any-append test (x ∷ xs) ys = ground (arith, any-append test xs ys)

module _ {ℓ κ} {A : Type ℓ} (P : A → Type κ) (cmp : A → A → Ordering) where
  pub All-insert_sorted : (x : A) (xs : List A) → P x → All P xs → All P (insert_sorted cmp x xs)
  unfolding insert_sorted
  All-insert_sorted x [] p h = (p, tt)
  All-insert_sorted x (y ∷ ys) p h = ground (arith, All-insert_sorted x ys p h.1)

  -- Sorting keeps what holds of every element.
  pub All-sort : (xs : List A) → All P xs → All P (sort cmp xs)
  unfolding sort
  All-sort [] h = tt
  All-sort (x ∷ xs) h = All-insert_sorted x (sort cmp xs) h.0 (All-sort xs h.1)
