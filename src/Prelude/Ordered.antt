-- ===== src/Prelude/Ordered.antt =====
-- What sorting by a comparator gives: the elements in order, and every element still there.
use Prim.Native.Nat.{ℕ, zero, suc, ◌<◌, Ordering}
use mathlib.Core.Path.{◌≡◌, refl}
use mathlib.Core.Bool.{Bool, true, false}
use mathlib.Core.Logic.{inl, inr}
use mathlib.Core.Option.{some}
use mathlib.Core.List.{List, [], ◌∷◌}
use native.Mathlib.Omega.{arith}
use chronolog_db.Prelude.Tests.{Bool-cases}
use chronolog_db.Prelude.Lists.{get_elem?, take, All, Sorted}
use chronolog_db.Prelude.Compare.{IsLinear, flip}
use chronolog_db.Prelude.Sorting.{sort, insert_sorted, All-insert_sorted}

abbrev pub is_gt : Ordering → Bool
is_gt Ordering.gt = true
is_gt _ = false

-- The comparator's signs change with the order of the arguments, and "not behind" is transitive.
pub record IsPreorder {ℓ} {A : Type ℓ} (cmp : A → A → Ordering) : Type ℓ where
  pub flipped : (a b : A) → cmp b a ≡ flip (cmp a b)
  pub trans :
      (a b c : A) → is_gt (cmp a b) ≡ false → is_gt (cmp b c) ≡ false → is_gt (cmp a c) ≡ false

pub IsLinear-IsPreorder {ℓ} : {A : Type ℓ} {cmp : A → A → Ordering} → IsLinear cmp → IsPreorder cmp
IsLinear-IsPreorder l = record {
  flipped = l.flipped;
  trans = λ a b c h k. ground (arith, l.eq_iff a b, l.eq_iff b c, l.eq_iff a c, l.trans a b c);
}

module _ {ℓ} {A : Type ℓ} {cmp : A → A → Ordering} (o : IsPreorder cmp) where
  abbrev pub NotBehind : A → A → Type 0
  NotBehind a b = is_gt (cmp a b) ≡ false

  All-NotBehind :
      (x y : A) (ys : List A) → NotBehind x y → All (NotBehind y) ys → All (NotBehind x) ys
  All-NotBehind x y [] h all = tt
  All-NotBehind x y (z ∷ ys) h all = (o.trans x y z h all.0, All-NotBehind x y ys h all.1)

  insert_sorted-Sorted :
      (x : A) (ys : List A) → Sorted NotBehind ys → Sorted NotBehind (insert_sorted cmp x ys)
  unfolding insert_sorted
  insert_sorted-Sorted x [] s = (tt, tt)
  insert_sorted-Sorted x (y ∷ ys) s =
      let back = o.flipped x y in
      elim (Bool-cases (is_gt (cmp x y))) [
        | inl behind ↦
            let all = All-insert_sorted (NotBehind y) cmp x ys (ground (arith, back, behind)) s.0 in
            ground (arith, behind, all, insert_sorted-Sorted x ys s.1)
        | inr front ↦ ground (arith, front, All-NotBehind x y ys front s.0, s)
      ]

  pub sort-Sorted : (xs : List A) → Sorted NotBehind (sort cmp xs)
  unfolding sort
  sort-Sorted [] = tt
  sort-Sorted (x ∷ xs) = insert_sorted-Sorted x (sort cmp xs) (sort-Sorted xs)

module _ {ℓ} {A : Type ℓ} (cmp : A → A → Ordering) where
  insert_sorted-new :
      (x : A) (ys : List A) → (p : ℕ) × (get_elem? (insert_sorted cmp x ys) p ≡ some x)
  unfolding insert_sorted
  insert_sorted-new x [] = (zero, refl)
  insert_sorted-new x (y ∷ ys) =
      let (p, at) = insert_sorted-new x ys in
      elim (Bool-cases (is_gt (cmp x y))) [
        | inl behind ↦ (suc p, ground (arith, behind, at))
        | inr front ↦ (zero, ground (arith, front))
      ]

  insert_sorted-old :
      (x : A) (ys : List A) (j : ℕ) {y : A}
      → get_elem? ys j ≡ some y
      → (p : ℕ) × (get_elem? (insert_sorted cmp x ys) p ≡ some y)
  unfolding insert_sorted
  insert_sorted-old x [] j h = cc
  insert_sorted-old x (z ∷ ys) zero {y} h = elim (Bool-cases (is_gt (cmp x z))) [
    | inr front ↦ (suc zero, ground (arith, front, h))
    | inl behind ↦ (zero, ground (arith, behind, h))
  ]
  insert_sorted-old x (z ∷ ys) (suc j) {y} h =
      let (p, at) = insert_sorted-old x ys j h in
      elim (Bool-cases (is_gt (cmp x z))) [
        | inr front ↦ (suc (suc j), ground (arith, front, h))
        | inl behind ↦ (suc p, ground (arith, behind, at))
      ]

  pub sort-there :
      (xs : List A) (j : ℕ) {x : A}
      → get_elem? xs j ≡ some x
      → (p : ℕ) × (get_elem? (sort cmp xs) p ≡ some x)
  unfolding sort
  sort-there [] j h = cc
  sort-there (y ∷ xs) zero {x} h =
      let (p, at) = insert_sorted-new y (sort cmp xs) in (p, ground (arith, at, h))
  sort-there (y ∷ xs) (suc j) h =
      let (p, at) = sort-there xs j h in insert_sorted-old y (sort cmp xs) p at

module _ {ℓ} {A : Type ℓ} where
  pub take-get_elem? :
      (k : ℕ) (xs : List A) (i : ℕ) {x : A}
      → get_elem? (take k xs) i ≡ some x
      → (i < k) × (get_elem? xs i ≡ some x)
  take-get_elem? zero xs i h = cc
  take-get_elem? (suc k) [] i h = cc
  take-get_elem? (suc k) (y ∷ xs) zero h = (omega arith, h)
  take-get_elem? (suc k) (y ∷ xs) (suc i) h =
      let (lt, at) = take-get_elem? k xs i h in (omega arith, at)

  pub get_elem?-take :
      (k : ℕ) (xs : List A) (i : ℕ) {x : A}
      → i < k
      → get_elem? xs i ≡ some x
      → get_elem? (take k xs) i ≡ some x
  get_elem?-take zero xs i lt h = absurd (omega arith)
  get_elem?-take (suc k) [] i lt h = h
  get_elem?-take (suc k) (y ∷ xs) zero lt h = h
  get_elem?-take (suc k) (y ∷ xs) (suc i) lt h = get_elem?-take k xs i (omega arith) h
