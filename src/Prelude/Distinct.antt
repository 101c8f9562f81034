-- ===== src/Prelude/Distinct.antt =====
-- Lists whose elements are pairwise related by a symmetric relation, as by "different", and sorting.
use Prim.Native.Nat.{Ordering}
use mathlib.Core.Path.{◌≡◌, subst, sym}
use mathlib.Core.Bool.{true, false}
use mathlib.Core.Logic.{inl, inr, ◌↔◌}
use mathlib.Core.List.{List, [], ◌∷◌}
use native.Mathlib.Omega.{arith}
use chronolog_db.Prelude.Tests.{Bool-cases}
use chronolog_db.Prelude.Lists.{All, Sorted}
use chronolog_db.Prelude.Sorting.{sort, insert_sorted, All-insert_sorted, All-sort}
use chronolog_db.Prelude.Ordered.{is_gt}

module _ {ℓ} {A : Type ℓ} (cmp : A → A → Ordering) where
  insert_sorted-front :
      (x y : A) (ys : List A) → is_gt (cmp x y) ≡ false → insert_sorted cmp x (y ∷ ys) ≡ x ∷ y ∷ ys
  unfolding insert_sorted
  insert_sorted-front x y ys h = ground (arith, h)

  insert_sorted-behind :
      (x y : A) (ys : List A)
      → is_gt (cmp x y) ≡ true
      → insert_sorted cmp x (y ∷ ys) ≡ y ∷ insert_sorted cmp x ys
  unfolding insert_sorted
  insert_sorted-behind x y ys h = ground (arith, h)

module _ {ℓ κ} {A : Type ℓ} (P : A → Type κ) (cmp : A → A → Ordering) where
  All-uninserted : (x : A) (ys : List A) → All P (insert_sorted cmp x ys) → P x × All P ys
  unfolding insert_sorted
  All-uninserted x [] h = (h.0, tt)
  All-uninserted x (y ∷ ys) h = elim (Bool-cases (is_gt (cmp x y))) [
    | inr front ↦ subst (All P) (insert_sorted-front cmp x y ys front) h
    | inl behind ↦
        let all = subst (All P) (insert_sorted-behind cmp x y ys behind) h in
        let (new, old) = All-uninserted x ys all.1 in (new, (all.0, old))
  ]

  All-unsorted : (xs : List A) → All P (sort cmp xs) → All P xs
  unfolding sort
  All-unsorted [] h = tt
  All-unsorted (x ∷ xs) h =
      let (new, old) = All-uninserted x (sort cmp xs) h in (new, All-unsorted xs old)

module _ {ℓ κ} {A : Type ℓ} (D : A → A → Type κ) (symmetric : (a b : A) → D a b → D b a)
    (cmp : A → A → Ordering) where
  Sorted-insert_sorted :
      (x : A) (ys : List A) → All (D x) ys × Sorted D ys → Sorted D (insert_sorted cmp x ys)
  unfolding insert_sorted
  Sorted-insert_sorted x [] h = (tt, tt)
  Sorted-insert_sorted x (y ∷ ys) h = elim (Bool-cases (is_gt (cmp x y))) [
    | inr front ↦ subst (Sorted D) (sym (insert_sorted-front cmp x y ys front)) h
    | inl behind ↦
        let rest = Sorted-insert_sorted x ys (h.0.1, h.1.1) in
        let all = All-insert_sorted (D y) cmp x ys (symmetric x y h.0.0) h.1.0 in
        subst (Sorted D) (sym (insert_sorted-behind cmp x y ys behind)) (all, rest)
  ]

  Sorted-uninserted :
      (x : A) (ys : List A) → Sorted D (insert_sorted cmp x ys) → All (D x) ys × Sorted D ys
  unfolding insert_sorted
  Sorted-uninserted x [] h = (tt, tt)
  Sorted-uninserted x (y ∷ ys) h = elim (Bool-cases (is_gt (cmp x y))) [
    | inr front ↦ subst (Sorted D) (insert_sorted-front cmp x y ys front) h
    | inl behind ↦
        let split = subst (Sorted D) (insert_sorted-behind cmp x y ys behind) h in
        let (of_y, others) = All-uninserted (D y) cmp x ys split.0 in
        let (of_x, rest) = Sorted-uninserted x ys split.1 in
        ((symmetric y x of_y, of_x), (others, rest))
  ]

  -- A list is pairwise related exactly if the sorted list is.
  pub sort-Sorted_iff : (xs : List A) → Sorted D (sort cmp xs) ↔ Sorted D xs
  unfolding sort
  sort-Sorted_iff [] = ((λ h. tt), (λ h. tt))
  sort-Sorted_iff (x ∷ xs) = (
    (λ h.
        let (all, rest) = Sorted-uninserted x (sort cmp xs) h in
        let back = (sort-Sorted_iff xs).0 rest in (All-unsorted (D x) cmp xs all, back)),
    (λ h.
        Sorted-insert_sorted x (sort cmp xs)
          (All-sort (D x) cmp xs h.0, (sort-Sorted_iff xs).1 h.1)),
  )
