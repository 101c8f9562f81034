-- ===== src/ControlStore/Order/Convergence.antt =====
-- The order does not depend on how the candidates arrived: it is determined by which are admissible
-- and by their order keys.
use chronolog_db.Prelude.{
  ◌≡◌, refl, sym, ◌∙◌, ap₂, subst, true, false, inl, inr, Option, none, some, List, [], ◌∷◌, arith,
  All, Sorted, Bool-cases, beq_refl,
}
use chronolog_db.Bytes.{Bytes, bytes_equal}
use chronolog_db.Bytes.Laws.{Bytes_eq, bytes_equal_iff}
use chronolog_db.OrderKey.{TransactionOrderKey, compare_transaction_order-IsLinear}
use chronolog_db.ControlStore.Candidates.{has_ref}
use chronolog_db.ControlStore.Order.{Candidates, Before, key_of, key_before, admitted, OrderIsValid}

pub All-has_ref {κ} :
    (P : Bytes → Type κ) (ids : List Bytes) (x : Bytes) → All P ids → has_ref ids x ≡ true → P x
unfolding has_ref
All-has_ref P [] x h e = ground arith
All-has_ref P (y ∷ ids) x h e = elim (Bool-cases (bytes_equal y x)) [
  | inl t ↦ subst P ((bytes_equal_iff y x).0 t) h.0
  | inr f ↦ All-has_ref P ids x h.1 (ground arith)
]

pub All-of_has_ref {κ} :
    (P : Bytes → Type κ) (ids : List Bytes) → ((x : Bytes) → has_ref ids x ≡ true → P x) → All P ids
All-of_has_ref P [] h = tt
All-of_has_ref P (y ∷ ids) h = (
  h y (unfold has_ref in rw (beq_refl y) refl),
  All-of_has_ref P ids (λ x e. h x (unfold has_ref in ground arith)),
)

-- A strictly sorted list does not repeat its head.
not_in_tail :
    (R : Bytes → Bytes → Type 0)
    → ((x : Bytes) → R x x → ⊥)
    → (x : Bytes) (xs : List Bytes) → All (R x) xs
    → has_ref xs x ≡ false
not_in_tail R irreflexive x xs h = elim (Bool-cases (has_ref xs x)) [
  | inl t ↦ absurd (irreflexive x (All-has_ref (R x) xs x h t))
  | inr f ↦ f
]

module _ {R S : Bytes → Bytes → Type 0} (P : Bytes → Type 0) (irreflexive : (x : Bytes) → R x x → ⊥)
    (irreflexive' : (x : Bytes) → S x x → ⊥)
    (opposite : (x y : Bytes) → P x → P y → R x y → S y x → ⊥) where
  -- Two strictly sorted lists with the same elements are the same.
  Sorted-unique :
      (xs ys : List Bytes)
      → Sorted R xs
      → Sorted S ys
      → All P xs
      → All P ys
      → ((id : Bytes) → has_ref xs id ≡ has_ref ys id)
      → xs ≡ ys
  unfolding has_ref
  Sorted-unique [] [] s t p q same = refl
  Sorted-unique [] (y ∷ ys) s t p q same = absurd (ground (arith, same y, beq_refl y))
  Sorted-unique (x ∷ xs) [] s t p q same = absurd (ground (arith, same x, beq_refl x))
  Sorted-unique (x ∷ xs) (y ∷ ys) s t p q same = elim (Bool-cases (bytes_equal x y)) [
    | inl e ↦
        let head : x ≡ y = (bytes_equal_iff x y).0 e in
        ap₂ ◌∷◌ head (
          Sorted-unique xs ys s.1 t.1 p.1 q.1 (λ id.
            let a = not_in_tail R irreflexive x xs s.0 in
            let b = not_in_tail S irreflexive' y ys t.0 in
            ground (arith, same id, bytes_equal_iff x id, bytes_equal_iff y id)))
    | inr f ↦ absurd (
        opposite x y p.0 q.0 (All-has_ref (R x) xs y s.0 (ground (arith, same y, beq_refl y))) (
          All-has_ref (S y) ys x t.0
            (ground (arith, same x, beq_refl x, bytes_equal_iff x y, bytes_equal_iff y x))))
  ]

key_before_irreflexive : (k : Option TransactionOrderKey) → key_before k k ≡ true → ⊥
key_before_irreflexive none h = cc
key_before_irreflexive (some k) h = ground (arith, compare_transaction_order-IsLinear.eq_iff k k)

key_before_asymmetric :
    (k l : Option TransactionOrderKey) → key_before k l ≡ true → key_before l k ≡ true → ⊥
key_before_asymmetric none l h g = cc
key_before_asymmetric (some k) none h g = cc
key_before_asymmetric (some k) (some l) h g =
    ground (arith, compare_transaction_order-IsLinear.flipped k l)

-- Two stores that hold the same transactions as admissible, with the same order keys, have the same
-- replay order, in whatever order the candidates, attestations and evaluations reached them.
pub order_determined :
    (m m' : Candidates) (ids ids' : List Bytes)
    → OrderIsValid m ids
    → OrderIsValid m' ids'
    → ((id : Bytes) → admitted m id ≡ admitted m' id)
    → ((id : Bytes) → admitted m id ≡ true → key_of m id ≡ key_of m' id)
    → ids ≡ ids'
order_determined m m' ids ids' h h' same keys =
    Sorted-unique {R = Before m} {S = Before m'} (λ id. admitted m id ≡ true)
      (λ x. key_before_irreflexive (key_of m x)) (λ x. key_before_irreflexive (key_of m' x))
      (λ x y a b before after.
        key_before_asymmetric (key_of m x) (key_of m y) before (rw (keys x a, keys y b) after))
      ids ids' h.sorted h'.sorted
      (All-of_has_ref (λ id. admitted m id ≡ true) ids (λ x e. sym (h.complete x) ∙ e))
      (All-of_has_ref (λ id. admitted m id ≡ true) ids' (λ x e. same x ∙ sym (h'.complete x) ∙ e))
      (λ id. h.complete id ∙ same id ∙ sym (h'.complete id))
