-- ===== src/Prelude/Positions.antt =====
-- Predicates on every element and sorted lists, by position and under an insertion.
use Prim.Native.Nat.{ℕ, zero, suc, ◌≤◌, ◌<◌}
use mathlib.Core.Path.{◌≡◌, refl, subst}
use mathlib.Core.List.{List, [], ◌∷◌, ◌++◌}
use mathlib.Core.Option.{some}
use native.Mathlib.Omega.{arith}
use chronolog_db.Prelude.Lists.{get_elem?, take, drop, All, Sorted}

-- `splice(low, 0, x)`
abbrev pub insert_at {ℓ} : {A : Type ℓ} → ℕ → A → List A → List A
insert_at low x xs = take low xs ++ x ∷ drop low xs

module _ {ℓ κ} {A : Type ℓ} (P : A → Type κ) where
  pub All-take :
      (k : ℕ) (xs : List A)
      → ((i : ℕ) (y : A) → i < k → get_elem? xs i ≡ some y → P y)
      → All P (take k xs)
  All-take zero xs h = tt
  All-take (suc k) [] h = tt
  All-take (suc k) (x ∷ xs) h =
      (h zero x (omega arith) refl, All-take k xs (λ i y hi e. h (suc i) y (omega arith) e))

  pub All-drop :
      (k : ℕ) (xs : List A)
      → ((i : ℕ) (y : A) → k ≤ i → get_elem? xs i ≡ some y → P y)
      → All P (drop k xs)
  All-drop zero [] h = tt
  All-drop zero (x ∷ xs) h =
      (h zero x (omega arith) refl, All-drop zero xs (λ i y hi e. h (suc i) y (omega arith) e))
  All-drop (suc k) [] h = tt
  All-drop (suc k) (x ∷ xs) h = All-drop k xs (λ i y hi e. h (suc i) y (omega arith) e)

  pub All-get_elem? : (xs : List A) (i : ℕ) {y : A} → All P xs → get_elem? xs i ≡ some y → P y
  All-get_elem? [] i h e = cc
  All-get_elem? (x ∷ xs) zero {y} h e = subst P (cc) h.0
  All-get_elem? (x ∷ xs) (suc i) h e = All-get_elem? xs i h.1 e

  pub All-insert_at : (k : ℕ) (x : A) (xs : List A) → P x → All P xs → All P (insert_at k x xs)
  All-insert_at zero x xs p h = (p, h)
  All-insert_at (suc k) x [] p h = (p, tt)
  All-insert_at (suc k) x (y ∷ ys) p h = (h.0, All-insert_at k x ys p h.1)

module _ {ℓ κ} {A : Type ℓ} (R : A → A → Type κ) where
  pub Sorted-get_elem? :
      (xs : List A) (i j : ℕ) {x y : A}
      → Sorted R xs
      → i < j
      → get_elem? xs i ≡ some x
      → get_elem? xs j ≡ some y
      → R x y
  Sorted-get_elem? [] i j h lt e f = cc
  Sorted-get_elem? (z ∷ zs) i zero h lt e f = absurd (omega arith)
  Sorted-get_elem? (z ∷ zs) zero (suc j) {x} {y} h lt e f =
      subst (λ w. R w y) (cc) (All-get_elem? (R z) zs j h.0 f)
  Sorted-get_elem? (z ∷ zs) (suc i) (suc j) h lt e f = Sorted-get_elem? zs i j h.1 (omega arith) e f

  pub Sorted-insert_at :
      (k : ℕ) (x : A) (xs : List A)
      → Sorted R xs
      → All (λ y. R y x) (take k xs)
      → All (R x) (drop k xs)
      → Sorted R (insert_at k x xs)
  Sorted-insert_at zero x xs s before behind = (behind, s)
  Sorted-insert_at (suc k) x [] s before behind = (tt, tt)
  Sorted-insert_at (suc k) x (y ∷ ys) s before behind =
      (All-insert_at (R y) k x ys before.0 s.0, Sorted-insert_at k x ys s.1 before.1 behind)

module _ {ℓ κ μ} {A : Type ℓ} {P : A → Type κ} {Q : A → Type μ} where
  pub All-map : (xs : List A) → All P xs → ((x : A) → P x → Q x) → All Q xs
  All-map [] h f = tt
  All-map (x ∷ xs) h f = (f x h.0, All-map xs h.1 f)

module _ {ℓ κ μ} {A : Type ℓ} {R : A → A → Type κ} {S : A → A → Type μ} where
  pub Sorted-map : (xs : List A) → Sorted R xs → ((x y : A) → R x y → S x y) → Sorted S xs
  Sorted-map [] h f = tt
  Sorted-map (x ∷ xs) h f = (All-map xs h.0 (f x), Sorted-map xs h.1 f)
