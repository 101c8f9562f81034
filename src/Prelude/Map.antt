-- ===== src/Prelude/Map.antt =====
-- A JavaScript `Map`: entries in the order of first insertion; a write to a present key keeps its
-- place.
use mathlib.Core.Path.{◌≡◌, refl}
use mathlib.Core.Logic.{◌≢◌}
use mathlib.Core.Bool.{Bool, true, false}
use mathlib.Core.Option.{Option, none, some}
use mathlib.Core.List.{List, [], ◌∷◌, map}
use native.Mathlib.Omega.{arith}
use chronolog_db.Prelude.Tests.{if◌then◌else◌}
use chronolog_db.Prelude.Equality.{HasEquality, ◌==◌, beq_refl, beq_ne}

abbrev pub Map {ℓ κ} : Type ℓ → Type κ → Type (ℓ ⊔ κ)
Map K V = List (K × V)

module _ {ℓ κ} {K : Type ℓ} {V : Type κ} ⦃e : HasEquality K⦄ where
  unfoldable pub get : Map K V → K → Option V
  get [] k = none
  get ((j, v) ∷ m) k = if j == k then some v else get m k

  unfoldable pub has : Map K V → K → Bool
  has m k = elim (get m k) [ none ↦ false | some _ ↦ true ]

  unfoldable pub set : Map K V → K → V → Map K V
  set [] k v = (k, v) ∷ []
  set ((j, w) ∷ m) k v = if j == k then (j, v) ∷ m else (j, w) ∷ set m k v

  unfoldable pub delete : Map K V → K → Map K V
  delete [] k = []
  delete ((j, w) ∷ m) k = let rest = delete m k in if j == k then rest else (j, w) ∷ rest

  pub get-set :
      (m : Map K V) (k j : K) (v : V) → get (set m k v) j ≡ (if k == j then some v else get m j)
  unfolding get set
  get-set [] k j v = refl
  get-set ((i, w) ∷ m) k j v =
      ground (arith, e.agrees_iff i k, e.agrees_iff i j, e.agrees_iff k j, get-set m k j v)

  pub get-set_self : (m : Map K V) (k : K) (v : V) → get (set m k v) k ≡ some v
  get-set_self m k v = ground (arith, get-set m k k v, beq_refl k)

  pub get-set_ne : (m : Map K V) (k j : K) (v : V) → k ≢ j → get (set m k v) j ≡ get m j
  get-set_ne m k j v h = ground (arith, get-set m k j v, beq_ne k j h)

module _ {ℓ κ} {K : Type ℓ} {V : Type κ} ⦃e : HasEquality K⦄ where
  delete_absent : (m : Map K V) (k : K) → get m k ≡ none → delete m k ≡ m
  unfolding get delete
  delete_absent [] k h = refl
  delete_absent ((j, w) ∷ m) k h = ground (arith, delete_absent m k)

  -- To delete a key that was just added restores the map.
  pub delete-set : (m : Map K V) (k : K) (v : V) → get m k ≡ none → delete (set m k v) k ≡ m
  unfolding get set delete
  delete-set [] k v h = ground (arith, beq_refl k)
  delete-set ((j, w) ∷ m) k v h = ground (arith, delete-set m k v)

  -- To write the old value of a key back restores the map.
  pub set-set : (m : Map K V) (k : K) (v w : V) → get m k ≡ some w → set (set m k v) k w ≡ m
  unfolding get set
  set-set [] k v w h = cc
  set-set ((j, x) ∷ m) k v w h = ground (arith, set-set m k v w)

module _ {ℓ κ} {K : Type ℓ} {V : Type κ} where
  abbrev pub values : Map K V → List V
  values = map (λ p. p.1)

  abbrev pub keys : Map K V → List K
  keys = map (λ p. p.0)
