-- ===== src/Prelude/Equality.antt =====
-- Equality tests with their law: the `===` of the source on strings and numbers, and its
-- comparison of structures.
use Prim.Native.Nat.{ℕ}
use Prim.Native.String.{String}
use mathlib.Core.Path.{◌≡◌, refl}
use mathlib.Core.Logic.{◌↔◌, ◌≢◌}
use mathlib.Core.Bool.{Bool, true, false, ◌&&◌}
use mathlib.Core.Option.{Option, none, some}
use mathlib.Core.List.{List, [], ◌∷◌}
use native.Mathlib.Omega.{arith}
use text.Mathlib.Text.{◌==◌ as str_eq}
use text.Mathlib.TextEquality.{eq_iff}
use chronolog_db.Prelude.Tests.{nat_eq, nat_eq_iff}

-- A test on the values of a type that holds exactly at equal ones.
pub record HasEquality {ℓ} (K : Type ℓ) : Type ℓ where
  pub agrees : K → K → Bool
  pub agrees_iff : (x y : K) → (agrees x y ≡ true) ↔ (x ≡ y)

abbrev pub ◌==◌ {ℓ} : {K : Type ℓ} ⦃k : HasEquality K⦄ → K → K → Bool
◌==◌ ⦃k⦄ x y = k.agrees x y

infix 50 ◌==◌
module _ {ℓ} {A : Type ℓ} ⦃e : HasEquality A⦄ where
  unfoldable pub option_beq : Option A → Option A → Bool
  option_beq none none = true
  option_beq (some a) (some b) = a == b
  option_beq _ _ = false

  pub option_beq_iff : (a b : Option A) → (option_beq a b ≡ true) ↔ (a ≡ b)
  unfolding option_beq
  option_beq_iff none none = ground arith
  option_beq_iff (some a) (some b) = ground (arith, e.agrees_iff a b)
  option_beq_iff _ _ = ground arith

  unfoldable pub list_beq : List A → List A → Bool
  list_beq [] [] = true
  list_beq (x ∷ xs) (y ∷ ys) = (x == y) && list_beq xs ys
  list_beq _ _ = false

  pub list_beq_iff : (xs ys : List A) → (list_beq xs ys ≡ true) ↔ (xs ≡ ys)
  unfolding list_beq
  list_beq_iff [] [] = ground arith
  list_beq_iff (x ∷ xs) (y ∷ ys) = ground (arith, e.agrees_iff x y, list_beq_iff xs ys)
  list_beq_iff _ _ = ground arith

module _ {ℓ κ} {A : Type ℓ} {B : Type κ} ⦃e : HasEquality A⦄ ⦃f : HasEquality B⦄ where
  unfoldable pub pair_beq : A × B → A × B → Bool
  pair_beq p q = (p.0 == q.0) && (p.1 == q.1)

  pub pair_beq_iff : (p q : A × B) → (pair_beq p q ≡ true) ↔ (p ≡ q)
  unfolding pair_beq
  pair_beq_iff (a, b) (c, d) = ground (arith, e.agrees_iff a c, f.agrees_iff b d)

unfoldable pub bit_beq : Bool → Bool → Bool
bit_beq true b = b
bit_beq false true = false
bit_beq false false = true

pub bit_beq_iff : (a b : Bool) → (bit_beq a b ≡ true) ↔ (a ≡ b)
unfolding bit_beq
bit_beq_iff true b = ground arith
bit_beq_iff false true = ground arith
bit_beq_iff false false = ground arith

instance abbrev pub String_eq : HasEquality String
String_eq = record { agrees = str_eq; agrees_iff = eq_iff }

instance abbrev pub ℕ_eq : HasEquality ℕ
ℕ_eq = record { agrees_iff = nat_eq_iff; agrees = nat_eq }

instance abbrev pub Bool_eq : HasEquality Bool
Bool_eq = record { agrees = bit_beq; agrees_iff = bit_beq_iff }

-- Lists of flags.
instance abbrev pub flags_eq : HasEquality (List Bool)
flags_eq = record { agrees = list_beq; agrees_iff = list_beq_iff }

instance abbrev pub Option_eq {ℓ} : {A : Type ℓ} ⦃e : HasEquality A⦄ → HasEquality (Option A)
Option_eq = record { agrees = option_beq; agrees_iff = option_beq_iff }

-- Pairs, componentwise.
instance abbrev pub pair_eq {ℓ κ} :
    {A : Type ℓ} {B : Type κ} ⦃e : HasEquality A⦄ ⦃f : HasEquality B⦄ → HasEquality (A × B)
pair_eq = record { agrees = pair_beq; agrees_iff = pair_beq_iff }

module _ {ℓ} {A : Type ℓ} ⦃e : HasEquality A⦄ where
  pub beq_refl : (a : A) → (a == a) ≡ true
  beq_refl a = (e.agrees_iff a a).1 refl

  pub beq_sym : (a b : A) → (a == b) ≡ (b == a)
  beq_sym a b = ground (arith, e.agrees_iff a b, e.agrees_iff b a)

  pub beq_ne : (a b : A) → a ≢ b → (a == b) ≡ false
  beq_ne a b h = ground (arith, e.agrees_iff a b)
