-- ===== src/Prelude/Compare.antt =====
-- Comparators: what a function passed to `sort` or to a search must satisfy, and the order that
-- compares by a first key, then by a second.
use Prim.Native.Nat.{compare, Ordering}
use mathlib.Core.Path.{◌≡◌}
use mathlib.Core.Logic.{◌↔◌}
use mathlib.Core.Bool.{Bool, true, false}
use native.Mathlib.Omega.{arith}

-- The sign of a comparator's result read from the other side.
abbrev pub flip : Ordering → Ordering
flip Ordering.lt = Ordering.gt
flip Ordering.eq = Ordering.eq
flip Ordering.gt = Ordering.lt

-- `if (first !== 0) return first; return second`
abbrev pub or_else : Ordering → Ordering → Ordering
or_else Ordering.eq o = o
or_else Ordering.lt o = Ordering.lt
or_else Ordering.gt o = Ordering.gt

abbrev pub is_lt : Ordering → Bool
is_lt Ordering.lt = true
is_lt _ = false

pub record IsLinear {ℓ} {A : Type ℓ} (cmp : A → A → Ordering) : Type ℓ where
  pub eq_iff : (a b : A) → (cmp a b ≡ Ordering.eq) ↔ (a ≡ b)
  pub flipped : (a b : A) → cmp b a ≡ flip (cmp a b)
  pub trans : (a b c : A) → cmp a b ≡ Ordering.lt → cmp b c ≡ Ordering.lt → cmp a c ≡ Ordering.lt

pub compare-IsLinear : IsLinear compare
compare-IsLinear = record {
  eq_iff = λ a b. ground arith;
  flipped = λ a b. ground arith;
  trans = λ a b c h k. ground arith;
}

module _ {ℓ κ} {A : Type ℓ} {B : Type κ} {f : A → A → Ordering} {g : B → B → Ordering}
    (lf : IsLinear f) (lg : IsLinear g) where
  abbrev pub lex : A × B → A × B → Ordering
  lex p q = or_else (f p.0 q.0) (g p.1 q.1)

  lex_trans :
      (p q r : A × B) → lex p q ≡ Ordering.lt → lex q r ≡ Ordering.lt → lex p r ≡ Ordering.lt
  lex_trans (a, x) (b, y) (c, z) h k =
      ground (arith, lf.eq_iff a b, lf.eq_iff b c, lf.eq_iff a c, lf.trans a b c, lg.trans x y z)

  lex-flipped : (p q : A × B) → lex q p ≡ flip (lex p q)
  lex-flipped (a, x) (b, y) = ground (arith, lf.flipped a b, lg.flipped x y)

  lex-eq_iff : (p q : A × B) → (lex p q ≡ Ordering.eq) ↔ (p ≡ q)
  lex-eq_iff (a, x) (b, y) = ground (arith, lf.eq_iff a b, lg.eq_iff x y)

  pub lex-IsLinear : IsLinear lex
  lex-IsLinear = record { eq_iff = lex-eq_iff; flipped = lex-flipped; trans = lex_trans }
