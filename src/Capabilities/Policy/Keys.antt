-- ===== src/Capabilities/Policy/Keys.antt =====
-- What a state key determines: whether a selection satisfies the policy, and the key after one more
-- piece of evidence. So the dynamic program may keep one selection for each key.
use chronolog_db.Prelude.{
  ℕ, ◌+◌, ◌≡◌, refl, ap, List, [], ◌∷◌, ◌++◌, String, arith, ◌||◌, length-append,
  length-filter-append, any-append,
}
use chronolog_db.Capabilities.Types.{ValidationPolicy, ValidatorEvidence}
use chronolog_db.Capabilities.Policy.{
  class_count, has_organization, missing_classes, missing_organizations, missing_constraints,
  class_caps, organization_flags, state_key, too_few,
}

class_count-append :
    (name : String) (e : List ValidatorEvidence) (x : ValidatorEvidence)
    → class_count name (e ++ x ∷ []) ≡ class_count name e + class_count name (x ∷ [])
unfolding class_count
class_count-append name e x = length-filter-append _ e (x ∷ [])

class_caps-append :
    (classes : List (String × ℕ)) (a b : List ValidatorEvidence) (x : ValidatorEvidence)
    → class_caps classes a ≡ class_caps classes b
    → class_caps classes (a ++ x ∷ []) ≡ class_caps classes (b ++ x ∷ [])
class_caps-append [] a b x h = refl
class_caps-append ((name, minimum) ∷ classes) a b x h = ground (
  arith,
  class_caps-append classes a b x,
  class_count-append name a x,
  class_count-append name b x,
)

organization_flags-append :
    (names : List String) (a b : List ValidatorEvidence) (x : ValidatorEvidence)
    → organization_flags names a ≡ organization_flags names b
    → organization_flags names (a ++ x ∷ []) ≡ organization_flags names (b ++ x ∷ [])
organization_flags-append [] a b x h = refl
organization_flags-append (name ∷ names) a b x h =
    let rest = organization_flags-append names a b x in
    let one : (e : List ValidatorEvidence)
        → has_organization name (e ++ x ∷ [])
          ≡ (has_organization name e || has_organization name (x ∷ [])) =
      λ e. unfold has_organization in any-append _ e (x ∷ []) in
    ground (arith, rest, one a, one b)

-- Selections with the same key have the same key after the same piece of evidence.
pub state_key-append :
    (p : ValidationPolicy) (a b : List ValidatorEvidence) (x : ValidatorEvidence)
    → state_key p a ≡ state_key p b
    → state_key p (a ++ x ∷ []) ≡ state_key p (b ++ x ∷ [])
unfolding state_key
state_key-append p a b x h = ground (
  arith,
  length-append a (x ∷ []),
  length-append b (x ∷ []),
  class_caps-append p.class_minimums a b x,
  organization_flags-append p.required_organizations a b x,
)

missing_classes-caps :
    (classes : List (String × ℕ)) (a b : List ValidatorEvidence)
    → class_caps classes a ≡ class_caps classes b
    → missing_classes classes a ≡ []
    → missing_classes classes b ≡ []
unfolding missing_classes
missing_classes-caps [] a b h m = refl
missing_classes-caps ((name, minimum) ∷ classes) a b h m =
    ground (arith, missing_classes-caps classes a b)

missing_organizations-flags :
    (names : List String) (a b : List ValidatorEvidence)
    → organization_flags names a ≡ organization_flags names b
    → missing_organizations names a ≡ []
    → missing_organizations names b ≡ []
unfolding missing_organizations
missing_organizations-flags [] a b h m = refl
missing_organizations-flags (name ∷ names) a b h m =
    ground (arith, missing_organizations-flags names a b)

pub append-nil {ℓ} : {A : Type ℓ} (xs ys : List A) → xs ++ ys ≡ [] → (xs ≡ []) × (ys ≡ [])
append-nil [] ys h = (refl, h)
append-nil (x ∷ xs) ys h = ground arith

-- Of two selections with the same key, one satisfies the policy if the other does.
pub satisfied-state_key :
    (p : ValidationPolicy) (a b : List ValidatorEvidence)
    → state_key p a ≡ state_key p b
    → missing_constraints p a ≡ []
    → missing_constraints p b ≡ []
unfolding state_key missing_constraints too_few
satisfied-state_key p a b h m =
    let by_class = missing_classes p.class_minimums a in
    let by_name = missing_organizations p.required_organizations a in
    let few = too_few p.minimum_validators a in
    let parts = append-nil (few ++ by_class) by_name m in
    let front = append-nil few by_class parts.0 in
    let classes = missing_classes-caps p.class_minimums a b (ap (λ k. k.1.0) h) front.1 in
    let names =
      missing_organizations-flags p.required_organizations a b (ap (λ k. k.1.1) h) parts.1 in
    ground (arith, front.0, classes, names)
