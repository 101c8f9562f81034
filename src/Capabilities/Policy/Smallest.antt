-- ===== src/Capabilities/Policy/Smallest.antt =====
-- What evaluateValidationPolicy of packages/capabilities/src/policy.ts returns.
use chronolog_db.Prelude.{
  SubOf, any_more, count_more, length_more, SubOf-refl, ℕ, ◌≤◌, ◌<◌, ◌≡◌, ◌≢◌, ◌⊎◌, inl, inr, refl,
  sym, true, false, some, List, [], ◌∷◌, ◌++◌, String, arith, length, lt→ltb, pair_eq, ℕ_eq,
  flags_eq, ◌==◌, String_eq, Option_eq,
}
use chronolog_db.Canonical.{TextCodec}
use chronolog_db.Bytes.Laws.{Bytes_eq}
use chronolog_db.Protocol.{returned}
use chronolog_db.Capabilities.Types.{ValidationPolicy, ValidatorEvidence, PolicyEvaluation}
use chronolog_db.Capabilities.Policy.{
  solved, missing_constraints, missing_classes, missing_organizations, too_few, class_count,
  has_organization, unique_evidence, sorted_policy, evaluate_validation_policy, satisfying,
}
use chronolog_db.Capabilities.Policy.Keys.{append-nil}
use chronolog_db.Capabilities.Policy.Chosen.{
  Satisfies, satisfying-first, satisfying-All, first_of-All,
}

classes_more :
    (classes : List (String × ℕ)) {a b : List ValidatorEvidence}
    → SubOf a b
    → missing_classes classes a ≡ []
    → missing_classes classes b ≡ []
unfolding missing_classes class_count
classes_more [] sub h = refl
classes_more ((name, minimum) ∷ classes) sub h =
    ground
      (arith, classes_more classes sub, count_more (λ item. item.validator_class == some name) sub)

organizations_more :
    (names : List String) {a b : List ValidatorEvidence}
    → SubOf a b
    → missing_organizations names a ≡ []
    → missing_organizations names b ≡ []
unfolding missing_organizations has_organization
organizations_more [] sub h = refl
organizations_more (name ∷ names) sub h =
    ground
      (arith, organizations_more names sub, any_more (λ item. item.organization == some name) sub)

-- More evidence satisfies what less evidence satisfies.
pub Satisfies-more :
    (p : ValidationPolicy) {a b : List ValidatorEvidence}
    → SubOf a b
    → Satisfies p a
    → Satisfies p b
unfolding missing_constraints too_few
Satisfies-more p {a} {b} sub m =
    let by_class = missing_classes p.class_minimums a in
    let by_name = missing_organizations p.required_organizations a in
    let few = too_few p.minimum_validators a in
    let parts = append-nil (few ++ by_class) by_name m in
    let front = append-nil few by_class parts.0 in
    let classes = classes_more p.class_minimums sub front.1 in
    let names = organizations_more p.required_organizations sub parts.1 in
    ground (arith, front.0, classes, names, length_more sub)

-- For a policy with a positive threshold whose names are sorted without an error (where there are two or more
-- classes, or organizations, each name is canonical UTF-8), if a part of the evidence with one piece for each
-- capability satisfies the policy, the evaluation returns and selects a part that satisfies it and that has
-- no more pieces of evidence.
pub evaluate_validation_policy-finds :
    (codec : TextCodec) (p q : ValidationPolicy) (evidence t : List ValidatorEvidence)
    → sorted_policy codec p ≡ returned q
    → 0 < p.minimum_validators
    → SubOf t (unique_evidence evidence)
    → missing_constraints q t ≡ []
    → (r : PolicyEvaluation) × (evaluate_validation_policy codec p evidence ≡ returned r)
      × (r.satisfied ≡ true)
      × (r.missing ≡ [])
      × SubOf r.selected (unique_evidence evidence)
      × (missing_constraints q r.selected ≡ [])
      × (length r.selected ≤ length t)
unfolding evaluate_validation_policy
evaluate_validation_policy-finds codec p q evidence t in_order pos sub m =
    let u = unique_evidence evidence in
    let (f, first, le) = satisfying-first q sub m in
    let good =
      first_of-All (λ e. SubOf e u × (missing_constraints q e ≡ [])) (satisfying q (solved q u))
        (satisfying-All q u) first in
    let all : missing_constraints q u ≡ [] = Satisfies-more q sub m in
    (
      record { satisfied = true; selected = f; missing = [] },
      (rw (lt→ltb 0 p.minimum_validators pos, in_order, all, first) refl),
      refl,
      refl,
      good.0,
      good.1,
      le,
    )

List-cases {ℓ} : {A : Type ℓ} (xs : List A) → (xs ≡ []) ⊎ ((y : A) × (ys : List A) × (xs ≡ y ∷ ys))
List-cases [] = inl refl
List-cases (y ∷ ys) = inr (y, ys, refl)

-- For a policy with a positive threshold whose names are sorted without an error (where there are two or more
-- classes, or organizations, each name is canonical UTF-8), the evaluation returns, and decides the policy on
-- the evidence with one piece for each capability: it selects a part of it that misses no constraint, or it
-- selects nothing and names what all of it misses, in the order of the names.
pub evaluate_validation_policy-decides :
    (codec : TextCodec) (p q : ValidationPolicy) (evidence : List ValidatorEvidence)
    → sorted_policy codec p ≡ returned q
    → 0 < p.minimum_validators
    → (r : PolicyEvaluation) × (evaluate_validation_policy codec p evidence ≡ returned r)
      × (((r.satisfied ≡ true)
            × (r.missing ≡ [])
            × SubOf r.selected (unique_evidence evidence)
            × (missing_constraints q r.selected ≡ []))
          ⊎ ((r.satisfied ≡ false)
              × (r.selected ≡ [])
              × (r.missing ≡ missing_constraints q (unique_evidence evidence))
              × (r.missing ≢ [])))
unfolding evaluate_validation_policy
evaluate_validation_policy-decides codec p q evidence in_order pos =
    let u = unique_evidence evidence in
    elim (List-cases (missing_constraints q u)) [
      | inl all ↦
          let (r, e, ok, none_missing, sub, good, le) =
            evaluate_validation_policy-finds codec p q evidence u in_order pos (SubOf-refl u) all in
          (r, e, inl (ok, none_missing, sub, good))
      | inr (m, ms, some_missing) ↦ (
        record { satisfied = false; selected = []; missing = m ∷ ms },
        (rw (lt→ltb 0 p.minimum_validators pos, in_order, some_missing) refl),
        inr (refl, refl, sym some_missing, λ e. ground (arith, e)),
      )
    ]
