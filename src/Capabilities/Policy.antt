-- ===== src/Capabilities/Policy.antt =====
-- packages/capabilities/src/policy.ts: the smallest selection of evidence that satisfies a policy.
-- The names of a policy are sorted by their canonical UTF-8 bytes, which throws for other texts. Each call of
-- `missingConstraints` and of `stateKey` sorts them again, to the same lists or with the same error: here they
-- are sorted once, before the first call, and the functions take the policy with its sorted lists. A `stateKey`
-- is the numbers and the flags that its text prints for one policy, from which the text can be read back.
pub mod Keys
pub mod Solve
pub mod Rounds
pub mod Chosen
pub mod Smallest
pub mod Selected
use chronolog_db.Prelude.{
  ℕ, ◌-◌, Ordering, compare, Bool, true, false, ◌&&◌, ◌||◌, Option, none, some, List, [], ◌∷◌, ◌++◌,
  map, String, ltb, length, filter, any, sort, or_else, is_lt, ◌==◌, ℕ_eq, String_eq, Option_eq,
  pair_eq, flags_eq, if◌then◌else◌,
}
use chronolog_db.Prelude.Map
use chronolog_db.Prelude.Map.{Map}
use chronolog_db.Bytes.{Bytes, compare_bytes}
use chronolog_db.Bytes.Laws.{Bytes_eq}
use chronolog_db.Canonical.{TextCodec, utf8}
use chronolog_db.Protocol.{
  Outcome, returned, thrown, protocol_invariant, ◌>>◌, ◌>>=◌, schema_invalid,
}
use chronolog_db.Protocol.Schema.{wrap}
use chronolog_db.Capabilities.Types.{
  ValidationPolicy, ValidatorEvidence, MissingConstraint, missing_validators, missing_class,
  missing_organization, PolicyEvaluation,
}

-- `evidence.filter((item) => item.validatorClass === className).length`
unfoldable pub class_count : String → List ValidatorEvidence → ℕ
class_count name evidence = length (filter (λ item. item.validator_class == some name) evidence)

-- `evidence.some((item) => item.organization === organization)`
unfoldable pub has_organization : String → List ValidatorEvidence → Bool
has_organization name evidence = any (λ item. item.organization == some name) evidence

-- `utf8` of each name.
unfoldable pub check_names : TextCodec → List String → Outcome (Unit {0})
check_names codec [] = returned tt
check_names codec (name ∷ names) = wrap (utf8 codec name) >>= λ bytes. check_names codec names

-- A sort of two or more names compares each of them with another one, and of fewer names none.
unfoldable pub compared_names : TextCodec → List String → Outcome (Unit {0})
unfolding check_names
compared_names codec (a ∷ b ∷ names) = check_names codec (a ∷ b ∷ names)
compared_names codec _ = returned tt

-- `compareBytes(utf8(a), utf8(b))` at names that `utf8` encodes.
abbrev pub compare_texts : TextCodec → String → String → Ordering
compare_texts codec a b = compare_bytes (codec.encode a) (codec.encode b)

unfoldable pub sorted_classes : TextCodec → ValidationPolicy → Outcome (List (String × ℕ))
unfolding compared_names
sorted_classes codec policy =
    compared_names codec (map (λ c. c.0) policy.class_minimums)
    >> returned (sort (λ a b. compare_texts codec a.0 b.0) policy.class_minimums)

unfoldable pub sorted_organizations : TextCodec → ValidationPolicy → Outcome (List String)
unfolding compared_names
sorted_organizations codec policy =
    compared_names codec policy.required_organizations
    >> returned (sort (compare_texts codec) policy.required_organizations)

-- The policy with its names in the order of the loops.
unfoldable pub sorted_policy : TextCodec → ValidationPolicy → Outcome ValidationPolicy
unfolding sorted_classes sorted_organizations
sorted_policy codec policy = sorted_classes codec policy >>= λ classes.
    sorted_organizations codec policy >>= λ organizations.
    returned (record policy { class_minimums = classes; required_organizations = organizations })

-- The loop over the classes.
unfoldable pub missing_classes : List (String × ℕ) → List ValidatorEvidence → List MissingConstraint
missing_classes [] evidence = []
missing_classes ((name, minimum) ∷ classes) evidence =
    let rest = missing_classes classes evidence in
    let count = class_count name evidence in
    if ltb count minimum then missing_class name (minimum - count) ∷ rest else rest

-- The loop over the organizations.
unfoldable pub missing_organizations : List String → List ValidatorEvidence → List MissingConstraint
missing_organizations [] evidence = []
missing_organizations (name ∷ names) evidence =
    let rest = missing_organizations names evidence in
    if has_organization name evidence then rest else missing_organization name ∷ rest

unfoldable pub too_few : ℕ → List ValidatorEvidence → List MissingConstraint
too_few minimum evidence =
    if ltb (length evidence) minimum
    then missing_validators (minimum - length evidence) ∷ []
    else []

-- `missingConstraints`, of a policy whose names are in order.
unfoldable pub missing_constraints :
    ValidationPolicy → List ValidatorEvidence → List MissingConstraint
unfolding too_few
missing_constraints policy evidence =
    too_few policy.minimum_validators evidence
    ++ missing_classes policy.class_minimums evidence
    ++ missing_organizations policy.required_organizations evidence

-- The capability identifiers at each position of two selections of the same length.
unfoldable pub compare_selected : List ValidatorEvidence → List ValidatorEvidence → Ordering
compare_selected (x ∷ left) (y ∷ right) =
    or_else (compare_bytes x.capability_id y.capability_id) (compare_selected left right)
compare_selected _ _ = Ordering.eq

unfoldable pub selection_order : List ValidatorEvidence → List ValidatorEvidence → Ordering
unfolding compare_selected
selection_order left right =
    or_else (compare (length left) (length right)) (compare_selected left right)

-- `Math.min`, and `count < minimum ? count : minimum`
abbrev pub capped : ℕ → ℕ → ℕ
capped count minimum = if ltb count minimum then count else minimum

abbrev pub StateKey : Type 0
StateKey = ℕ × (List ℕ × List Bool)

abbrev pub class_caps : List (String × ℕ) → List ValidatorEvidence → List ℕ
class_caps classes evidence = map (λ c. capped (class_count c.0 evidence) c.1) classes

abbrev pub organization_flags : List String → List ValidatorEvidence → List Bool
organization_flags names evidence = map (λ name. has_organization name evidence) names

-- `stateKey`, of a policy whose names are in order.
unfoldable pub state_key : ValidationPolicy → List ValidatorEvidence → StateKey
state_key policy evidence = (
  capped (length evidence) policy.minimum_validators,
  (
    class_caps policy.class_minimums evidence,
    organization_flags policy.required_organizations evidence,
  ),
)

-- `existing === undefined || selectionOrder(candidate, existing) < 0`
abbrev pub is_better : List ValidatorEvidence → Option (List ValidatorEvidence) → Bool
is_better candidate none = true
is_better candidate (some existing) = is_lt (selection_order candidate existing)

unfoldable pub improve :
    ValidationPolicy
    → List ValidatorEvidence
    → Map StateKey (List ValidatorEvidence)
    → Map StateKey (List ValidatorEvidence)
improve policy candidate next =
    let key = state_key policy candidate in
    if is_better candidate (Map.get next key) then Map.set next key candidate else next

-- The loop over the states of one round.
unfoldable pub extend :
    ValidationPolicy
    → ValidatorEvidence
    → List (List ValidatorEvidence)
    → Map StateKey (List ValidatorEvidence)
    → Map StateKey (List ValidatorEvidence)
extend policy item [] next = next
extend policy item (selected ∷ states) next =
    extend policy item states (improve policy (selected ++ item ∷ []) next)

-- The rounds of the dynamic program, one for each piece of evidence.
unfoldable pub solve :
    ValidationPolicy
    → List ValidatorEvidence
    → Map StateKey (List ValidatorEvidence)
    → Map StateKey (List ValidatorEvidence)
unfolding extend
solve policy [] states = states
solve policy (item ∷ items) states =
    solve policy items (extend policy item (Map.values states) states)

-- The first piece of evidence of each capability, in the order of capabilities and validators.
abbrev pub evidence_order : ValidatorEvidence → ValidatorEvidence → Ordering
evidence_order left right =
    or_else (compare_bytes left.capability_id right.capability_id)
      (compare_bytes left.validator_id right.validator_id)

unfoldable pub keep_first :
    List ValidatorEvidence → Map Bytes ValidatorEvidence → Map Bytes ValidatorEvidence
keep_first [] unique = unique
keep_first (item ∷ items) unique =
    keep_first items
      (if Map.has unique item.capability_id then unique else Map.set unique item.capability_id item)

unfoldable pub unique_evidence : List ValidatorEvidence → List ValidatorEvidence
unfolding keep_first
unique_evidence evidence =
    sort (λ a b. compare_bytes a.capability_id b.capability_id)
      (Map.values (keep_first (sort evidence_order evidence) []))

abbrev pub is_empty {ℓ} : {A : Type ℓ} → List A → Bool
is_empty [] = true
is_empty (x ∷ xs) = false

-- `[...states.values()].filter(...).sort(selectionOrder)`
unfoldable pub satisfying :
    ValidationPolicy → Map StateKey (List ValidatorEvidence) → List (List ValidatorEvidence)
satisfying policy states =
    sort selection_order
      (filter (λ items. is_empty (missing_constraints policy items)) (Map.values states))

abbrev pub first_of {ℓ} : {A : Type ℓ} → List A → Option A
first_of [] = none
first_of (x ∷ xs) = some x

-- What is returned at the first of the satisfying selections, if there is one.
abbrev pub with_selection : Option (List ValidatorEvidence) → Outcome PolicyEvaluation
with_selection none = thrown schema_invalid
with_selection (some items) = returned (record { satisfied = true; selected = items; missing = [] })

-- The rounds start with the empty selection.
unfoldable pub solved :
    ValidationPolicy → List ValidatorEvidence → Map StateKey (List ValidatorEvidence)
solved policy sorted = solve policy sorted (Map.set [] (state_key policy []) [])

-- The end of the function, at the constraints that all the evidence misses.
abbrev pub conclude :
    ValidationPolicy → List ValidatorEvidence → List MissingConstraint → Outcome PolicyEvaluation
conclude policy sorted [] = with_selection (first_of (satisfying policy (solved policy sorted)))
conclude policy sorted (m ∷ missing) =
    returned (record { satisfied = false; selected = []; missing = m ∷ missing })

unfoldable pub evaluate_validation_policy :
    TextCodec → ValidationPolicy → List ValidatorEvidence → Outcome PolicyEvaluation
unfolding sorted_policy
evaluate_validation_policy codec policy evidence =
    let unique = unique_evidence evidence in
    protocol_invariant (ltb 0 policy.minimum_validators) schema_invalid
    >> sorted_policy codec policy
    >>= λ in_order. conclude in_order unique (missing_constraints in_order unique)
