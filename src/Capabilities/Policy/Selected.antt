-- ===== src/Capabilities/Policy/Selected.antt =====
-- The evidence that evaluateValidationPolicy of packages/capabilities/src/policy.ts selects is evidence
-- that it was given.
use chronolog_db.Prelude.{
  SubOf, ltb, done, skip, keep, ◌<◌, ◌≡◌, subst, List, [], ◌∷◌, arith, All, All-sort, sort, ◌==◌,
  Bool-cases, inl, inr,
}
use chronolog_db.Prelude.Map
use chronolog_db.Prelude.Map.{Map}
use chronolog_db.Bytes.{Bytes, compare_bytes}
use chronolog_db.Bytes.Laws.{Bytes_eq}
use chronolog_db.Canonical.{TextCodec}
use chronolog_db.Protocol.{
  returned, protocol_invariant, ◌>>◌, schema_invalid, invariant-returned, bind-returned,
}
use chronolog_db.Capabilities.Types.{ValidationPolicy, ValidatorEvidence, PolicyEvaluation}
use chronolog_db.Capabilities.Policy.{
  sorted_policy, evaluate_validation_policy, unique_evidence, keep_first, evidence_order,
}
use chronolog_db.Capabilities.Policy.Smallest.{evaluate_validation_policy-decides}

set-All :
    (P : ValidatorEvidence → Type 0) (m : Map Bytes ValidatorEvidence) (k : Bytes)
    (v : ValidatorEvidence)
    → All P (Map.values m)
    → P v
    → All P (Map.values (Map.set m k v))
unfolding Map.set
set-All P [] k v h new = (new, tt)
set-All P ((j, x) ∷ m) k v h new = elim (Bool-cases (j == k)) [
  | inl same ↦ rw same (new, h.1)
  | inr other ↦ rw other (h.0, set-All P m k v h.1 new)
]

keep_first-All :
    (P : ValidatorEvidence → Type 0) (items : List ValidatorEvidence)
    (m : Map Bytes ValidatorEvidence)
    → All P items
    → All P (Map.values m)
    → All P (Map.values (keep_first items m))
unfolding keep_first
keep_first-All P [] m h all = all
keep_first-All P (x ∷ items) m h all = elim (Bool-cases (Map.has m x.capability_id)) [
  | inl there ↦ rw there (keep_first-All P items m h.1 all)
  | inr absent ↦ rw absent (
      keep_first-All P items (Map.set m x.capability_id x) h.1
        (set-All P m x.capability_id x all h.0))
]

unique_evidence-All :
    (P : ValidatorEvidence → Type 0) (evidence : List ValidatorEvidence)
    → All P evidence
    → All P (unique_evidence evidence)
unfolding unique_evidence
unique_evidence-All P evidence h =
    All-sort P (λ a b. compare_bytes a.capability_id b.capability_id)
      (Map.values (keep_first (sort evidence_order evidence) []))
      (keep_first-All P (sort evidence_order evidence) [] (All-sort P evidence_order evidence h) tt)

SubOf-All :
    (P : ValidatorEvidence → Type 0) {xs ys : List ValidatorEvidence}
    → SubOf xs ys
    → All P ys
    → All P xs
SubOf-All P done h = tt
SubOf-All P (skip y sub) h = SubOf-All P sub h.1
SubOf-All P (keep y sub) h = (h.0, SubOf-All P sub h.1)

evaluate-parts :
    (codec : TextCodec) (p : ValidationPolicy) (evidence : List ValidatorEvidence)
    (r : PolicyEvaluation)
    → evaluate_validation_policy codec p evidence ≡ returned r
    → (q : ValidationPolicy) × (sorted_policy codec p ≡ returned q) × (0 < p.minimum_validators)
unfolding evaluate_validation_policy
evaluate-parts codec p evidence r h =
    let (q, ordered, rest) =
      bind-returned
        (protocol_invariant (ltb 0 p.minimum_validators) schema_invalid >> sorted_policy codec p) _
        h in
    let (pos, in_order) =
      invariant-returned (ltb 0 p.minimum_validators) schema_invalid _ ordered in
    (q, in_order, ground (arith, pos))

-- What holds of all evidence holds of the selected evidence.
pub selected-All :
    (P : ValidatorEvidence → Type 0) (codec : TextCodec) (p : ValidationPolicy)
    (evidence : List ValidatorEvidence) (r : PolicyEvaluation)
    → evaluate_validation_policy codec p evidence ≡ returned r
    → All P evidence
    → All P r.selected
selected-All P codec p evidence r h all =
    let (s, in_order, pos) = evaluate-parts codec p evidence r h in
    let (q, e, outcome) = evaluate_validation_policy-decides codec p s evidence in_order pos in
    let same : q ≡ r = ground arith in
    subst (λ x. All P x.selected) same
      (elim outcome [
        | inl good ↦ SubOf-All P good.2 (unique_evidence-All P evidence all)
        | inr bad ↦ rw bad.1 tt
      ])
