-- ===== src/Capabilities/Admission/Authentic.antt =====
-- What stands behind the evidence that an admission proof of packages/capabilities/src/admission.ts
-- selects.
use chronolog_db.Prelude.{
  ℕ, zero, suc, ◌<◌, ◌≡◌, refl, ap, subst, true, false, Option, none, some, List, [], ◌∷◌, arith,
  get_elem?, All, All-get_elem?, Bool-cases, Option-cases, inl, inr, nat_eq,
}
use chronolog_db.Prelude.Map
use chronolog_db.Bytes.{Bytes}
use chronolog_db.Bytes.Laws.{Bytes_eq, bytes_equal_iff}
use chronolog_db.Protocol.{TransactionCore, ValidatorAttestation, returned, Outcome-cases}
use chronolog_db.Capabilities.Types.{
  CapabilityRole, validator, ValidationPolicy, EffectiveCapability, CapabilitySnapshot,
  ValidatorEvidence,
}
use chronolog_db.Canonical.{TextCodec}
use chronolog_db.Capabilities.Policy.{evaluate_validation_policy}
use chronolog_db.Capabilities.Policy.Selected.{selected-All}
use chronolog_db.Capabilities.Activity.{is_capability_active, same_role, role_index}
use chronolog_db.Capabilities.Admission.{
  validator_evidence_for_attestation, has_wrong_context, active_capability_by_id, evidence_of,
  is_at_most_floor, collect_evidence, assemble_admission_proof, policy_by_id,
  AdmissionProofEvaluation, if_active,
}

-- `capability` is an active validator's, of the key that signed, and the timestamp is above its floor.
pub record IsValidatorAt (snapshot : CapabilitySnapshot) (a : ValidatorAttestation) (timestamp : ℕ)
    (capability : EffectiveCapability) : Type 0 where
  pub listed : Map.get snapshot.capabilities a.validator_capability ≡ some capability
  pub active : is_capability_active capability snapshot.revision ≡ true
  pub role : capability.grant.role ≡ validator
  pub signer : capability.grant.signing_public_key ≡ a.validator_id
  pub above_floor : is_at_most_floor timestamp capability.grant.minimum_author_timestamp_ms ≡ false

if_active_lem :
    (r : ℕ) (o : Option EffectiveCapability) (c : EffectiveCapability)
    → if_active r o ≡ some c
    → (o ≡ some c) × (is_capability_active c r ≡ true)
if_active_lem r none c h = cc
if_active_lem r (some d) c h = elim (Bool-cases (is_capability_active d r)) [
  | inl active ↦
      let same : d ≡ c = ground arith in
      (ap some same, subst (λ x. is_capability_active x r ≡ true) same active)
  | inr inactive ↦ ground arith
]

same_role-validator : (r : CapabilityRole) → same_role r validator ≡ true → r ≡ validator
unfolding same_role role_index
same_role-validator validator h = refl
same_role-validator _ h = ground arith

evidence_of_lem :
    (a : ValidatorAttestation) (t : ℕ) (o : Option EffectiveCapability) (v : ValidatorEvidence)
    → evidence_of a t o ≡ some v
    → (c : EffectiveCapability) × (o ≡ some c)
      × (c.grant.role ≡ validator)
      × (c.grant.signing_public_key ≡ a.validator_id)
      × (is_at_most_floor t c.grant.minimum_author_timestamp_ms ≡ false)
      × (v.capability_id ≡ c.id)
      × (v.validator_id ≡ a.validator_id)
evidence_of_lem a t none v h = cc
evidence_of_lem a t (some c) v h =
    let signer = bytes_equal_iff c.grant.signing_public_key a.validator_id in
    let role = same_role-validator c.grant.role in
    (
      c,
      refl,
      ground (arith, role),
      ground (arith, signer.0),
      ground arith,
      ground arith,
      ground arith,
    )

module _ {ℓ} {Program : Type ℓ} (snapshot : CapabilitySnapshot) (core : TransactionCore Program)
    (tx_id digest : Bytes) where
  -- The attestation is for this transaction and candidate, at this revision of this group, with a
  -- timestamp above its cutoff, and a validator's capability stands behind it.
  pub record Attests (a : ValidatorAttestation) (v : ValidatorEvidence) : Type 0 where
    pub group : (a.group_id ≡ snapshot.group_id) × (core.group_id ≡ snapshot.group_id)
    pub revision :
        (a.membership_revision ≡ snapshot.revision_digest)
        × (core.membership_revision ≡ snapshot.revision_digest)
    pub transaction : (a.tx_id ≡ tx_id) × (a.candidate_digest ≡ digest)
    pub timestamp : a.author_timestamp_ms ≡ core.author_timestamp_ms
    pub above_cutoff : a.accepted_above_ms < a.author_timestamp_ms
    pub capability : EffectiveCapability
    pub is_validator : IsValidatorAt snapshot a core.author_timestamp_ms capability
    pub evidence : (v.capability_id ≡ capability.id) × (v.validator_id ≡ a.validator_id)

  evidence_of-IsValidatorAt :
      (a : ValidatorAttestation) (t : ℕ) (v : ValidatorEvidence)
      → evidence_of a t (active_capability_by_id snapshot a.validator_capability snapshot.revision)
        ≡ some v
      → (c : EffectiveCapability) × IsValidatorAt snapshot a t c
        × (v.capability_id ≡ c.id)
        × (v.validator_id ≡ a.validator_id)
  unfolding active_capability_by_id
  evidence_of-IsValidatorAt a t v h =
      let (c, there, role, signer, floor, id, by) =
        evidence_of_lem a t
          (active_capability_by_id snapshot a.validator_capability snapshot.revision) v h in
      let (listed, active) =
        if_active_lem snapshot.revision (Map.get snapshot.capabilities a.validator_capability) c
          there in
      (
        c,
        record {
          listed = listed;
          active = active;
          role = role;
          signer = signer;
          above_floor = floor;
        },
        id,
        by,
      )

  validator_evidence-Attests :
      (a : ValidatorAttestation) (v : ValidatorEvidence)
      → validator_evidence_for_attestation snapshot a core tx_id digest ≡ some v
      → Attests a v
  unfolding validator_evidence_for_attestation has_wrong_context
  validator_evidence-Attests a v h =
      let (c, valid, id, by) =
        evidence_of-IsValidatorAt a core.author_timestamp_ms v (ground arith) in
      record {
        group = ground (
          arith,
          bytes_equal_iff a.group_id snapshot.group_id,
          bytes_equal_iff core.group_id snapshot.group_id,
        );
        revision = ground (
          arith,
          bytes_equal_iff a.membership_revision snapshot.revision_digest,
          bytes_equal_iff core.membership_revision snapshot.revision_digest,
        );
        transaction =
            ground
              (arith, bytes_equal_iff a.tx_id tx_id, bytes_equal_iff a.candidate_digest digest);
        timestamp = ground arith;
        above_cutoff = ground arith;
        capability = c;
        is_validator = valid;
        evidence = (id, by);
      }

  -- Some attestation of the list, with the version of the policy, attests the evidence.
  pub Backed : ℕ → List ValidatorAttestation → ValidatorEvidence → Type 0
  Backed version attestations v =
      (i : ℕ) × (a : ValidatorAttestation) × (get_elem? attestations i ≡ some a)
      × (a.policy_version ≡ version)
      × Attests a v

  Backed-later :
      (version : ℕ) (a : ValidatorAttestation) (attestations : List ValidatorAttestation)
      (vs : List ValidatorEvidence)
      → All (Backed version attestations) vs
      → All (Backed version (a ∷ attestations)) vs
  unfolding Backed
  Backed-later version a attestations [] h = tt
  Backed-later version a attestations (v ∷ vs) h =
      ((suc h.0.0, h.0.1, h.0.2, h.0.3, h.0.4), Backed-later version a attestations vs h.1)

  collect_evidence-Backed :
      (version : ℕ) (attestations : List ValidatorAttestation)
      → All
          (Backed version attestations)
          (collect_evidence snapshot core tx_id digest version attestations).0
  unfolding collect_evidence Backed
  collect_evidence-Backed version [] = tt
  collect_evidence-Backed version (a ∷ attestations) =
      let rest =
        Backed-later version a attestations
          (collect_evidence snapshot core tx_id digest version attestations).0
          (collect_evidence-Backed version attestations) in
      elim (Bool-cases (nat_eq a.policy_version version)) [
        | inr other ↦ rw other rest
        | inl same ↦
            elim (Option-cases (validator_evidence_for_attestation snapshot a core tx_id digest)) [
              | inl absent ↦ rw (same, absent) rest
              | inr (v, there) ↦
                  rw (same, there)
                    ((zero, a, refl, ground arith, validator_evidence-Attests a v there), rest)
            ]
      ]

module _ {ℓ} {Program : Type ℓ} where
  -- Each piece of evidence that an assembled admission proof selects stands for one of the given
  -- attestations: it has the version of the transaction's policy and is for this transaction, this
  -- candidate and this revision of the group, its timestamp is the transaction's and is above its
  -- cutoff, and its validator id is the signing key of an active validator's capability, which is the selected
  -- one and whose floor the timestamp exceeds.
  pub assemble_admission_proof-Backed :
      (codec : TextCodec) (snapshot : CapabilitySnapshot) (core : TransactionCore Program)
      (tx_id digest : Bytes) (attestations : List ValidatorAttestation) (policy : ValidationPolicy)
      (r : AdmissionProofEvaluation) (i : ℕ) (v : ValidatorEvidence)
      → policy_by_id snapshot core.validation_policy ≡ some policy
      → assemble_admission_proof codec snapshot core tx_id digest attestations ≡ returned r
      → get_elem? r.evaluation.selected i ≡ some v
      → Backed snapshot core tx_id digest policy.version attestations v
  unfolding assemble_admission_proof
  assemble_admission_proof-Backed codec snapshot core tx_id digest attestations policy r i v known h
        at =
      let evidence = (collect_evidence snapshot core tx_id digest policy.version attestations).0 in
      let backed = collect_evidence-Backed snapshot core tx_id digest policy.version attestations in
      elim (Outcome-cases (evaluate_validation_policy codec policy evidence)) [
        | inl (q, e) ↦
            let same : q ≡ r.evaluation = ground arith in
            let all =
              selected-All (Backed snapshot core tx_id digest policy.version attestations) codec
                policy evidence q e backed in
            All-get_elem? (Backed snapshot core tx_id digest policy.version attestations)
              r.evaluation.selected i
              (subst
                (λ x.
                  All (Backed snapshot core tx_id digest policy.version attestations) x.selected)
                same all)
              at
        | inr (code, e) ↦ ground arith
      ]
