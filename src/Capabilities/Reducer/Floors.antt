-- ===== src/Capabilities/Reducer/Floors.antt =====
-- For packages/capabilities/src/reducer.ts: a new validator does not reopen history that the remaining
-- validators have closed.
use chronolog_db.Prelude.{
  ℕ, ◌≤◌, ◌≡◌, ap, sym, ◌∙◌, true, none, some, List, [], ◌∷◌, arith, Option-cases, inl, inr, subst,
}
use chronolog_db.Prelude.Map
use chronolog_db.Bytes.{Bytes}
use chronolog_db.Bytes.Laws.{Bytes_eq}
use chronolog_db.Canonical.{TextCodec}
use chronolog_db.Protocol.{returned-injective, returned}
use chronolog_db.Protocol.Primitives.{Crypto}
use chronolog_db.Capabilities.Types.{
  validator, CapabilityGrant, SignedCapabilityRevision, EffectiveCapability, CapabilitySnapshot,
}
use chronolog_db.Capabilities.Activity.{same_role}
use chronolog_db.Capabilities.Reducer.{Capabilities, revision_grants, apply_capability_revision}
use chronolog_db.Capabilities.Reducer.Stages.{
  revision_grants-step, apply_capability_revision-parts, extend_snapshot-Stages,
}
use chronolog_db.Capabilities.Reducer.Endures.{revoke_all-Endures}
use chronolog_db.Capabilities.Reducer.Validators.{
  IsOpenValidator, floor_of, floor_of-validator_floor, check_floor-floor, revoke_all-absent,
}
use chronolog_db.Capabilities.Reducer.Added.{add_grant-Added, Added-keeps, Added-found}

module _ (codec : TextCodec) (crypto : Crypto) where
  revision_grants-keeps :
      (r : ℕ) (grants : List CapabilityGrant) (m n : Capabilities) (id : Bytes)
      (d : EffectiveCapability)
      → revision_grants codec crypto r grants m ≡ returned n
      → Map.get m id ≡ some d
      → Map.get n id ≡ some d
  unfolding revision_grants
  revision_grants-keeps r [] m n id d h found =
      ap (λ z. Map.get z id) (sym (returned-injective h)) ∙ found
  revision_grants-keeps r (grant ∷ grants) m n id d h found =
      let (l, checked, added, more) = revision_grants-step codec crypto r grant grants m n h in
      revision_grants-keeps r grants l n id d more (
        Added-keeps codec crypto grant m l id d (add_grant-Added codec crypto r grant m l added)
          found)

  -- A validator among the grants has a floor not below that of the open validators before.
  revision_grants-floor :
      (r : ℕ) (grants : List CapabilityGrant) (m n : Capabilities) (new old : Bytes)
      (c d : EffectiveCapability)
      → revision_grants codec crypto r grants m ≡ returned n
      → Map.get m new ≡ none
      → Map.get n new ≡ some c
      → same_role c.grant.role validator ≡ true
      → Map.get m old ≡ some d
      → IsOpenValidator d
      → floor_of d.grant ≤ floor_of c.grant
  unfolding revision_grants
  revision_grants-floor r [] m n new old c d h absent found is_validator there open' =
      let same = ap (λ z. Map.get z new) (returned-injective h) in
      absurd (ground (arith, same, absent, found))
  revision_grants-floor r (grant ∷ grants) m n new old c d h absent found is_validator there open' =
      let (l, checked, added, more) = revision_grants-step codec crypto r grant grants m n h in
      let a = add_grant-Added codec crypto r grant m l added in
      elim (Option-cases (Map.get l new)) [
        | inl later ↦
            revision_grants-floor r grants l n new old c d more later found is_validator
              (Added-keeps codec crypto grant m l old d a there) open'
        | inr (c', now) ↦
            let kept = revision_grants-keeps r grants l n new c' more now in
            let one : c' ≡ c = ground (arith, kept, found) in
            let of_grant : grant ≡ c.grant =
              sym (Added-found codec crypto grant m l new c' a absent now)
              ∙ ap (λ z. z.grant) one in
            let checked' =
              check_floor-floor grant m checked
                (subst (λ z. same_role z.role validator ≡ true) (sym of_grant) is_validator) in
            let bound = floor_of-validator_floor m 0 old d there open' in
            subst (λ z. floor_of d.grant ≤ floor_of z) of_grant (omega (arith, bound, checked'))
      ]

  -- If a revision is applied, then a validator capability that it adds has a timestamp floor that is not below
  -- the floor of any validator capability of the snapshot before that the revision leaves unrevoked.
  pub apply_capability_revision-floor :
      (s : CapabilitySnapshot) (signed : SignedCapabilityRevision) (t : CapabilitySnapshot)
      (new old : Bytes) (c d : EffectiveCapability)
      → apply_capability_revision codec crypto s signed ≡ returned t
      → Map.get s.capabilities new ≡ none
      → Map.get t.capabilities new ≡ some c
      → same_role c.grant.role validator ≡ true
      → Map.get s.capabilities old ≡ some d
      → Map.get t.capabilities old ≡ some d
      → IsOpenValidator d
      → floor_of d.grant ≤ floor_of c.grant
  apply_capability_revision-floor s signed t new old c d h absent found is_validator was remains
        open' =
      let (revision, checked, extended) =
        apply_capability_revision-parts codec crypto s signed t h in
      let p = extend_snapshot-Stages codec crypto s revision t extended in
      let m = p.revoked in
      let gone =
        revoke_all-absent revision.revision revision.revocations s.capabilities m new p.is_revoked
          absent in
      let (d', there, out) =
        revoke_all-Endures revision.revision revision.revocations s.capabilities m p.is_revoked old
          d was in
      let kept =
        revision_grants-keeps revision.revision revision.grants m t.capabilities old d' p.granted
          there in
      let one : d' ≡ d = ground (arith, kept, remains) in
      revision_grants-floor revision.revision revision.grants m t.capabilities new old c d p.granted
        gone found is_validator (there ∙ ap some one) open'
