-- ===== src/Capabilities/Reducer/Stages.antt =====
-- For packages/capabilities/src/reducer.ts: the stages that a revision goes through.
use chronolog_db.Prelude.{ℕ, ◌+◌, ◌≡◌, ap, sym, ◌∙◌, List, ◌∷◌, arith, nat_eq, Bool-cases, inl, inr}
use chronolog_db.Bytes.{Bytes, bytes_equal}
use chronolog_db.Bytes.Laws.{Bytes_eq}
use chronolog_db.Canonical.{TextCodec}
use chronolog_db.Protocol.{
  returned-injective, bind-returned, invariant-returned, Outcome-cases, returned, schema_invalid,
}
use chronolog_db.Protocol.Primitives.{Crypto}
use chronolog_db.Capabilities.Types.{
  CapabilityGrant, CapabilityRevision, SignedCapabilityRevision, CapabilitySnapshot,
}
use chronolog_db.Capabilities.Codec.Revision.{
  encode_capability_revision, decode_capability_revision,
}
use chronolog_db.Capabilities.Reducer.{
  Capabilities, revoke_all, add_grant, check_floor, revision_grants, install_policies,
  capability_revision_digest, check_successor, extend_snapshot, apply_capability_revision,
}

module _ (codec : TextCodec) (crypto : Crypto) where
  -- The first grant is added, and the loop goes on.
  pub revision_grants-step :
      (r : ℕ) (grant : CapabilityGrant) (grants : List CapabilityGrant) (m n : Capabilities)
      → revision_grants codec crypto r (grant ∷ grants) m ≡ returned n
      → (l : Capabilities) × (check_floor grant m ≡ returned tt)
        × (add_grant codec crypto r grant m ≡ returned l)
        × (revision_grants codec crypto r grants l ≡ returned n)
  unfolding revision_grants
  revision_grants-step r grant grants m n h =
      elim (Bool-cases (nat_eq grant.valid_from_revision r)) [
        | inr late ↦ absurd (ground (arith, late, h))
        | inl start ↦ elim (Outcome-cases (check_floor grant m)) [
          | inr (e, bad) ↦ absurd (ground (arith, start, bad, h))
          | inl (u, checked) ↦ elim (Outcome-cases (add_grant codec crypto r grant m)) [
            | inr (e, bad) ↦ absurd (ground (arith, start, checked, bad, h))
            | inl (l, added) ↦ (l, checked, added, ground (arith, start, checked, added, h))
          ]
        ]
      ]

  -- The stages of a revision that is applied.
  pub record Stages (s : CapabilitySnapshot) (revision : CapabilityRevision)
      (t : CapabilitySnapshot) : Type 0 where
    pub revoked : Capabilities
    pub is_revoked :
        revoke_all revision.revision revision.revocations s.capabilities ≡ returned revoked
    pub granted :
        revision_grants codec crypto revision.revision revision.grants revoked
        ≡ returned t.capabilities
    pub same_group : t.group_id ≡ s.group_id
    pub same_recovery : t.recovery_public_keys ≡ s.recovery_public_keys
    pub same_threshold : t.recovery_threshold ≡ s.recovery_threshold
    pub is_revision : t.revision ≡ revision.revision

  pub extend_snapshot-Stages :
      (s : CapabilitySnapshot) (revision : CapabilityRevision) (t : CapabilitySnapshot)
      → extend_snapshot codec crypto s revision ≡ returned t
      → Stages s revision t
  unfolding extend_snapshot
  extend_snapshot-Stages s revision t h =
      let (m, revoked, h1) =
        bind-returned (revoke_all revision.revision revision.revocations s.capabilities) _ h in
      let (n, granted, h2) =
        bind-returned (revision_grants codec crypto revision.revision revision.grants m) _ h1 in
      let (policies, installed, h3) =
        bind-returned
          (install_policies codec crypto revision.revision revision.validation_policies s.policies)
          _ h2 in
      let (digest, digested, h4) =
        bind-returned (capability_revision_digest codec crypto revision) _ h3 in
      let whole = returned-injective h4 in
      record {
        revoked = m;
        is_revoked = revoked;
        granted = granted ∙ ap (λ z. returned z.capabilities) whole;
        same_group = ap (λ z. z.group_id) (sym whole);
        same_recovery = ap (λ z. z.recovery_public_keys) (sym whole);
        same_threshold = ap (λ z. z.recovery_threshold) (sym whole);
        is_revision = ap (λ z. z.revision) (sym whole);
      }

  -- A revision that is applied passed its checks, and extends the snapshot.
  pub apply_capability_revision-parts :
      (s : CapabilitySnapshot) (signed : SignedCapabilityRevision) (t : CapabilitySnapshot)
      → apply_capability_revision codec crypto s signed ≡ returned t
      → (revision : CapabilityRevision) × (check_successor codec crypto s revision signed.signature
          ≡ returned tt)
        × (extend_snapshot codec crypto s revision ≡ returned t)
  unfolding apply_capability_revision
  apply_capability_revision-parts s signed t h =
      let (encoded, is_encoded, h1) =
        bind-returned (encode_capability_revision codec signed.revision) _ h in
      let (revision, is_revision, h2) =
        bind-returned (decode_capability_revision codec encoded) _ h1 in
      let (u, checked, h3) =
        bind-returned (check_successor codec crypto s revision signed.signature) _ h2 in
      (revision, checked, h3)

  pub check_successor-revision :
      (s : CapabilitySnapshot) (revision : CapabilityRevision) (signature : Bytes)
      → check_successor codec crypto s revision signature ≡ returned tt
      → revision.revision ≡ s.revision + 1
  unfolding check_successor
  check_successor-revision s revision signature h =
      let (group, h1) =
        invariant-returned (bytes_equal revision.group_id s.group_id) schema_invalid _ h in
      let (number, h2) =
        invariant-returned (nat_eq revision.revision (s.revision + 1)) schema_invalid _ h1 in
      ground arith
