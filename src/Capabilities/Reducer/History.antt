-- ===== src/Capabilities/Reducer/History.antt =====
-- For packages/capabilities/src/reducer.ts: what a revision of the capability log keeps of the past.
use chronolog_db.Prelude.{
  ℕ, ◌+◌, ◌-◌, ◌≤◌, ◌≡◌, refl, ap, sym, ◌∙◌, Option, none, some, Option-cases, List, [], ◌∷◌, arith,
  length, leb, Bool-cases, inl, inr, subst,
}
use chronolog_db.Prelude.Map
use chronolog_db.Bytes.{Bytes}
use chronolog_db.Bytes.Laws.{Bytes_eq}
use chronolog_db.Canonical.{TextCodec}
use chronolog_db.Protocol.{returned-injective, bind-returned, Outcome-cases, returned}
use chronolog_db.Protocol.Primitives.{Crypto}
use chronolog_db.Capabilities.Types.{
  CapabilityGrant, SignedCapabilityRevision, EffectiveCapability, CapabilitySnapshot,
}
use chronolog_db.Capabilities.Activity.{is_capability_active, before, within}
use chronolog_db.Capabilities.Reducer.{
  Capabilities, capability_id, add_grant, revision_grants, apply_capability_revision, apply_all,
}
use chronolog_db.Capabilities.Reducer.Endures.{
  unchanged, revoked_now, Outlives, Outlives-grant, Endures, Endures-refl, Endures-trans,
  Endures-new, revoke_all-Endures,
}
use chronolog_db.Capabilities.Reducer.Stages.{
  revision_grants-step, extend_snapshot-Stages, apply_capability_revision-parts,
  check_successor-revision,
}

-- What stands afterwards where something or nothing stood, seen at a revision.
pub data IsKept (at : ℕ) : Option EffectiveCapability → Option EffectiveCapability → Type 0 where
  was_absent : {now : Option EffectiveCapability} → IsKept at none now
  is_kept :
      {c d : EffectiveCapability}
      → d.grant ≡ c.grant
      → is_capability_active d at ≡ is_capability_active c at
      → IsKept at (some c) (some d)

module _ (codec : TextCodec) (crypto : Crypto) where
  add_grant-Endures :
      (r at : ℕ) (grant : CapabilityGrant) (m n : Capabilities)
      → add_grant codec crypto at grant m ≡ returned n
      → Endures r m n
  unfolding add_grant
  add_grant-Endures r at grant m n h = elim (Outcome-cases (capability_id codec crypto grant)) [
    | inr (e, bad) ↦ absurd (ground (arith, bad, h))
    | inl (id, good) ↦ elim (Bool-cases (Map.has m id)) [
      | inl known ↦ absurd (ground (arith, good, known, h))
      | inr fresh ↦
          let new : EffectiveCapability = record {
            id = id;
            grant = grant;
            granted_at_revision = at;
            revoked_at_revision = none;
          } in
          let added : Map.set m id new ≡ n = ground (arith, good, fresh, h) in
          subst (Endures r m) added (Endures-new r m id new fresh)
    ]
  ]

  revision_grants-Endures :
      (r : ℕ) (grants : List CapabilityGrant) (m n : Capabilities)
      → revision_grants codec crypto r grants m ≡ returned n
      → Endures r m n
  unfolding revision_grants
  revision_grants-Endures r [] m n h = subst (Endures r m) (ground arith) (Endures-refl r m)
  revision_grants-Endures r (grant ∷ grants) m n h =
      let (l, checked, added, more) = revision_grants-step codec crypto r grant grants m n h in
      Endures-trans r m l n (add_grant-Endures r r grant m l added)
        (revision_grants-Endures r grants l n more)

  -- What a revision does to a snapshot.
  pub record Succeeds (s : CapabilitySnapshot) (t : CapabilitySnapshot) : Type 0 where
    pub next_revision : t.revision ≡ s.revision + 1
    pub same_group : t.group_id ≡ s.group_id
    pub same_recovery : t.recovery_public_keys ≡ s.recovery_public_keys
    pub same_threshold : t.recovery_threshold ≡ s.recovery_threshold
    pub endures : Endures t.revision s.capabilities t.capabilities

  apply_capability_revision-Succeeds :
      (s : CapabilitySnapshot) (signed : SignedCapabilityRevision) (t : CapabilitySnapshot)
      → apply_capability_revision codec crypto s signed ≡ returned t
      → Succeeds s t
  apply_capability_revision-Succeeds s signed t h =
      let (revision, checked, extended) =
        apply_capability_revision-parts codec crypto s signed t h in
      let p = extend_snapshot-Stages codec crypto s revision t extended in
      let next = check_successor-revision codec crypto s revision signed.signature checked in
      record {
        next_revision = p.is_revision ∙ next;
        same_group = p.same_group;
        same_recovery = p.same_recovery;
        same_threshold = p.same_threshold;
        endures =
            subst (λ r. Endures r s.capabilities t.capabilities) (sym p.is_revision)
              (Endures-trans revision.revision s.capabilities p.revoked t.capabilities
                (revoke_all-Endures revision.revision revision.revocations s.capabilities p.revoked
                  p.is_revoked)
                (revision_grants-Endures revision.revision revision.grants p.revoked t.capabilities
                  p.granted));
      }

  -- A capability that outlives is active at the revisions before as it was.
  Outlives-active :
      (r at : ℕ) (c d : EffectiveCapability)
      → Outlives r c d
      → at ≤ r - 1
      → 1 ≤ r
      → is_capability_active d at ≡ is_capability_active c at
  unfolding is_capability_active
  Outlives-active r at c d (unchanged e) low one = ap (λ z. is_capability_active z at) (sym e)
  Outlives-active r at c d (revoked_now g h k) low one =
      let later : before at d.revoked_at_revision ≡ before at c.revoked_at_revision =
        ground arith in
      let from : leb d.grant.valid_from_revision at ≡ leb c.grant.valid_from_revision at =
        ap (λ z. leb z.valid_from_revision at) (sym g) in
      let until : within at d.grant.valid_until_revision ≡ within at c.grant.valid_until_revision =
        ap (λ z. within at z.valid_until_revision) (sym g) in
      rw (later, from, until) refl

  apply_all-Succeeds :
      (revisions : List SignedCapabilityRevision) (s t : CapabilitySnapshot)
      → apply_all codec crypto s revisions ≡ returned t
      → (t.revision ≡ s.revision + length revisions)
        × (t.group_id ≡ s.group_id)
        × (t.recovery_public_keys ≡ s.recovery_public_keys)
        × (t.recovery_threshold ≡ s.recovery_threshold)
  unfolding apply_all
  apply_all-Succeeds [] s t h =
      let whole = returned-injective h in
      (
        ap (λ z. z.revision) (sym whole) ∙ omega arith,
        ap (λ z. z.group_id) (sym whole),
        ap (λ z. z.recovery_public_keys) (sym whole),
        ap (λ z. z.recovery_threshold) (sym whole),
      )
  apply_all-Succeeds (signed ∷ more) s t h =
      let (next, applied, h1) =
        bind-returned (apply_capability_revision codec crypto s signed) _ h in
      let p = apply_capability_revision-Succeeds s signed next applied in
      let (count, group, recovery, threshold) = apply_all-Succeeds more next t h1 in
      (
        omega (arith, count, p.next_revision),
        group ∙ p.same_group,
        recovery ∙ p.same_recovery,
        threshold ∙ p.same_threshold,
      )

  apply_all-endures :
      (revisions : List SignedCapabilityRevision) (s t : CapabilitySnapshot) (id : Bytes)
      (c : EffectiveCapability) (at : ℕ)
      → apply_all codec crypto s revisions ≡ returned t
      → Map.get s.capabilities id ≡ some c
      → at ≤ s.revision
      → (d : EffectiveCapability) × (Map.get t.capabilities id ≡ some d)
        × (d.grant ≡ c.grant)
        × (is_capability_active d at ≡ is_capability_active c at)
  unfolding apply_all
  apply_all-endures [] s t id c at h found low =
      (c, ap (λ z. Map.get z.capabilities id) (sym (returned-injective h)) ∙ found, refl, refl)
  apply_all-endures (signed ∷ more) s t id c at h found low =
      let (next, applied, h1) =
        bind-returned (apply_capability_revision codec crypto s signed) _ h in
      let p = apply_capability_revision-Succeeds s signed next applied in
      let (d, there, out) = p.endures id c found in
      let (e, last, grant, active) =
        apply_all-endures more next t id d at h1 there (omega (arith, p.next_revision, low)) in
      (
        e,
        last,
        grant ∙ Outlives-grant next.revision c d out,
        active
            ∙ Outlives-active next.revision at c d out (omega (arith, p.next_revision, low))
                (omega (arith, p.next_revision)),
      )

  -- If revisions are applied to a snapshot one after another and none is refused, then the revision number
  -- grows by their count, and the group, the recovery keys and their threshold stay; if a capability was in
  -- the first snapshot, then it is still there with its grant, and at the first revision and every one before
  -- it, it is active afterwards exactly if it was before.
  pub apply_all-keeps_history :
      (revisions : List SignedCapabilityRevision) (s t : CapabilitySnapshot) (id : Bytes) (at : ℕ)
      → apply_all codec crypto s revisions ≡ returned t
      → at ≤ s.revision
      → (t.revision ≡ s.revision + length revisions)
        × (t.group_id ≡ s.group_id)
        × (t.recovery_public_keys ≡ s.recovery_public_keys)
        × (t.recovery_threshold ≡ s.recovery_threshold)
        × IsKept at (Map.get s.capabilities id) (Map.get t.capabilities id)
  apply_all-keeps_history revisions s t id at h low =
      let (count, group, recovery, threshold) = apply_all-Succeeds revisions s t h in
      (
        count,
        group,
        recovery,
        threshold,
        elim (Option-cases (Map.get s.capabilities id)) [
          | inl nothing ↦ rw nothing was_absent
          | inr (c, found) ↦
              let (d, there, grant, active) = apply_all-endures revisions s t id c at h found low in
              rw (found, there) (is_kept grant active)
        ],
      )
