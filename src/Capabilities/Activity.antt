-- ===== src/Capabilities/Activity.antt =====
-- packages/capabilities/src/reducer.ts: which capabilities of a snapshot are active at a revision
-- (isCapabilityActive, capabilitiesForSubject, hasRole). Roles are compared by their number in `ROLES`
-- of packages/capabilities/src/codec.ts.
use chronolog_db.Prelude.{
  ℕ, Bool, true, ◌&&◌, Option, none, some, List, ltb, leb, nat_eq, filter, any, sort,
}
use chronolog_db.Prelude.Map
use chronolog_db.Bytes.{Bytes, compare_bytes, bytes_equal}
use chronolog_db.Capabilities.Types.{
  CapabilityRole, reader, writer, validator, administrator, schema_administrator,
  EffectiveCapability, CapabilitySnapshot,
}

unfoldable pub role_index : CapabilityRole → ℕ
role_index reader = 0
role_index writer = 1
role_index validator = 2
role_index administrator = 3
role_index schema_administrator = 4

unfoldable pub same_role : CapabilityRole → CapabilityRole → Bool
unfolding role_index
same_role left right = nat_eq (role_index left) (role_index right)

-- `limit === undefined || revision <= limit`
abbrev pub within : ℕ → Option ℕ → Bool
within revision none = true
within revision (some limit) = leb revision limit

-- `revoked === undefined || revision < revoked`
abbrev pub before : ℕ → Option ℕ → Bool
before revision none = true
before revision (some revoked) = ltb revision revoked

unfoldable pub is_capability_active : EffectiveCapability → ℕ → Bool
is_capability_active capability revision =
    leb capability.grant.valid_from_revision revision
    && within revision capability.grant.valid_until_revision
    && before revision capability.revoked_at_revision

unfoldable pub capabilities_for_subject : CapabilitySnapshot → Bytes → ℕ → List EffectiveCapability
capabilities_for_subject snapshot subject_id revision =
    sort (λ a b. compare_bytes a.id b.id)
      (filter
        (λ capability.
          bytes_equal capability.grant.subject_id subject_id
          && is_capability_active capability revision)
        (Map.values snapshot.capabilities))

unfoldable pub has_role : CapabilitySnapshot → Bytes → CapabilityRole → ℕ → Bool
has_role snapshot subject_id role revision =
    any (λ capability. same_role capability.grant.role role)
      (capabilities_for_subject snapshot subject_id revision)
