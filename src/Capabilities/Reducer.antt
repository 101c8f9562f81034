-- ===== src/Capabilities/Reducer.antt =====
-- packages/capabilities/src/reducer.ts: the capability log. A snapshot is made of the genesis and of the
-- revisions after it.
pub mod Genesis
pub mod Digest
pub mod Endures
pub mod Stages
pub mod History
pub mod Validators
pub mod Added
pub mod Floors
use chronolog_db.Prelude.{
  ℕ, ◌+◌, compare, Bool, true, false, not, ◌&&◌, Option, none, some, List, [], ◌∷◌, map, String,
  ltb, leb, nat_eq, filter, sort, if◌then◌else◌,
}
use chronolog_db.Prelude.Map
use chronolog_db.Prelude.Map.{Map}
use chronolog_db.Bytes.{Bytes, bytes_equal, compare_bytes}
use chronolog_db.Bytes.Laws.{Bytes_eq}
use chronolog_db.Canonical.{TextCodec}
use chronolog_db.Canonical.Cbor.{CborValue, cbor_bytes, cbor_array, cbor_boolean}
use chronolog_db.Protocol.{
  Outcome, returned, thrown, ◌>>=◌, ◌>>◌, protocol_invariant, schema_invalid, digest_mismatch,
  invalid_key, invalid_signature,
}
use chronolog_db.Protocol.Schema.{integer_map, traverse, from_list, encode, unsigned}
use chronolog_db.Protocol.Primitives.{
  Crypto, hash_domain, verify_domain, genesis_domain, capability_revision_domain,
  capability_grant_domain, validation_policy_domain, capability_snapshot_domain,
}
use chronolog_db.Capabilities.Types.{
  validator, CapabilityGrant, ValidationPolicy, GenesisManifest, SignedGenesis, CapabilityRevision,
  SignedCapabilityRevision, EffectiveCapability, EffectivePolicy, CapabilitySnapshot,
}
use chronolog_db.Capabilities.Activity.{same_role}
use chronolog_db.Capabilities.Codec.{if_some, is_some, grant_to_cbor, policy_to_cbor}
use chronolog_db.Capabilities.Codec.Genesis.{encode_genesis_manifest, decode_genesis_manifest}
use chronolog_db.Capabilities.Codec.Revision.{
  encode_capability_revision, decode_capability_revision,
}

abbrev pub Capabilities : Type 0
Capabilities = Map Bytes EffectiveCapability

abbrev Policies : Type 0
Policies = Map Bytes EffectivePolicy

-- `x ?? y`
abbrev pub or_default {ℓ} : {A : Type ℓ} → Option A → A → A
or_default none y = y
or_default (some x) y = x

-- The larger of a maximum so far and a floor.
abbrev pub higher : ℕ → ℕ → ℕ
higher maximum floor = if ltb maximum floor then floor else maximum

-- The highest floor of the validators that are not revoked.
unfoldable pub validator_floor : List EffectiveCapability → ℕ → ℕ
unfolding same_role
validator_floor [] maximum = maximum
validator_floor (c ∷ capabilities) maximum = validator_floor capabilities (
    if same_role c.grant.role validator && not (is_some c.revoked_at_revision)
    then higher maximum (or_default c.grant.minimum_author_timestamp_ms 0)
    else maximum)

-- `(floor ?? -1n) >= bound`
abbrev pub is_at_least : Option ℕ → ℕ → Bool
is_at_least none bound = false
is_at_least (some floor) bound = leb bound floor

-- A validator whose floor is below that of the active validators would reopen closed history.
unfoldable pub check_floor : CapabilityGrant → Capabilities → Outcome (Unit {0})
unfolding validator_floor same_role
check_floor grant capabilities =
    if same_role grant.role validator
    then protocol_invariant
        (is_at_least grant.minimum_author_timestamp_ms
          (validator_floor (Map.values capabilities) 0))
        schema_invalid
    else returned tt

-- The loop over the revocations of a revision.
unfoldable pub revoke_all : ℕ → List Bytes → Capabilities → Outcome Capabilities
revoke_all revision [] capabilities = returned capabilities
revoke_all revision (id ∷ ids) capabilities = elim (Map.get capabilities id) [
  | none ↦ thrown schema_invalid
  | some active ↦
      protocol_invariant (not (is_some active.revoked_at_revision)) schema_invalid
      >> revoke_all revision ids
          (Map.set capabilities id (record active { revoked_at_revision = some revision }))
]

module _ (codec : TextCodec) (crypto : Crypto) where
  unfoldable pub capability_id : CapabilityGrant → Outcome Bytes
  unfolding grant_to_cbor encode hash_domain
  capability_id grant = do
    value ← grant_to_cbor grant
    bytes ← encode codec value
    hash_domain codec crypto capability_grant_domain bytes

  unfoldable pub validation_policy_id : ValidationPolicy → Outcome Bytes
  unfolding policy_to_cbor encode hash_domain
  validation_policy_id policy = do
    value ← policy_to_cbor policy
    bytes ← encode codec value
    hash_domain codec crypto validation_policy_domain bytes

  unfoldable pub capability_revision_digest : CapabilityRevision → Outcome Bytes
  unfolding encode_capability_revision hash_domain
  capability_revision_digest revision =
      encode_capability_revision codec revision
      >>= hash_domain codec crypto capability_revision_domain

  -- A grant is added under its identifier, which must be new.
  unfoldable pub add_grant : ℕ → CapabilityGrant → Capabilities → Outcome Capabilities
  unfolding capability_id
  add_grant revision grant capabilities = do
    id ← capability_id grant
    protocol_invariant (not (Map.has capabilities id)) schema_invalid
    returned (
        Map.set capabilities id (record {
          id = id;
          grant = grant;
          granted_at_revision = revision;
          revoked_at_revision = none;
        }))

  -- The loop over the grants of a revision.
  unfoldable pub revision_grants : ℕ → List CapabilityGrant → Capabilities → Outcome Capabilities
  unfolding check_floor add_grant
  revision_grants revision [] capabilities = returned capabilities
  revision_grants revision (grant ∷ grants) capabilities =
      protocol_invariant (nat_eq grant.valid_from_revision revision) schema_invalid
      >> check_floor grant capabilities
      >> (add_grant revision grant capabilities >>= revision_grants revision grants)

  -- The loop over the policies of the genesis or of a revision.
  unfoldable pub install_policies : ℕ → List ValidationPolicy → Policies → Outcome Policies
  unfolding validation_policy_id
  install_policies revision [] policies = returned policies
  install_policies revision (policy ∷ more) policies = do
    id ← validation_policy_id policy
    protocol_invariant (not (Map.has policies id)) schema_invalid
    install_policies revision more (
        Map.set policies id (record { id = id; policy = policy; installed_at_revision = revision }))

  -- The checks of `applyCapabilityRevision` before anything is changed.
  unfoldable pub check_successor :
      CapabilitySnapshot → CapabilityRevision → Bytes → Outcome (Unit {0})
  unfolding encode_capability_revision verify_domain
  check_successor snapshot revision signature = do
    protocol_invariant (bytes_equal revision.group_id snapshot.group_id) schema_invalid
    protocol_invariant (nat_eq revision.revision (snapshot.revision + 1)) schema_invalid
    protocol_invariant (bytes_equal revision.previous_revision_digest snapshot.revision_digest)
        digest_mismatch
    protocol_invariant (bytes_equal revision.issuer_root_public_key snapshot.root_admin_public_key)
        invalid_key
    bytes ← encode_capability_revision codec revision
    protocol_invariant
        (verify_domain codec crypto capability_revision_domain bytes signature
          snapshot.root_admin_public_key)
        invalid_signature

  -- The snapshot behind a revision that passed the checks.
  unfoldable pub extend_snapshot :
      CapabilitySnapshot → CapabilityRevision → Outcome CapabilitySnapshot
  unfolding revoke_all revision_grants install_policies capability_revision_digest
  extend_snapshot snapshot revision = do
    revoked ← revoke_all revision.revision revision.revocations snapshot.capabilities
    capabilities ← revision_grants revision.revision revision.grants revoked
    policies ← install_policies revision.revision revision.validation_policies snapshot.policies
    revision_digest ← capability_revision_digest revision
    returned (record snapshot {
      revision = revision.revision;
      revision_digest = revision_digest;
      root_admin_public_key =
          or_default revision.successor_root_public_key snapshot.root_admin_public_key;
      capability_log_feed =
          or_default revision.successor_capability_log_feed snapshot.capability_log_feed;
      capabilities = capabilities;
      policies = policies;
    })

  unfoldable pub apply_capability_revision :
      CapabilitySnapshot → SignedCapabilityRevision → Outcome CapabilitySnapshot
  unfolding encode_capability_revision decode_capability_revision check_successor extend_snapshot
  apply_capability_revision snapshot signed = do
    encoded ← encode_capability_revision codec signed.revision
    revision ← decode_capability_revision codec encoded
    check_successor snapshot revision signed.signature
    extend_snapshot snapshot revision

  -- The loop over the sorted revisions.
  unfoldable pub apply_all :
      CapabilitySnapshot → List SignedCapabilityRevision → Outcome CapabilitySnapshot
  unfolding apply_capability_revision
  apply_all snapshot [] = returned snapshot
  apply_all snapshot (signed ∷ more) =
      apply_capability_revision snapshot signed >>= λ next. apply_all next more
