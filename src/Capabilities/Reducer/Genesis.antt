-- ===== src/Capabilities/Reducer/Genesis.antt =====
-- The genesis in packages/capabilities/src/reducer.ts, and the whole log behind it.
use chronolog_db.Prelude.{compare, Bool, false, none, List, [], ◌∷◌, nat_eq, sort}
use chronolog_db.Bytes.Laws.{Bytes_eq}
use chronolog_db.Canonical.{TextCodec}
use chronolog_db.Protocol.{
  Outcome, returned, ◌>>=◌, ◌>>◌, protocol_invariant, schema_invalid, invalid_signature,
}
use chronolog_db.Protocol.Primitives.{Crypto, hash_domain, verify_domain, genesis_domain}
use chronolog_db.Capabilities.Types.{
  CapabilityGrant, SignedGenesis, SignedCapabilityRevision, CapabilitySnapshot,
}
use chronolog_db.Capabilities.Codec.Genesis.{encode_genesis_manifest, decode_genesis_manifest}
use chronolog_db.Capabilities.Reducer.{Capabilities, add_grant, install_policies, apply_all}

module _ (codec : TextCodec) (crypto : Crypto) where
  unfoldable pub verify_signed_genesis : SignedGenesis → Outcome Bool
  unfolding encode_genesis_manifest verify_domain
  verify_signed_genesis value = encode_genesis_manifest codec value.manifest >>= λ bytes. returned (
      verify_domain codec crypto genesis_domain bytes value.signature
        value.manifest.root_admin_public_key)

  -- The loop over the grants of the genesis.
  unfoldable genesis_grants : List CapabilityGrant → Capabilities → Outcome Capabilities
  unfolding add_grant
  genesis_grants [] capabilities = returned capabilities
  genesis_grants (grant ∷ grants) capabilities =
      protocol_invariant (nat_eq grant.valid_from_revision 0) schema_invalid
      >> (add_grant codec crypto 0 grant capabilities >>= genesis_grants grants)

  unfoldable pub genesis_snapshot : SignedGenesis → Outcome CapabilitySnapshot
  unfolding verify_signed_genesis encode_genesis_manifest decode_genesis_manifest hash_domain
      genesis_grants install_policies
  genesis_snapshot genesis = do
    verified ← verify_signed_genesis genesis
    protocol_invariant verified invalid_signature
    encoded ← encode_genesis_manifest codec genesis.manifest
    manifest ← decode_genesis_manifest codec encoded
    bytes ← encode_genesis_manifest codec manifest
    genesis_digest ← hash_domain codec crypto genesis_domain bytes
    capabilities ← genesis_grants manifest.initial_capabilities []
    policies ← install_policies codec crypto 0 manifest.validation_policies []
    returned (record {
      group_id = manifest.group_id;
      revision = 0;
      revision_digest = genesis_digest;
      root_admin_public_key = manifest.root_admin_public_key;
      capability_log_feed = manifest.capability_log_feed;
      capabilities = capabilities;
      policies = policies;
      recovery_public_keys = manifest.recovery_public_keys;
      recovery_threshold = manifest.recovery_threshold;
      history_reopened = false;
      recovery_event_digest = none;
    })

  unfoldable pub reduce_capability_log :
      SignedGenesis → List SignedCapabilityRevision → Outcome CapabilitySnapshot
  unfolding genesis_snapshot apply_all
  reduce_capability_log genesis revisions = genesis_snapshot genesis >>= λ snapshot.
      apply_all codec crypto snapshot
        (sort (λ a b. compare a.revision.revision b.revision.revision) revisions)
