-- ===== src/Capabilities/Reducer/Digest.antt =====
-- The digest of a snapshot in packages/capabilities/src/reducer.ts.
use chronolog_db.Prelude.{some, [], ◌∷◌, sort}
use chronolog_db.Prelude.Map
use chronolog_db.Prelude.Map.{Map}
use chronolog_db.Bytes.{Bytes, compare_bytes}
use chronolog_db.Bytes.Laws.{Bytes_eq}
use chronolog_db.Canonical.{TextCodec}
use chronolog_db.Canonical.Cbor.{CborValue, cbor_bytes, cbor_array, cbor_boolean}
use chronolog_db.Protocol.{Outcome, returned, ◌>>=◌}
use chronolog_db.Protocol.Schema.{integer_map, traverse, from_list, encode, unsigned}
use chronolog_db.Protocol.Primitives.{Crypto, hash_domain, capability_snapshot_domain}
use chronolog_db.Capabilities.Types.{EffectiveCapability, EffectivePolicy, CapabilitySnapshot}
use chronolog_db.Capabilities.Codec.{if_some, grant_to_cbor, policy_to_cbor}

module _ (codec : TextCodec) (crypto : Crypto) where
  abbrev capability_entry : EffectiveCapability → Outcome CborValue
  capability_entry entry = grant_to_cbor entry.grant >>= λ grant. returned (
      integer_map (
        (0, some grant)
        ∷ (1, some (cbor_bytes entry.id))
        ∷ (2, some (unsigned entry.granted_at_revision))
        ∷ (3, if_some unsigned entry.revoked_at_revision)
        ∷ []))

  abbrev policy_entry : EffectivePolicy → Outcome CborValue
  policy_entry entry = policy_to_cbor entry.policy >>= λ policy. returned (
      integer_map (
        (0, some policy)
        ∷ (1, some (cbor_bytes entry.id))
        ∷ (2, some (unsigned entry.installed_at_revision))
        ∷ []))

  unfoldable pub capability_snapshot_digest : CapabilitySnapshot → Outcome Bytes
  unfolding integer_map encode hash_domain
  capability_snapshot_digest snapshot = do
    entries ←
        traverse capability_entry
          (sort (λ a b. compare_bytes a.id b.id) (Map.values snapshot.capabilities))
    policies ←
        traverse policy_entry (sort (λ a b. compare_bytes a.id b.id) (Map.values snapshot.policies))
    bytes ← encode codec (
        integer_map (
          (0, some (cbor_bytes snapshot.group_id))
          ∷ (1, some (unsigned snapshot.revision))
          ∷ (2, some (cbor_bytes snapshot.revision_digest))
          ∷ (3, some (cbor_bytes snapshot.root_admin_public_key))
          ∷ (4, some (cbor_bytes snapshot.capability_log_feed))
          ∷ (5, some (cbor_array (from_list entries)))
          ∷ (6, some (cbor_array (from_list policies)))
          ∷ (7, some (cbor_boolean snapshot.history_reopened))
          ∷ (8, if_some cbor_bytes snapshot.recovery_event_digest)
          ∷ []))
    hash_domain codec crypto capability_snapshot_domain bytes
