-- ===== src/Capabilities/Recovery.antt =====
-- packages/capabilities/src/recovery.ts: recovery by a threshold of the recovery keys.
pub mod Threshold
pub mod Accepted
pub mod Effect
use chronolog_db.Prelude.{
  ℕ, suc, ◌+◌, compare, Bool, true, false, not, ◌&&◌, ◌||◌, Option, none, some, List, [], ◌∷◌, map,
  ltb, leb, nat_eq, any, sort, if◌then◌else◌, ℕ_eq,
}
use chronolog_db.Prelude.Map
use chronolog_db.Prelude.Map.{Map}
use chronolog_db.Bytes.{Bytes, bytes_equal}
use chronolog_db.Canonical.{TextCodec}
use chronolog_db.Protocol.{
  Outcome, returned, thrown, ◌>>=◌, ◌>>◌, protocol_invariant, schema_invalid, invalid_signature,
}
use chronolog_db.Protocol.Primitives.{Crypto, hash_domain, verify_domain, recovery_domain}
use chronolog_db.Capabilities.Types.{
  validator, CapabilityGrant, EffectiveCapability, CapabilitySnapshot, RecoveryPayload,
  RecoverySignature, RecoveryRecord,
}
use chronolog_db.Capabilities.Activity.{same_role}
use chronolog_db.Capabilities.Codec.{is_some}
use chronolog_db.Capabilities.Codec.Recovery.{encode_recovery_payload}
use chronolog_db.Capabilities.Reducer.{Capabilities, validator_floor, is_at_least, add_grant}

-- `new Map(signatures.map(...))`, keyed by the index.
unfoldable index_signatures :
    List RecoverySignature → Map ℕ RecoverySignature → Map ℕ RecoverySignature
index_signatures [] unique = unique
index_signatures (s ∷ signatures) unique =
    index_signatures signatures (Map.set unique s.recovery_key_index s)

unfoldable pub combine_recovery_signatures :
    RecoveryPayload → List RecoverySignature → RecoveryRecord
unfolding index_signatures
combine_recovery_signatures payload signatures = record {
  payload = payload;
  signatures =
      sort (λ a b. compare a.recovery_key_index b.recovery_key_index)
        (Map.values (index_signatures signatures []));
}

-- `recoveryPublicKeys[index]`
abbrev key_at : Bytes × (Bytes × Bytes) → ℕ → Option Bytes
key_at (a, (b, c)) index =
    if nat_eq index 0
    then some a
    else if nat_eq index 1
    then some b
    else if nat_eq index 2
    then some c
    else none

abbrev pub was_seen : List ℕ → ℕ → Bool
was_seen seen index = any (nat_eq index) seen

-- What the record must say of the snapshot that it recovers.
unfoldable pub matches_snapshot : CapabilitySnapshot → RecoveryPayload → Bool
matches_snapshot snapshot payload =
    bytes_equal payload.group_id snapshot.group_id
    && nat_eq payload.last_revision snapshot.revision
    && bytes_equal payload.last_revision_digest snapshot.revision_digest
    && ltb snapshot.revision payload.new_revision

-- The capability is revoked by a recovery: a validator's, or one of the root key.
abbrev pub is_recovered : Bytes → EffectiveCapability → Bool
is_recovered root effective =
    not (is_some effective.revoked_at_revision)
    && (same_role effective.grant.role validator
        || bytes_equal effective.grant.signing_public_key root)

-- The loop that revokes, which writes under the key that it visits.
unfoldable pub revoke_recovered : Bytes → ℕ → Capabilities → Capabilities
unfolding same_role
revoke_recovered root revision [] = []
revoke_recovered root revision ((key, effective) ∷ capabilities) =
    (
      key,
      if is_recovered root effective
          then record effective { revoked_at_revision = some revision }
          else effective,
    )
    ∷ revoke_recovered root revision capabilities

module _ (codec : TextCodec) (crypto : Crypto) where
  abbrev pub is_signed : Bytes × (Bytes × Bytes) → Bytes → RecoverySignature → Bool
  is_signed keys bytes item = elim (key_at keys item.recovery_key_index) [
    | none ↦ false
    | some public_key ↦ verify_domain codec crypto recovery_domain bytes item.signature public_key
  ]

  -- The loop over the signatures: how many are valid, of indices that are keys and were not seen.
  unfoldable pub count_valid : Bytes × (Bytes × Bytes) → Bytes → List ℕ → List RecoverySignature → ℕ
  unfolding verify_domain
  count_valid keys bytes seen [] = 0
  count_valid keys bytes seen (item ∷ items) =
      let again = count_valid keys bytes seen items in
      let rest = count_valid keys bytes (item.recovery_key_index ∷ seen) items in
      if leb 3 item.recovery_key_index || was_seen seen item.recovery_key_index
      then again
      else if is_signed keys bytes item
      then suc rest
      else rest

  unfoldable pub verify_recovery_record : CapabilitySnapshot → RecoveryRecord → Outcome Bool
  unfolding matches_snapshot encode_recovery_payload count_valid
  verify_recovery_record snapshot r =
      if not (matches_snapshot snapshot r.payload)
      then returned false
      else encode_recovery_payload codec r.payload >>= λ bytes. returned (
          leb snapshot.recovery_threshold
            (count_valid snapshot.recovery_public_keys bytes [] r.signatures))

  -- The loop over the grants of a recovery.
  unfoldable pub recovery_grants : ℕ → List CapabilityGrant → Capabilities → Outcome Capabilities
  unfolding add_grant
  recovery_grants revision [] capabilities = returned capabilities
  recovery_grants revision (grant ∷ grants) capabilities =
      protocol_invariant (nat_eq grant.valid_from_revision revision) schema_invalid
      >> (add_grant codec crypto revision grant capabilities >>= recovery_grants revision grants)

  abbrev pub keeps_floor : RecoveryPayload → ℕ → Bool
  keeps_floor payload floor = not (
      any (λ grant. not (is_at_least grant.minimum_author_timestamp_ms floor))
        payload.validator_grants)

  unfoldable pub apply_recovery_record :
      CapabilitySnapshot → RecoveryRecord → Outcome CapabilitySnapshot
  unfolding verify_recovery_record validator_floor revoke_recovered recovery_grants
      encode_recovery_payload hash_domain
  apply_recovery_record snapshot r = do
    verified ← verify_recovery_record snapshot r
    protocol_invariant verified invalid_signature
    protocol_invariant
        (r.payload.reopen_history
          || keeps_floor r.payload (validator_floor (Map.values snapshot.capabilities) 0))
        schema_invalid
    capabilities ← recovery_grants r.payload.new_revision r.payload.validator_grants (
        revoke_recovered snapshot.root_admin_public_key r.payload.new_revision
          snapshot.capabilities)
    bytes ← encode_recovery_payload codec r.payload
    recovery_event_digest ← hash_domain codec crypto recovery_domain bytes
    returned (record snapshot {
      revision = r.payload.new_revision;
      revision_digest = recovery_event_digest;
      root_admin_public_key = r.payload.new_root_public_key;
      capability_log_feed = r.payload.new_capability_log_feed;
      capabilities = capabilities;
      history_reopened = r.payload.reopen_history;
      recovery_event_digest = some recovery_event_digest;
    })
