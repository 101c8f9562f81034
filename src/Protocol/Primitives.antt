-- ===== src/Protocol/Primitives.antt =====
-- packages/protocol/src/primitives.ts: domains, digests and signatures. SHA-256 and the verification of an
-- Ed25519 signature are arguments; a key that cannot be imported verifies nothing.
use chronolog_db.Prelude.{Bool, false, ◌&&◌, ◌∷◌, ◌++◌, String, nat_eq, length}
use chronolog_db.Bytes.{Bytes}
use chronolog_db.Canonical.{TextCodec, utf8}
use chronolog_db.Protocol.{Outcome, returned, thrown, ◌>>=◌}
use chronolog_db.Protocol.Schema.{wrap}

-- `verifies key signature message`
pub record Crypto : Type 0 where
  pub sha256 : Bytes → Bytes
  pub verifies : Bytes → Bytes → Bytes → Bool

pub data ProtocolDomain : Type 0 where
  envelope_domain payload_chunk_domain genesis_domain capability_revision_domain : ProtocolDomain
  capability_grant_domain validation_policy_domain capability_snapshot_domain : ProtocolDomain
  recovery_domain : ProtocolDomain

abbrev pub domain_text : ProtocolDomain → String
domain_text envelope_domain = "chronolog/envelope/v1"
domain_text payload_chunk_domain = "chronolog/payload-chunk/v1"
domain_text genesis_domain = "chronolog/genesis/v1"
domain_text capability_revision_domain = "chronolog/capability-revision/v1"
domain_text capability_grant_domain = "chronolog/capability-grant/v1"
domain_text validation_policy_domain = "chronolog/validation-policy/v1"
domain_text capability_snapshot_domain = "chronolog/capability-snapshot/v1"
domain_text recovery_domain = "chronolog/recovery/v1"

module _ (codec : TextCodec) (crypto : Crypto) where
  unfoldable pub domain_separated_bytes : ProtocolDomain → Bytes → Outcome Bytes
  unfolding utf8
  domain_separated_bytes domain payload =
      wrap (utf8 codec (domain_text domain)) >>= λ name. returned (name ++ 0 ∷ payload)

  unfoldable pub hash_domain : ProtocolDomain → Bytes → Outcome Bytes
  unfolding domain_separated_bytes
  hash_domain domain payload =
      domain_separated_bytes domain payload >>= λ bytes. returned (crypto.sha256 bytes)

  unfoldable pub verify_domain : ProtocolDomain → Bytes → Bytes → Bytes → Bool
  unfolding domain_separated_bytes
  verify_domain domain payload signature public_key =
      nat_eq (length signature) 64
      && nat_eq (length public_key) 32
      && elim (domain_separated_bytes domain payload) [
        | thrown e ↦ false
        | returned message ↦ crypto.verifies public_key signature message
      ]
