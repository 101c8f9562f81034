-- ===== src/Canonical/Hash.antt =====
-- packages/canonical/src/hash.ts: what is hashed under a domain. SHA-256 is an argument.
pub mod Separation
use chronolog_db.Prelude.{◌∷◌, ◌++◌, String, length, String_eq, Option_eq}
use chronolog_db.Bytes.{Bytes}
use chronolog_db.Canonical.{Checked, passed, ◌>>=◌, TextCodec, utf8}
use chronolog_db.Canonical.BigEndian.{big_endian}

pub data HashDomainKey : Type 0 where
  transaction schema execution_manifest query_result expectation module_domain : HashDomainKey
  entropy : HashDomainKey

-- `HASH_DOMAINS`
abbrev pub hash_domains : HashDomainKey → String
hash_domains transaction = "chronolog/transaction"
hash_domains schema = "chronolog/schema"
hash_domains execution_manifest = "chronolog/execution-manifest"
hash_domains query_result = "chronolog/query-result"
hash_domains expectation = "chronolog/expectation"
hash_domains module_domain = "chronolog/module"
hash_domains entropy = "chronolog/entropy"

module _ (codec : TextCodec) where
  unfoldable pub domain_separated_bytes : HashDomainKey → Bytes → Checked Bytes
  unfolding utf8 big_endian
  domain_separated_bytes domain payload = utf8 codec (hash_domains domain) >>= λ name.
      passed (big_endian 4 (length name) ++ (name ++ 0 ∷ payload))

  unfoldable pub hash_domain : (Bytes → Bytes) → HashDomainKey → Bytes → Checked Bytes
  unfolding domain_separated_bytes
  hash_domain sha256 domain payload =
      domain_separated_bytes domain payload >>= λ bytes. passed (sha256 bytes)
