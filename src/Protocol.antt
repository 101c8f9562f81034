-- ===== src/Protocol.antt =====
-- packages/protocol/src/errors.ts and the messages of packages/protocol/src/messages.ts that the
-- capability package reads. The program of a transaction is opaque to it, so it is a type argument.
pub mod Schema
pub mod Primitives
pub mod Messages
mod Tests
use chronolog_db.Prelude.{ℕ, Bool, true, false, Option, String, ◌≡◌, refl, ap, ◌⊎◌, inl, inr}
use chronolog_db.Prelude.Map.{Map}
use chronolog_db.Bytes.{Bytes}

pub data ProtocolErrorCode : Type 0 where
  cbor_invalid cbor_non_canonical cbor_limit_exceeded : ProtocolErrorCode
  schema_invalid unsupported_version integer_out_of_range invalid_utf8 : ProtocolErrorCode
  invalid_key invalid_signature digest_mismatch wrong_domain : ProtocolErrorCode
  duplicate_transaction : ProtocolErrorCode

-- What a function returns or throws.
pub data Outcome {ℓ} (A : Type ℓ) : Type ℓ where
  returned : A → Outcome A
  thrown : ProtocolErrorCode → Outcome A

infixl 5 ◌>>=◌ ◌>>◌
abbrev pub ◌>>=◌ {ℓ κ} : {A : Type ℓ} {B : Type κ} → Outcome A → (A → Outcome B) → Outcome B
returned a >>= f = f a
thrown e >>= f = thrown e

abbrev pub ◌>>◌ {ℓ κ} : {A : Type ℓ} {B : Type κ} → Outcome A → Outcome B → Outcome B
m >> k = m >>= λ _. k

abbrev pub protocol_invariant : Bool → ProtocolErrorCode → Outcome (Unit {0})
protocol_invariant true code = returned tt
protocol_invariant false code = thrown code

pub Outcome-cases {ℓ} :
    {A : Type ℓ} (o : Outcome A)
    → ((a : A) × (o ≡ returned a)) ⊎ ((e : ProtocolErrorCode) × (o ≡ thrown e))
Outcome-cases (returned a) = inl (a, refl)
Outcome-cases (thrown e) = inr (e, refl)

-- What a chain that returns went through.
pub bind-returned {ℓ κ} :
    {A : Type ℓ} {B : Type κ} (m : Outcome A) (f : A → Outcome B) {b : B}
    → (m >>= f) ≡ returned b
    → (a : A) × (m ≡ returned a) × (f a ≡ returned b)
bind-returned (returned a) f h = (a, refl, h)
bind-returned (thrown e) f h = cc

abbrev value_or {ℓ} : {A : Type ℓ} → A → Outcome A → A
value_or a (returned b) = b
value_or a (thrown e) = a

pub returned-injective {ℓ} : {A : Type ℓ} {a b : A} → returned a ≡ returned b → a ≡ b
returned-injective {a} h = ap (value_or a) h

-- A check that did not throw.
pub invariant-returned {ℓ} :
    {B : Type ℓ} (test : Bool) (code : ProtocolErrorCode) (next : Outcome B) {b : B}
    → (protocol_invariant test code >> next) ≡ returned b
    → (test ≡ true) × (next ≡ returned b)
invariant-returned true code next h = (refl, h)
invariant-returned false code next h = cc

pub record TransactionCore {ℓ} (Program : Type ℓ) : Type ℓ where
  pub group_id : Bytes
  pub membership_revision : Bytes
  pub validation_policy : Bytes
  pub author_id : Bytes
  pub author_timestamp_ms : ℕ
  pub nonce : Bytes
  pub execution_manifest_digest : Bytes
  pub program : Program
  pub metadata : Option (Map String Bytes)

-- Its `decision` is always 'admit'.
pub record ValidatorAttestation : Type 0 where
  pub group_id : Bytes
  pub membership_revision : Bytes
  pub validator_capability : Bytes
  pub tx_id : Bytes
  pub validator_id : Bytes
  pub author_timestamp_ms : ℕ
  pub accepted_above_ms : ℕ
  pub candidate_digest : Bytes
  pub policy_version : ℕ
