-- ===== src/Canonical.antt =====
-- packages/canonical/src/errors.ts and the texts of bytes.ts. What TextEncoder and the fatal TextDecoder
-- answer is an argument: no law of them is used, since `utf8` itself checks what it encodes.
pub mod BigEndian
pub mod Hash
pub mod Fixed
pub mod Cbor
mod Tests
use chronolog_db.Prelude.{
  Bool, true, false, Option, none, some, String, ◌≡◌, refl, ◌⊎◌, inl, inr, ◌==◌, String_eq,
  Option_eq, if◌then◌else◌,
}
use chronolog_db.Bytes.{Bytes}

pub data CanonicalErrorCode : Type 0 where
  cbor_invalid cbor_non_canonical cbor_limit_exceeded schema_invalid : CanonicalErrorCode
  integer_out_of_range invalid_utf8 digest_mismatch : CanonicalErrorCode

-- What a function returns or throws.
pub data Checked {ℓ} (A : Type ℓ) : Type ℓ where
  passed : A → Checked A
  refused : CanonicalErrorCode → Checked A

infixl 5 ◌>>=◌ ◌>>◌
abbrev pub ◌>>=◌ {ℓ κ} : {A : Type ℓ} {B : Type κ} → Checked A → (A → Checked B) → Checked B
passed a >>= f = f a
refused e >>= f = refused e

abbrev pub ◌>>◌ {ℓ κ} : {A : Type ℓ} {B : Type κ} → Checked A → Checked B → Checked B
m >> k = m >>= λ _. k

abbrev pub canonical_invariant : Bool → CanonicalErrorCode → Checked (Unit {0})
canonical_invariant true code = passed tt
canonical_invariant false code = refused code

pub Checked-cases {ℓ} :
    {A : Type ℓ} (c : Checked A)
    → ((a : A) × (c ≡ passed a)) ⊎ ((e : CanonicalErrorCode) × (c ≡ refused e))
Checked-cases (passed a) = inl (a, refl)
Checked-cases (refused e) = inr (e, refl)

-- `textEncoder.encode`, and `fatalTextDecoder.decode` with `none` where it throws.
pub record TextCodec : Type 0 where
  pub encode : String → Bytes
  pub decode : Bytes → Option String

unfoldable pub utf8 : TextCodec → String → Checked Bytes
utf8 codec value =
    if codec.decode (codec.encode value) == some value
    then passed (codec.encode value)
    else refused invalid_utf8

unfoldable pub decode_utf8 : TextCodec → Bytes → Checked String
decode_utf8 codec bytes = elim (codec.decode bytes) [
  | none ↦ refused invalid_utf8
  | some value ↦ passed value
]
