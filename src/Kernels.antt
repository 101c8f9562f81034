-- ===== src/Kernels.antt =====
-- packages/kernels/src: the arithmetic that transactions may use. Here its errors (errors.ts).
pub mod Int64
pub mod Decimal
pub mod Vector
mod Tests
use chronolog_db.Prelude.{Bool, true, false}

pub data KernelErrorCode : Type 0 where
  invalid_argument_encoding type_mismatch numeric_overflow division_by_zero : KernelErrorCode
  decimal_rescale_required invalid_utf8 invalid_json json_duplicate_key : KernelErrorCode
  json_depth_limit json_path_error vector_dimension_mismatch : KernelErrorCode
  vector_value_invalid semantic_resource_limit unsupported_operation : KernelErrorCode

-- What a kernel function returns, or the code of the `KernelError` that it throws.
pub data Computed {ℓ} (A : Type ℓ) : Type ℓ where
  gives : A → Computed A
  fails : KernelErrorCode → Computed A

infixl 5 ◌>>=◌ ◌>>◌
abbrev pub ◌>>=◌ {ℓ κ} : {A : Type ℓ} {B : Type κ} → Computed A → (A → Computed B) → Computed B
fails code >>= next = fails code
gives a >>= next = next a

abbrev pub ◌>>◌ {ℓ κ} : {A : Type ℓ} {B : Type κ} → Computed A → Computed B → Computed B
first >> second = first >>= λ _. second

abbrev pub kernel_assert : Bool → KernelErrorCode → Computed (Unit {0})
kernel_assert false code = fails code
kernel_assert true code = gives tt
