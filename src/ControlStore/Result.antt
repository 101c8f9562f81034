-- ===== src/ControlStore/Result.antt =====
-- The errors of packages/control-store/src/control-store.ts, by their codes, and a result that is a
-- value or an error.
use chronolog_db.Prelude.{◌≡◌, refl, Bool, true, false, ◌⊎◌, inl, inr}

pub data StoreError : Type 0 where
  candidate_conflict attestation_conflict reopening_conflict : StoreError
  candidate_not_admission_eligible invalid_admission_proof unknown_candidate : StoreError
  heartbeat_cutoff_regression heartbeat_conflict validator_cutoff_regression : StoreError
  head_revision_regression head_revision_conflict head_ahead_of_order : StoreError
  invalid_checkpoint_prefix pinned_checkpoint_replacement : StoreError
  delta_history_reset duplicate_order_entry invalid_delta_retention : StoreError
  corrupt_delta_sequence corrupt_delta_floor : StoreError
  corrupt_order_state corrupt_duplicate_order corrupt_order : StoreError
  admission_not_monotonic terminal_state payload_not_verified payload_state_regression : StoreError
  -- An index past the end of an array, and what a persistence or an evaluator throws.
  type_error persistence_failure evaluator_failure : StoreError

pub data Result {ℓ} (A : Type ℓ) : Type ℓ where
  ok : A → Result A
  err : StoreError → Result A

infixl 5 ◌>>=◌ ◌>>◌
abbrev pub ◌>>=◌ {ℓ κ} : {A : Type ℓ} {B : Type κ} → Result A → (A → Result B) → Result B
ok a >>= f = f a
err e >>= f = err e

abbrev pub ◌>>◌ {ℓ κ} : {A : Type ℓ} {B : Type κ} → Result A → Result B → Result B
m >> k = m >>= λ _. k

-- `if (!condition) throw`
abbrev pub guard : Bool → StoreError → Result (Unit {0})
guard true e = ok tt
guard false e = err e

pub Result-cases {ℓ} :
    {A : Type ℓ} (r : Result A) → ((a : A) × (r ≡ ok a)) ⊎ ((e : StoreError) × (r ≡ err e))
Result-cases (ok a) = inl (a, refl)
Result-cases (err e) = inr (e, refl)
