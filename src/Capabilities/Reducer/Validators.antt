-- ===== src/Capabilities/Reducer/Validators.antt =====
-- For packages/capabilities/src/reducer.ts: the floor of the validators that are not revoked.
use chronolog_db.Prelude.{
  ℕ, ◌≤◌, ◌≡◌, ap, sym, ◌∙◌, Bool, true, not, ◌&&◌, Option, none, some, List, [], ◌∷◌, arith,
  Bool-cases, Option-cases, inl, inr, subst,
}
use chronolog_db.Prelude.Map
use chronolog_db.Bytes.{Bytes, bytes_equal}
use chronolog_db.Bytes.Laws.{Bytes_eq, bytes_equal_iff}
use chronolog_db.Protocol.{
  invariant-returned, returned-injective, returned, protocol_invariant, schema_invalid,
}
use chronolog_db.Capabilities.Types.{validator, CapabilityGrant, EffectiveCapability}
use chronolog_db.Capabilities.Activity.{same_role}
use chronolog_db.Capabilities.Codec.{is_some}
use chronolog_db.Capabilities.Reducer.{
  Capabilities, or_default, higher, validator_floor, is_at_least, check_floor, revoke_all,
}

-- A validator that is not revoked, and its floor.
abbrev pub IsOpenValidator : EffectiveCapability → Type 0
IsOpenValidator c = (same_role c.grant.role validator ≡ true) × (c.revoked_at_revision ≡ none)

abbrev pub floor_of : CapabilityGrant → ℕ
floor_of grant = or_default grant.minimum_author_timestamp_ms 0

abbrev is_open : EffectiveCapability → Bool
is_open c = same_role c.grant.role validator && not (is_some c.revoked_at_revision)

is_open-IsOpenValidator : (c : EffectiveCapability) → IsOpenValidator c → is_open c ≡ true
is_open-IsOpenValidator c (is_validator, open') = ground (arith, is_validator, open')

validator_floor_more :
    (capabilities : List EffectiveCapability) (maximum : ℕ)
    → maximum ≤ validator_floor capabilities maximum
unfolding validator_floor
validator_floor_more [] maximum = omega arith
validator_floor_more (c ∷ capabilities) maximum = elim (Bool-cases (is_open c)) [
  | inl open' ↦
      let next = higher maximum (floor_of c.grant) in
      let more = validator_floor_more capabilities next in
      let up : maximum ≤ next = ground arith in
      rw (open', validator_floor) (omega (arith, more, up))
  | inr closed ↦ rw (closed, validator_floor) (validator_floor_more capabilities maximum)
]

-- The floor of the validators is not below that of any of them.
pub floor_of-validator_floor :
    (m : Capabilities) (maximum : ℕ) (id : Bytes) (d : EffectiveCapability)
    → Map.get m id ≡ some d
    → IsOpenValidator d
    → floor_of d.grant ≤ validator_floor (Map.values m) maximum
unfolding validator_floor Map.get
floor_of-validator_floor [] maximum id d h open' = cc
floor_of-validator_floor ((j, w) ∷ m) maximum id d h open' = elim (Bool-cases (bytes_equal j id)) [
  | inl same ↦
      let here : w ≡ d = ground (arith, same, h) in
      let open_w : is_open w ≡ true =
        subst (λ z. is_open z ≡ true) (sym here) (is_open-IsOpenValidator d open') in
      let next = higher maximum (floor_of w.grant) in
      let more = validator_floor_more (Map.values m) next in
      let up : floor_of w.grant ≤ next = ground arith in
      subst (λ z. floor_of z.grant ≤ validator_floor (Map.values ((j, w) ∷ m)) maximum) here
        (rw (open_w, validator_floor) (omega (arith, more, up)))
  | inr differs ↦
      let rest : Map.get m id ≡ some d = ground (arith, differs, h) in
      elim (Bool-cases (is_open w)) [
        | inl open_w ↦
            rw (open_w, validator_floor)
              (floor_of-validator_floor m (higher maximum (floor_of w.grant)) id d rest open')
        | inr closed ↦
            rw (closed, validator_floor) (floor_of-validator_floor m maximum id d rest open')
      ]
]

is_at_least_lem :
    (o : Option ℕ) (bound : ℕ)
    → protocol_invariant (is_at_least o bound) schema_invalid ≡ returned tt
    → bound ≤ or_default o 0
is_at_least_lem none bound h = cc
is_at_least_lem (some floor) bound h = ground arith

pub check_floor-floor :
    (grant : CapabilityGrant) (m : Capabilities)
    → check_floor grant m ≡ returned tt
    → same_role grant.role validator ≡ true
    → validator_floor (Map.values m) 0 ≤ floor_of grant
unfolding check_floor
check_floor-floor grant m h is_validator =
    is_at_least_lem grant.minimum_author_timestamp_ms (validator_floor (Map.values m) 0)
      (rw (is_validator, check_floor) at h)

pub revoke_all-absent :
    (r : ℕ) (ids : List Bytes) (m n : Capabilities) (id : Bytes)
    → revoke_all r ids m ≡ returned n
    → Map.get m id ≡ none
    → Map.get n id ≡ none
unfolding revoke_all
revoke_all-absent r [] m n id h absent =
    ap (λ z. Map.get z id) (sym (returned-injective h)) ∙ absent
revoke_all-absent r (i ∷ ids) m n id h absent = elim (Option-cases (Map.get m i)) [
  | inl unknown ↦ absurd (ground (arith, unknown, h))
  | inr (active, found) ↦
      let new : EffectiveCapability = record active { revoked_at_revision = some r } in
      let (open', h1) =
        invariant-returned (not (is_some active.revoked_at_revision)) schema_invalid
          (revoke_all r ids (Map.set m i new)) (rw (found, revoke_all) at h) in
      let still : Map.get (Map.set m i new) id ≡ none = elim (Bool-cases (bytes_equal i id)) [
        | inr differs ↦ ground (arith, Map.get-set m i id new, differs, absent)
        | inl same ↦
            let here : i ≡ id = (bytes_equal_iff i id).0 same in
            absurd (ground (arith, sym found ∙ ap (Map.get m) here ∙ absent))
      ] in
      revoke_all-absent r ids (Map.set m i new) n id h1 still
]
