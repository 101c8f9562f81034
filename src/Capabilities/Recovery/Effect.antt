-- ===== src/Capabilities/Recovery/Effect.antt =====
-- For applyRecoveryRecord of packages/capabilities/src/recovery.ts: the validators behind a recovery.
use chronolog_db.Prelude.{
  ℕ, ◌<◌, ◌≡◌, ap, sym, ◌∙◌, true, false, ◌||◌, Option, none, some, Option-cases, List, [], ◌∷◌,
  arith, Bool-cases, ◌⊎◌, inl, inr, subst, nat_eq, Mem, at_head, in_tail,
}
use chronolog_db.Prelude.Map
use chronolog_db.Bytes.{Bytes, bytes_equal}
use chronolog_db.Bytes.Laws.{Bytes_eq}
use chronolog_db.Canonical.{TextCodec}
use chronolog_db.Protocol.{
  bind-returned, invariant-returned, returned-injective, returned, schema_invalid,
  invalid_signature,
}
use chronolog_db.Protocol.Primitives.{Crypto, hash_domain, recovery_domain}
use chronolog_db.Capabilities.Types.{
  RecoveryPayload, validator, CapabilityGrant, EffectiveCapability, CapabilitySnapshot,
  RecoveryRecord,
}
use chronolog_db.Capabilities.Codec.Recovery.{encode_recovery_payload}
use chronolog_db.Capabilities.Activity.{same_role}
use chronolog_db.Capabilities.Reducer.{Capabilities, validator_floor, add_grant}
use chronolog_db.Capabilities.Reducer.Added.{Added, add_grant-Added}
use chronolog_db.Capabilities.Reducer.Validators.{IsOpenValidator}
use chronolog_db.Capabilities.Recovery.{
  is_recovered, revoke_recovered, recovery_grants, keeps_floor, matches_snapshot,
  verify_recovery_record, apply_recovery_record,
}
use chronolog_db.Capabilities.Recovery.Threshold.{verify_recovery_record-IsThreshold}

-- A capability that is no validator's or that is revoked.
pub data IsClosed (d : EffectiveCapability) : Type 0 where
  of_other : same_role d.grant.role validator ≡ false → IsClosed d
  revoked_at : (at : ℕ) → d.revoked_at_revision ≡ some at → IsClosed d

-- What may stand in the snapshot behind a recovery with these grants.
pub data IsAccounted (grants : List CapabilityGrant) : Option EffectiveCapability → Type 0 where
  absent : IsAccounted grants none
  closed : {d : EffectiveCapability} → IsClosed d → IsAccounted grants (some d)
  appointed : {d : EffectiveCapability} → Mem d.grant grants → IsAccounted grants (some d)

injective : {c d : EffectiveCapability} → some c ≡ some d → c ≡ d
injective h = ground (arith, h)

-- A validator that is open is recovered.
IsOpenValidator-recovered :
    (root : Bytes) (c : EffectiveCapability) → IsOpenValidator c → is_recovered root c ≡ true
IsOpenValidator-recovered root c (is_validator, open') = ground (arith, is_validator, open')

-- No validator is open behind the loop that revokes.
revoke_recovered-closed :
    (root : Bytes) (r : ℕ) (m : Capabilities) (id : Bytes) (d : EffectiveCapability)
    → Map.get (revoke_recovered root r m) id ≡ some d
    → IsOpenValidator d
    → ⊥
unfolding revoke_recovered Map.get
revoke_recovered-closed root r [] id d h open' = absurd (ground (arith, h))
revoke_recovered-closed root r ((key, c) ∷ m) id d h open' =
    elim (Bool-cases (bytes_equal key id)) [
      | inr differs ↦ revoke_recovered-closed root r m id d (ground (arith, differs, h)) open'
      | inl same ↦ elim (Bool-cases (is_recovered root c)) [
        | inl revoked ↦
            let one : d.revoked_at_revision ≡ some r =
              ap (λ z. z.revoked_at_revision)
                (sym (injective (rw (same, revoked, revoke_recovered, Map.get) at h))) in
            absurd (ground (arith, one, open'.1))
        | inr kept ↦
            let one : c ≡ d = injective (rw (same, kept, revoke_recovered, Map.get) at h) in
            absurd (
              ground (
                arith,
                kept,
                IsOpenValidator-recovered root c (subst IsOpenValidator (sym one) open'),
              ))
      ]
    ]

matches_snapshot-later :
    (s : CapabilitySnapshot) (payload : RecoveryPayload) (revision : ℕ)
    → matches_snapshot s payload ≡ true
    → revision ≡ payload.new_revision
    → s.revision < revision
unfolding matches_snapshot
matches_snapshot-later s payload revision h number = ground (arith, h, number)

IsOpenValidator-cases : (d : EffectiveCapability) → IsOpenValidator d ⊎ IsClosed d
IsOpenValidator-cases d = elim (Bool-cases (same_role d.grant.role validator)) [
  | inr other ↦ inr (of_other other)
  | inl is_validator ↦ elim (Option-cases d.revoked_at_revision) [
    | inl open' ↦ inl (is_validator, open')
    | inr (at, revoked) ↦ inr (revoked_at at revoked)
  ]
]

module _ (codec : TextCodec) (crypto : Crypto) where
  -- What is there behind a grant that is added was there before or is the grant's.
  Added-source :
      (grant : CapabilityGrant) (m n : Capabilities) (id : Bytes) (d : EffectiveCapability)
      → Added codec crypto grant m n
      → Map.get n id ≡ some d
      → (Map.get m id ≡ some d) ⊎ (d.grant ≡ grant)
  Added-source grant m n id d a found =
      let found' : Map.get (Map.set m a.id a.new) id ≡ some d =
        ap (λ z. Map.get z id) a.whole ∙ found in
      elim (Bool-cases (bytes_equal a.id id)) [
        | inr differs ↦ inl (ground (arith, Map.get-set m a.id id a.new, differs, found'))
        | inl same ↦
            let one : a.new ≡ d = ground (arith, Map.get-set m a.id id a.new, same, found') in
            inr (ap (λ z. z.grant) (sym one) ∙ a.of_grant)
      ]

  recovery_grants-source :
      (r : ℕ) (grants : List CapabilityGrant) (m n : Capabilities) (id : Bytes)
      (d : EffectiveCapability)
      → recovery_grants codec crypto r grants m ≡ returned n
      → Map.get n id ≡ some d
      → (Map.get m id ≡ some d) ⊎ Mem d.grant grants
  unfolding recovery_grants
  recovery_grants-source r [] m n id d h found =
      inl (ap (λ z. Map.get z id) (returned-injective h) ∙ found)
  recovery_grants-source r (grant ∷ grants) m n id d h found =
      let (starts, h1) =
        invariant-returned (nat_eq grant.valid_from_revision r) schema_invalid _ h in
      let (l, added, more) = bind-returned (add_grant codec crypto r grant m) _ h1 in
      elim (recovery_grants-source r grants l n id d more found) [
        | inr later ↦ inr (in_tail later)
        | inl earlier ↦
            elim (Added-source grant m l id d (add_grant-Added codec crypto r grant m l added)
              earlier) [ inl before ↦ inl before | inr now ↦ inr (at_head now) ]
      ]

  -- Behind the revocations and the grants of a record every capability is accounted for.
  recovery_grants-IsAccounted :
      (root : Bytes) (r : ℕ) (grants : List CapabilityGrant) (m n : Capabilities) (id : Bytes)
      → recovery_grants codec crypto r grants (revoke_recovered root r m) ≡ returned n
      → IsAccounted grants (Map.get n id)
  recovery_grants-IsAccounted root r grants m n id granted = elim (Option-cases (Map.get n id)) [
    | inl nothing ↦ rw nothing absent
    | inr (d, found) ↦ rw found (elim (IsOpenValidator-cases d) [
      | inr other ↦ closed other
      | inl open' ↦
          elim (recovery_grants-source r grants (revoke_recovered root r m) n id d granted found) [
            | inr among ↦ appointed among
            | inl before ↦ absurd (revoke_recovered-closed root r m id d before open')
          ]
    ])
  ]

  -- If a recovery record is applied to a snapshot, then the revision number rises to the record's, and a
  -- capability that is there afterwards is no validator's, is revoked, or is one that the record grants.
  pub apply_recovery_record-granted :
      (s : CapabilitySnapshot) (r : RecoveryRecord) (t : CapabilitySnapshot) (id : Bytes)
      → apply_recovery_record codec crypto s r ≡ returned t
      → (s.revision < t.revision)
        × (t.revision ≡ r.payload.new_revision)
        × IsAccounted r.payload.validator_grants (Map.get t.capabilities id)
  unfolding apply_recovery_record
  apply_recovery_record-granted s r t id h =
      let (verified, is_verified, h1) =
        bind-returned (verify_recovery_record codec crypto s r) _ h in
      let (valid, h2) = invariant-returned verified invalid_signature _ h1 in
      let (floors, h3) =
        invariant-returned
          (r.payload.reopen_history
            || keeps_floor codec crypto r.payload (validator_floor (Map.values s.capabilities) 0))
          schema_invalid _ h2 in
      let (n, granted, h4) =
        bind-returned
          (recovery_grants codec crypto r.payload.new_revision r.payload.validator_grants
            (revoke_recovered s.root_admin_public_key r.payload.new_revision s.capabilities))
          _ h3 in
      let (bytes, encoded, h5) = bind-returned (encode_recovery_payload codec r.payload) _ h4 in
      let (digest, digested, h6) =
        bind-returned (hash_domain codec crypto recovery_domain bytes) _ h5 in
      let whole = returned-injective h6 in
      let accepted = is_verified ∙ ap returned valid in
      let matches = (verify_recovery_record-IsThreshold codec crypto s r accepted).0 in
      let number : t.revision ≡ r.payload.new_revision = ap (λ z. z.revision) (sym whole) in
      (
        matches_snapshot-later s r.payload t.revision matches number,
        number,
        subst (λ z. IsAccounted r.payload.validator_grants (Map.get z.capabilities id)) whole
            (recovery_grants-IsAccounted s.root_admin_public_key r.payload.new_revision
              r.payload.validator_grants s.capabilities n id granted),
      )
