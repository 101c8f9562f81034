-- ===== src/Capabilities/Reducer/Added.antt =====
-- For packages/capabilities/src/reducer.ts: what is there behind a grant that is added.
use chronolog_db.Prelude.{
  ℕ, ◌≡◌, refl, ap, sym, ◌∙◌, false, not, none, some, arith, Bool-cases, inl, inr, subst,
}
use chronolog_db.Prelude.Map
use chronolog_db.Bytes.{Bytes, bytes_equal}
use chronolog_db.Bytes.Laws.{Bytes_eq, bytes_equal_iff}
use chronolog_db.Canonical.{TextCodec}
use chronolog_db.Protocol.{
  bind-returned, invariant-returned, returned-injective, returned, schema_invalid,
}
use chronolog_db.Protocol.Primitives.{Crypto}
use chronolog_db.Capabilities.Types.{CapabilityGrant, EffectiveCapability}
use chronolog_db.Capabilities.Reducer.{Capabilities, capability_id, add_grant}

module _ (codec : TextCodec) (crypto : Crypto) where
  -- A grant that is added has a new identifier; all others stay.
  pub record Added (grant : CapabilityGrant) (m n : Capabilities) : Type 0 where
    pub id : Bytes
    pub new : EffectiveCapability
    pub is_new : Map.has m id ≡ false
    pub of_grant : new.grant ≡ grant
    pub whole : Map.set m id new ≡ n

  pub add_grant-Added :
      (r : ℕ) (grant : CapabilityGrant) (m n : Capabilities)
      → add_grant codec crypto r grant m ≡ returned n
      → Added grant m n
  unfolding add_grant
  add_grant-Added r grant m n h =
      let (id, good, h1) = bind-returned (capability_id codec crypto grant) _ h in
      let (fresh, h2) = invariant-returned (not (Map.has m id)) schema_invalid _ h1 in
      record {
        id = id;
        new = record {
          id = id;
          grant = grant;
          granted_at_revision = r;
          revoked_at_revision = none;
        };
        is_new = ground arith;
        of_grant = refl;
        whole = returned-injective h2;
      }

  pub Added-keeps :
      (grant : CapabilityGrant) (m n : Capabilities) (id : Bytes) (d : EffectiveCapability)
      → Added grant m n
      → Map.get m id ≡ some d
      → Map.get n id ≡ some d
  unfolding Map.has
  Added-keeps grant m n id d a found =
      subst (λ z. Map.get z id ≡ some d) a.whole
        (elim (Bool-cases (bytes_equal a.id id)) [
          | inr differs ↦ ground (arith, Map.get-set m a.id id a.new, differs, found)
          | inl same ↦
              let here : a.id ≡ id = (bytes_equal_iff a.id id).0 same in
              let there : Map.get m a.id ≡ some d = ap (Map.get m) here ∙ found in
              absurd (ground (arith, there, a.is_new))
        ])

  pub Added-found :
      (grant : CapabilityGrant) (m n : Capabilities) (id : Bytes) (c : EffectiveCapability)
      → Added grant m n
      → Map.get m id ≡ none
      → Map.get n id ≡ some c
      → c.grant ≡ grant
  Added-found grant m n id c a absent found =
      let found' : Map.get (Map.set m a.id a.new) id ≡ some c =
        ap (λ z. Map.get z id) a.whole ∙ found in
      elim (Bool-cases (bytes_equal a.id id)) [
        | inr differs ↦
            absurd (ground (arith, Map.get-set m a.id id a.new, differs, absent, found'))
        | inl same ↦
            let one : a.new ≡ c = ground (arith, Map.get-set m a.id id a.new, same, found') in
            ap (λ z. z.grant) (sym one) ∙ a.of_grant
      ]
