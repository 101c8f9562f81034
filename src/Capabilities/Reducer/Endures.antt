-- ===== src/Capabilities/Reducer/Endures.antt =====
-- For packages/capabilities/src/reducer.ts: how the capabilities of a snapshot outlive revocations and grants.
use chronolog_db.Prelude.{
  ℕ, ◌≡◌, refl, ap, sym, ◌∙◌, false, none, some, List, [], ◌∷◌, arith, Bool-cases, Option-cases,
  inl, inr, subst,
}
use chronolog_db.Prelude.Map
use chronolog_db.Bytes.{Bytes, bytes_equal}
use chronolog_db.Bytes.Laws.{Bytes_eq, bytes_equal_iff}
use chronolog_db.Protocol.{returned}
use chronolog_db.Capabilities.Types.{EffectiveCapability}
use chronolog_db.Capabilities.Reducer.{Capabilities, revoke_all}

-- The capability is the same, or it was not revoked and now is, at revision `r`.
pub data Outlives (r : ℕ) (c d : EffectiveCapability) : Type 0 where
  unchanged : c ≡ d → Outlives r c d
  revoked_now :
      c.grant ≡ d.grant
      → c.revoked_at_revision ≡ none
      → d.revoked_at_revision ≡ some r
      → Outlives r c d

pub Outlives-grant : (r : ℕ) (c d : EffectiveCapability) → Outlives r c d → d.grant ≡ c.grant
Outlives-grant r c d (unchanged e) = ap (λ z. z.grant) (sym e)
Outlives-grant r c d (revoked_now g h k) = sym g

-- No capability is lost, and each outlives.
abbrev pub Endures : ℕ → Capabilities → Capabilities → Type 0
Endures r m n =
    (id : Bytes) (c : EffectiveCapability)
    → Map.get m id ≡ some c
    → (d : EffectiveCapability) × (Map.get n id ≡ some d) × Outlives r c d

Outlives-trans :
    (r : ℕ) (b c d : EffectiveCapability) → Outlives r b c → Outlives r c d → Outlives r b d
Outlives-trans r b c d (unchanged e) (unchanged f) = unchanged (e ∙ f)
Outlives-trans r b c d (unchanged e) (revoked_now g h k) =
    revoked_now (ap (λ z. z.grant) e ∙ g) (ap (λ z. z.revoked_at_revision) e ∙ h) k
Outlives-trans r b c d (revoked_now g h k) (unchanged f) =
    revoked_now (g ∙ ap (λ z. z.grant) f) h (ap (λ z. z.revoked_at_revision) (sym f) ∙ k)
Outlives-trans r b c d (revoked_now g h k) (revoked_now g' h' k') = absurd (ground arith)

pub Endures-refl : (r : ℕ) (m : Capabilities) → Endures r m m
Endures-refl r m id c h = (c, h, unchanged refl)

pub Endures-trans : (r : ℕ) (l m n : Capabilities) → Endures r l m → Endures r m n → Endures r l n
Endures-trans r l m n first second id b h =
    let (c, found, once) = first id b h in
    let (d, found', twice) = second id c found in (d, found', Outlives-trans r b c d once twice)

-- To write a capability that outlives the one before keeps every capability.
Endures-set :
    (r : ℕ) (m : Capabilities) (id : Bytes) (old new : EffectiveCapability)
    → Map.get m id ≡ some old
    → Outlives r old new
    → Endures r m (Map.set m id new)
Endures-set r m id old new h out other c found = elim (Bool-cases (bytes_equal id other)) [
  | inl same ↦
      let here : id ≡ other = (bytes_equal_iff id other).0 same in
      let equal : some c ≡ some old = sym found ∙ ap (Map.get m) (sym here) ∙ h in
      let one : old ≡ c = ground arith in
      (new, ground (arith, Map.get-set m id other new, same), subst (λ z. Outlives r z new) one out)
  | inr differs ↦ (c, ground (arith, Map.get-set m id other new, differs, found), unchanged refl)
]

-- To write under a new identifier keeps every capability.
pub Endures-new :
    (r : ℕ) (m : Capabilities) (id : Bytes) (new : EffectiveCapability)
    → Map.has m id ≡ false
    → Endures r m (Map.set m id new)
unfolding Map.has
Endures-new r m id new fresh other c found = elim (Bool-cases (bytes_equal id other)) [
  | inl same ↦
      let here : id ≡ other = (bytes_equal_iff id other).0 same in
      let there : Map.get m id ≡ some c = ap (Map.get m) here ∙ found in
      absurd (ground (arith, there, fresh))
  | inr differs ↦ (c, ground (arith, Map.get-set m id other new, differs, found), unchanged refl)
]

pub revoke_all-Endures :
    (r : ℕ) (ids : List Bytes) (m n : Capabilities)
    → revoke_all r ids m ≡ returned n
    → Endures r m n
unfolding revoke_all
revoke_all-Endures r [] m n h = subst (Endures r m) (ground arith) (Endures-refl r m)
revoke_all-Endures r (id ∷ ids) m n h = elim (Option-cases (Map.get m id)) [
  | inl unknown ↦ absurd (ground (arith, unknown, h))
  | inr (active, found) ↦ elim (Option-cases active.revoked_at_revision) [
    | inr (once, revoked) ↦ absurd (ground (arith, found, revoked, h))
    | inl open' ↦
        let new : EffectiveCapability = record active { revoked_at_revision = some r } in
        Endures-trans r m (Map.set m id new) n
          (Endures-set r m id active new found (revoked_now refl open' refl))
          (revoke_all-Endures r ids (Map.set m id new) n (ground (arith, found, open', h)))
  ]
]
