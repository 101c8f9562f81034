-- ===== src/ControlStore/Watermark/Alternatives.antt =====
-- What the watermark of a policy of alternative proofs promises: `watermark` of
-- packages/control-store/src/control-store.ts at `proof-alternatives`.
use chronolog_db.Prelude.{
  ℕ, zero, suc, ◌≤◌, ◌≡◌, ◌⊎◌, refl, ap, ◌∙◌, ℕ_eq, Option, none, some, List, [], ◌∷◌, arith,
  get_elem?, String, Option-cases, inl, inr, Bool-cases, ltb, length, ◌==◌, ◌||◌,
}
use chronolog_db.Prelude.Map
use chronolog_db.Prelude.Map.{Map}
use chronolog_db.Bytes.{Bytes}
use chronolog_db.Bytes.Laws.{Bytes_eq}
use chronolog_db.ControlStore.Types.{ValidatorHeartbeat}
use chronolog_db.ControlStore.State.{ControlStore}
use chronolog_db.ControlStore.Watermark.{
  heartbeat_for, if_contiguous, better, best_of, lower, over_proofs, alternatives_watermark,
  some_empty,
}

better-cases :
    (best o : Option ValidatorHeartbeat) (b : ValidatorHeartbeat)
    → better best o ≡ some b
    → (best ≡ some b) ⊎ (o ≡ some b)
better-cases best none b h = inl h
better-cases none (some k) b h = inr h
better-cases (some d) (some k) b h =
    elim (Bool-cases (ltb d.acceptance_cutoff_ms k.acceptance_cutoff_ms)) [
      | inl more ↦ inr (ground arith)
      | inr less ↦ inl (ground arith)
    ]

-- The best heartbeat of a proof is that of one of its validators.
best_of-member :
    (s : ControlStore) (revision : Option Bytes) (best : Option ValidatorHeartbeat)
    (ids : List Bytes) (b : ValidatorHeartbeat)
    → best_of s revision best ids ≡ some b
    → (best ≡ some b)
      ⊎ ((i : ℕ) × (id : Bytes) × (get_elem? ids i ≡ some id)
          × (if_contiguous (heartbeat_for s id revision) ≡ some b))
unfolding best_of
best_of-member s revision best [] b h = inl h
best_of-member s revision best (id ∷ ids) b h =
    let now = if_contiguous (heartbeat_for s id revision) in
    elim (best_of-member s revision (better best now) ids b h) [
      | inr (i, other, at, there) ↦ inr (suc i, other, at, there)
      | inl kept ↦ elim (better-cases best now b kept) [
        | inl before ↦ inl before
        | inr new ↦ inr (zero, id, refl, new)
      ]
    ]

lower-le : (o : Option ℕ) (n c : ℕ) → c ≤ lower o n → c ≤ n
lower-le none n c le = le
lower-le (some d) n c le = ground arith

over_proofs-le :
    (s : ControlStore) (revision : Option Bytes) (policy_id : String) (d : ℕ)
    (chosen : Map Bytes ValidatorHeartbeat) (proofs : List (List Bytes)) (c : ℕ)
    → (over_proofs s revision policy_id (some d) chosen proofs).cutoff_ms ≡ some c
    → c ≤ d
unfolding over_proofs
over_proofs-le s revision policy_id d chosen [] c h = ground arith
over_proofs-le s revision policy_id d chosen (proof ∷ proofs) c h =
    elim (Option-cases (best_of s revision none proof)) [
      | inl nothing ↦ ground arith
      | inr (b, there) ↦
          let rest =
            over_proofs-le s revision policy_id (lower (some d) b.acceptance_cutoff_ms)
              (Map.set chosen b.validator_id b) proofs c (ground (arith, there, h)) in
          ground (arith, rest)
    ]

over_proofs-best :
    (s : ControlStore) (revision : Option Bytes) (policy_id : String) (cutoff : Option ℕ)
    (chosen : Map Bytes ValidatorHeartbeat) (proofs : List (List Bytes)) (c j : ℕ)
    (proof : List Bytes)
    → (over_proofs s revision policy_id cutoff chosen proofs).cutoff_ms ≡ some c
    → get_elem? proofs j ≡ some proof
    → (b : ValidatorHeartbeat) × (best_of s revision none proof ≡ some b)
      × (c ≤ b.acceptance_cutoff_ms)
unfolding over_proofs
over_proofs-best s revision policy_id cutoff chosen [] c j proof h at = cc
over_proofs-best s revision policy_id cutoff chosen (p ∷ proofs) c zero proof h at =
    elim (Option-cases (best_of s revision none p)) [
      | inl nothing ↦ ground arith
      | inr (b, there) ↦
          let low =
            over_proofs-le s revision policy_id (lower cutoff b.acceptance_cutoff_ms)
              (Map.set chosen b.validator_id b) proofs c (ground (arith, there, h)) in
          let same : proof ≡ p = ground arith in
          (
            b,
            ap (best_of s revision none) same ∙ there,
            lower-le cutoff b.acceptance_cutoff_ms c low,
          )
    ]
over_proofs-best s revision policy_id cutoff chosen (p ∷ proofs) c (suc j) proof h at =
    elim (Option-cases (best_of s revision none p)) [
      | inl nothing ↦ ground arith
      | inr (b, there) ↦
          over_proofs-best s revision policy_id (some (lower cutoff b.acceptance_cutoff_ms))
            (Map.set chosen b.validator_id b) proofs c j proof (ground (arith, there, h)) at
    ]

-- If a policy of alternative proofs has a watermark, each of its proofs names a validator that has a
-- contiguous heartbeat whose cutoff is not below the watermark.
pub alternatives_watermark-covers :
    (s : ControlStore) (revision : Option Bytes) (policy_id : String) (proofs : List (List Bytes))
    (c j : ℕ) (proof : List Bytes)
    → (alternatives_watermark s revision policy_id proofs).cutoff_ms ≡ some c
    → get_elem? proofs j ≡ some proof
    → (i : ℕ) × (id : Bytes) × (h : ValidatorHeartbeat) × (get_elem? proof i ≡ some id)
      × (if_contiguous (heartbeat_for s id revision) ≡ some h)
      × (c ≤ h.acceptance_cutoff_ms)
unfolding alternatives_watermark
alternatives_watermark-covers s revision policy_id proofs c j proof e at =
    elim (Bool-cases (length proofs == 0 || some_empty proofs)) [
      | inl invalid ↦ ground arith
      | inr valid ↦
          let (b, best, high) =
            over_proofs-best s revision policy_id none [] proofs c j proof
              (ground (arith, valid, e)) at in
          elim (best_of-member s revision none proof b best) [
            | inl absent ↦ ground arith
            | inr (i, id, found, live) ↦ (i, id, b, found, live, high)
          ]
    ]
