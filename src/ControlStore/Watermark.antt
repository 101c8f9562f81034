-- ===== src/ControlStore/Watermark.antt =====
-- The watermark below which no further transaction can be admitted, and the settlement evidence:
-- watermark, #thresholdWatermark, #heartbeatFor, #unresolvedAttestations and settlementEvidence of
-- packages/control-store/src/control-store.ts. `sort` is stable and is an insertion sort here. A
-- threshold that is negative or no integer is refused like 0, so it is a number of ℕ.
pub mod Threshold
pub mod Alternatives
use chronolog_db.Prelude.{
  ℕ, ◌-◌, ◌^◌, Bool, true, false, not, ◌&&◌, ◌||◌, Option, none, some, List, [], ◌∷◌, map, String,
  ltb, leb, length, get_elem?, ◌==◌, ℕ_eq, pair_eq, if◌then◌else◌,
}
use chronolog_db.Prelude.Map
use chronolog_db.Prelude.Map.{Map}
use chronolog_db.Bytes.{Bytes, bytes_equal}
use chronolog_db.Bytes.Laws.{Bytes_eq}
use chronolog_db.ControlStore.Types.{
  ValidatorHeartbeat, WatermarkPolicy, threshold_policy, proof_alternatives, WatermarkExplanation,
  established, insufficient_contiguous_heartbeats, invalid_policy, WatermarkEvidence,
}
use chronolog_db.ControlStore.State.{ControlStore}
use chronolog_db.ControlStore.Candidates.{has_ref}

-- `latest === undefined || heartbeat.validatorFeedSequence > latest.validatorFeedSequence`
abbrev pub is_later : Option ValidatorHeartbeat → ValidatorHeartbeat → Bool
is_later none h = true
is_later (some latest) h = ltb latest.validator_feed_sequence h.validator_feed_sequence

-- The loop over all heartbeats for the latest of one validator.
unfoldable pub latest_from :
    Bytes → Option ValidatorHeartbeat → List ValidatorHeartbeat → Option ValidatorHeartbeat
latest_from validator_id latest [] = latest
latest_from validator_id latest (h ∷ hs) =
    latest_from validator_id
      (if bytes_equal h.validator_id validator_id && is_later latest h then some h else latest) hs

unfoldable pub heartbeat_for : ControlStore → Bytes → Option Bytes → Option ValidatorHeartbeat
unfolding latest_from
heartbeat_for s validator_id none = latest_from validator_id none (Map.values s.heartbeats)
heartbeat_for s validator_id (some revision) = Map.get s.heartbeats (revision, validator_id)

abbrev pub if_contiguous : Option ValidatorHeartbeat → Option ValidatorHeartbeat
if_contiguous none = none
if_contiguous (some h) = if h.feed_contiguous then some h else none

-- The heartbeats that are there, of the list with `null`s.
unfoldable pub present : List (Option ValidatorHeartbeat) → List ValidatorHeartbeat
present [] = []
present (none ∷ hs) = present hs
present (some h ∷ hs) = h ∷ present hs

unfoldable pub sort_insert : ValidatorHeartbeat → List ValidatorHeartbeat → List ValidatorHeartbeat
sort_insert h [] = h ∷ []
sort_insert h (k ∷ ks) =
    if leb h.acceptance_cutoff_ms k.acceptance_cutoff_ms then h ∷ k ∷ ks else k ∷ sort_insert h ks

unfoldable pub sort_by_cutoff : List ValidatorHeartbeat → List ValidatorHeartbeat
unfolding sort_insert
sort_by_cutoff [] = []
sort_by_cutoff (h ∷ hs) = sort_insert h (sort_by_cutoff hs)

unfoldable pub at_least : ℕ → List ValidatorHeartbeat → List ValidatorHeartbeat
at_least cutoff [] = []
at_least cutoff (h ∷ hs) =
    let rest = at_least cutoff hs in if leb cutoff h.acceptance_cutoff_ms then h ∷ rest else rest

-- `new Set(ids).size !== ids.length`
unfoldable pub has_duplicate : List Bytes → Bool
unfolding has_ref
has_duplicate [] = false
has_duplicate (id ∷ ids) = has_ref ids id || has_duplicate ids

abbrev pub no_watermark : String → WatermarkExplanation → WatermarkEvidence
no_watermark policy_id why = record {
  policy_id = policy_id;
  cutoff_ms = none;
  blocking_validator_ids = [];
  heartbeat_ids = [];
  explanation = why;
}

abbrev pub established_at : String → ℕ → List ValidatorHeartbeat → WatermarkEvidence
established_at policy_id cutoff blocking = record {
  policy_id = policy_id;
  cutoff_ms = some cutoff;
  blocking_validator_ids = map (λ h. h.validator_id) blocking;
  heartbeat_ids = map (λ h. h.heartbeat_id) blocking;
  explanation = established;
}

-- `Number.MAX_SAFE_INTEGER`
abbrev pub max_safe_integer : ℕ
max_safe_integer = 2 ^ 53 - 1

-- The contiguous heartbeat of each validator, or `null`.
unfoldable pub policy_heartbeats :
    ControlStore → Option Bytes → List Bytes → List (Option ValidatorHeartbeat)
policy_heartbeats s revision [] = []
policy_heartbeats s revision (id ∷ ids) =
    if_contiguous (heartbeat_for s id revision) ∷ policy_heartbeats s revision ids

-- `available[threshold - 1 - missing]`; a negative index has no element.
unfoldable pub selected : ℕ → ℕ → List ValidatorHeartbeat → Option ValidatorHeartbeat
selected threshold missing available =
    if ltb missing threshold then get_elem? available (threshold - 1 - missing) else none

unfoldable pub threshold_watermark :
    ControlStore → Option Bytes → String → List Bytes → ℕ → WatermarkEvidence
unfolding has_duplicate policy_heartbeats present sort_by_cutoff selected at_least
threshold_watermark s revision policy_id validator_ids threshold =
    let heartbeats = policy_heartbeats s revision validator_ids in
    let available = sort_by_cutoff (present heartbeats) in
    if not (leb threshold max_safe_integer)
      || ltb threshold 1
      || ltb (length validator_ids) threshold
      || has_duplicate validator_ids
    then no_watermark policy_id invalid_policy
    else elim (selected threshold (length heartbeats - length available) available) [
      | none ↦ no_watermark policy_id insufficient_contiguous_heartbeats
      | some h ↦
          established_at policy_id h.acceptance_cutoff_ms
            (at_least h.acceptance_cutoff_ms available)
    ]

-- `best === null || heartbeat.acceptanceCutoffMs > best.acceptanceCutoffMs`, at a contiguous one.
abbrev pub better :
    Option ValidatorHeartbeat → Option ValidatorHeartbeat → Option ValidatorHeartbeat
better best none = best
better none (some h) = some h
better (some b) (some h) =
    if ltb b.acceptance_cutoff_ms h.acceptance_cutoff_ms then some h else some b

-- The loop over the validators of one proof.
unfoldable pub best_of :
    ControlStore → Option Bytes → Option ValidatorHeartbeat → List Bytes → Option ValidatorHeartbeat
best_of s revision best [] = best
best_of s revision best (id ∷ ids) =
    best_of s revision (better best (if_contiguous (heartbeat_for s id revision))) ids

abbrev pub lower : Option ℕ → ℕ → ℕ
lower none c = c
lower (some d) c = if ltb c d then c else d

-- The loop over the proofs, from the cutoff and the selection so far.
unfoldable pub over_proofs :
    ControlStore
    → Option Bytes
    → String
    → Option ℕ
    → Map Bytes ValidatorHeartbeat
    → List (List Bytes)
    → WatermarkEvidence
unfolding at_least best_of
over_proofs s revision policy_id none chosen [] = no_watermark policy_id invalid_policy
over_proofs s revision policy_id (some cutoff) chosen [] =
    established_at policy_id cutoff (at_least cutoff (Map.values chosen))
over_proofs s revision policy_id cutoff chosen (proof ∷ proofs) =
    elim (best_of s revision none proof) [
      | none ↦ no_watermark policy_id insufficient_contiguous_heartbeats
      | some best ↦
          over_proofs s revision policy_id (some (lower cutoff best.acceptance_cutoff_ms))
            (Map.set chosen best.validator_id best) proofs
    ]

-- `proofs.some((proof) => proof.length === 0)`
unfoldable pub some_empty : List (List Bytes) → Bool
some_empty [] = false
some_empty ([] ∷ proofs) = true
some_empty ((id ∷ ids) ∷ proofs) = some_empty proofs

unfoldable pub alternatives_watermark :
    ControlStore → Option Bytes → String → List (List Bytes) → WatermarkEvidence
unfolding some_empty over_proofs
alternatives_watermark s revision policy_id proofs =
    if length proofs == 0 || some_empty proofs
    then no_watermark policy_id invalid_policy
    else over_proofs s revision policy_id none [] proofs

unfoldable pub watermark : ControlStore → WatermarkPolicy → Option Bytes → WatermarkEvidence
unfolding threshold_watermark alternatives_watermark
watermark s (threshold_policy policy_id validator_ids threshold) revision =
    threshold_watermark s revision policy_id validator_ids threshold
watermark s (proof_alternatives policy_id proofs) revision =
    alternatives_watermark s revision policy_id proofs
