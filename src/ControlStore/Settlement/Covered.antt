-- ===== src/ControlStore/Settlement/Covered.antt =====
-- For settlementEvidence of packages/control-store/src/control-store.ts: what `belowWatermark` means.
use chronolog_db.Prelude.{
  ℕ, ◌≤◌, ◌≡◌, refl, true, Option, none, some, List, String, arith, Option-cases, length, get_elem?,
  inl, inr, SubOf,
}
use chronolog_db.Prelude.Map
use chronolog_db.Bytes.{Bytes}
use chronolog_db.Bytes.Laws.{Bytes_eq}
use chronolog_db.ControlStore.Types.{
  ValidatorHeartbeat, StoredCandidate, SettlementEvidence, threshold_policy,
}
use chronolog_db.ControlStore.Result.{ok}
use chronolog_db.ControlStore.State.{ControlStore}
use chronolog_db.ControlStore.Insert.{required_candidate}
use chronolog_db.ControlStore.Watermark.{
  if_contiguous, heartbeat_for, watermark, threshold_watermark,
}
use chronolog_db.ControlStore.Watermark.Threshold.{threshold_watermark-covers}
use chronolog_db.ControlStore.Settlement.{settlement_evidence, is_below}

is_below_lem :
    (timestamp : ℕ) (o : Option ℕ)
    → is_below timestamp o ≡ true
    → (c : ℕ) × (o ≡ some c) × (timestamp ≤ c)
is_below_lem timestamp none h = cc
is_below_lem timestamp (some c) h = (c, refl, ground arith)

settlement_evidence-cutoff :
    (sort_texts : List String → List String) (s : ControlStore) (tx_id : Bytes) (policy_id : String)
    (ids : List Bytes) (threshold : ℕ) (revision : Option Bytes) (e : SettlementEvidence)
    → settlement_evidence sort_texts tx_id (threshold_policy policy_id ids threshold) revision s
      ≡ ok e
    → e.below_watermark ≡ true
    → (c : StoredCandidate) × (Map.get s.candidates tx_id ≡ some c)
      × (is_below c.order_key.author_timestamp_ms
            (threshold_watermark s revision policy_id ids threshold).cutoff_ms
          ≡ true)
unfolding settlement_evidence required_candidate watermark
settlement_evidence-cutoff sort_texts s tx_id policy_id ids threshold revision e h below =
    elim (Option-cases (Map.get s.candidates tx_id)) [
      | inl nothing ↦ ground (arith, nothing, h)
      | inr (c, there) ↦ (c, there, ground (arith, there, h, below))
    ]

-- If the settlement evidence of a transaction is returned for a threshold policy and says that the transaction
-- is below the watermark, then its candidate is stored, and of any `threshold` of the validators one has a
-- contiguous heartbeat whose cutoff is not below the timestamp of the candidate.
pub settlement_evidence-covers :
    (sort_texts : List String → List String) (s : ControlStore) (tx_id : Bytes) (policy_id : String)
    (ids : List Bytes) (threshold : ℕ) (revision : Option Bytes) (e : SettlementEvidence)
    (quorum : List Bytes)
    → settlement_evidence sort_texts tx_id (threshold_policy policy_id ids threshold) revision s
      ≡ ok e
    → e.below_watermark ≡ true
    → SubOf quorum ids
    → threshold ≤ length quorum
    → (c : StoredCandidate) × (i : ℕ) × (id : Bytes) × (h : ValidatorHeartbeat) × (Map.get
          s.candidates tx_id
        ≡ some c)
      × (get_elem? quorum i ≡ some id)
      × (if_contiguous (heartbeat_for s id revision) ≡ some h)
      × (c.order_key.author_timestamp_ms ≤ h.acceptance_cutoff_ms)
settlement_evidence-covers sort_texts s tx_id policy_id ids threshold revision e quorum h below sub
      enough =
    let (c, there, low) =
      settlement_evidence-cutoff sort_texts s tx_id policy_id ids threshold revision e h below in
    let (cutoff, is_cutoff, at_most) =
      is_below_lem c.order_key.author_timestamp_ms
        (threshold_watermark s revision policy_id ids threshold).cutoff_ms low in
    let (i, id, beat, found, live, high) =
      threshold_watermark-covers s revision policy_id ids threshold cutoff quorum is_cutoff sub
        enough in
    (c, i, id, beat, there, found, live, omega (arith, at_most, high))
