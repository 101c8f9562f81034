-- ===== src/ControlStore/Settlement.antt =====
-- settlementEvidence and #unresolvedAttestations of packages/control-store/src/control-store.ts.
-- The order of texts by `sort()` is that of their UTF-16 units; it is an argument here.
pub mod Covered
use chronolog_db.Prelude.{
  ℕ, Bool, false, Option, none, some, List, [], ◌∷◌, map, String, leb, if◌then◌else◌,
}
use chronolog_db.Prelude.Map
use chronolog_db.Bytes.{Bytes}
use chronolog_db.Bytes.Laws.{Bytes_eq}
use chronolog_db.ControlStore.Types.{
  WatermarkPolicy, StoredAttestation, SettlementEvidence, HistoryReopening,
}
use chronolog_db.ControlStore.Result.{Result, ok, err}
use chronolog_db.ControlStore.State.{ControlStore}
use chronolog_db.ControlStore.Insert.{required_candidate}
use chronolog_db.ControlStore.Watermark.{watermark}

unfoldable pub unresolved_attestations :
    ControlStore → List StoredAttestation → List StoredAttestation
unresolved_attestations s [] = []
unresolved_attestations s (a ∷ as') =
    let rest = unresolved_attestations s as' in
    if Map.has s.candidates a.tx_id then rest else a ∷ rest

unfoldable pub reopenings_at : ℕ → List HistoryReopening → List String
reopenings_at timestamp [] = []
reopenings_at timestamp (r ∷ rs) =
    let rest = reopenings_at timestamp rs in if leb r.floor_ms timestamp then r.id ∷ rest else rest

abbrev pub is_below : ℕ → Option ℕ → Bool
is_below timestamp none = false
is_below timestamp (some cutoff) = leb timestamp cutoff

unfoldable pub settlement_evidence :
    (List String → List String)
    → Bytes
    → WatermarkPolicy
    → Option Bytes
    → ControlStore
    → Result SettlementEvidence
unfolding required_candidate watermark unresolved_attestations reopenings_at
settlement_evidence sort_texts tx_id policy revision s = elim (required_candidate s tx_id) [
  | err e ↦ err e
  | ok candidate ↦
      let evidence = watermark s policy revision in
      let timestamp = candidate.order_key.author_timestamp_ms in
      ok (record {
        tx_id = tx_id;
        candidate_state = candidate.state;
        order_key = candidate.order_key;
        proof_attestation_ids = candidate.proof_attestation_ids;
        watermark = evidence;
        below_watermark = is_below timestamp evidence.cutoff_ms;
        unresolved_attestation_ids =
            map (λ a. a.attestation_id) (unresolved_attestations s (Map.values s.attestations));
        history_reopening_ids =
            sort_texts (reopenings_at timestamp (Map.values s.history_reopenings));
      })
]
