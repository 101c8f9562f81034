-- ===== src/Capabilities/Recovery/Accepted.antt =====
-- For verifyRecoveryRecord of packages/capabilities/src/recovery.ts: which records are accepted.
use chronolog_db.Prelude.{
  ℕ, suc, ◌≡◌, refl, ap, true, false, List, [], ◌∷◌, arith, length, filter, All, Sorted, Bool-cases,
  inl, inr, leb, any,
}
use chronolog_db.Bytes.{Bytes}
use chronolog_db.Canonical.{TextCodec}
use chronolog_db.Protocol.{returned}
use chronolog_db.Protocol.Primitives.{Crypto}
use chronolog_db.Capabilities.Types.{CapabilitySnapshot, RecoverySignature, RecoveryRecord}
use chronolog_db.Capabilities.Codec.Recovery.{encode_recovery_payload}
use chronolog_db.Capabilities.Recovery.{
  is_signed, count_valid, verify_recovery_record, matches_snapshot,
}
use chronolog_db.Capabilities.Recovery.Threshold.{Differ, IsNew}

All-IsNew_more :
    (item : RecoverySignature) (seen : List ℕ) (items : List RecoverySignature)
    → All (Differ item) items
    → All (IsNew seen) items
    → All (IsNew (item.recovery_key_index ∷ seen)) items
unfolding any
All-IsNew_more item seen [] d h = tt
All-IsNew_more item seen (s ∷ items) d h =
    (ground (arith, d.0, h.0), All-IsNew_more item seen items d.1 h.1)

All-IsNew_nil : (items : List RecoverySignature) → All (IsNew []) items
unfolding any
All-IsNew_nil [] = tt
All-IsNew_nil (s ∷ items) = (refl, All-IsNew_nil items)

module _ (codec : TextCodec) (crypto : Crypto) (keys : Bytes × (Bytes × Bytes))
    (bytes : Bytes) where
  -- An index that is no key has signed nothing.
  is_signed-beyond :
      (item : RecoverySignature)
      → leb 3 item.recovery_key_index ≡ true
      → is_signed codec crypto keys bytes item ≡ false
  is_signed-beyond item h = ground (arith, h)

  -- All valid signatures are counted if their indices differ.
  count_valid-filter :
      (seen : List ℕ) (items : List RecoverySignature)
      → Sorted Differ items
      → All (IsNew seen) items
      → count_valid codec crypto keys bytes seen items
        ≡ length (filter (is_signed codec crypto keys bytes) items)
  unfolding count_valid filter
  count_valid-filter seen [] d h = refl
  count_valid-filter seen (item ∷ items) d h =
      let index = item.recovery_key_index in
      let again = count_valid-filter seen items d.1 h.1 in
      let rest =
        count_valid-filter (index ∷ seen) items d.1 (All-IsNew_more item seen items d.0 h.1) in
      elim (Bool-cases (leb 3 index)) [
        | inl beyond ↦ rw (beyond, is_signed-beyond item beyond, count_valid, filter) again
        | inr near ↦ elim (Bool-cases (is_signed codec crypto keys bytes item)) [
          | inl valid ↦ rw (near, h.0, valid, count_valid, filter) (ap suc rest)
          | inr invalid ↦ rw (near, h.0, invalid, count_valid, filter) rest
        ]
      ]

module _ (codec : TextCodec) (crypto : Crypto) where
  -- If a record matches a snapshot, its payload is encoded and the indices of its signatures differ, then it is
  -- accepted exactly if at least `recovery_threshold` many of its signatures are valid.
  pub verify_recovery_record-filter :
      (snapshot : CapabilitySnapshot) (r : RecoveryRecord) (bytes : Bytes)
      → matches_snapshot snapshot r.payload ≡ true
      → encode_recovery_payload codec r.payload ≡ returned bytes
      → Sorted Differ r.signatures
      → verify_recovery_record codec crypto snapshot r
        ≡ returned (
            leb snapshot.recovery_threshold (
              length
                (filter (is_signed codec crypto snapshot.recovery_public_keys bytes) r.signatures)))
  unfolding verify_recovery_record
  verify_recovery_record-filter snapshot r bytes matches encoded differ =
      rw
        (
          matches,
          encoded,
          count_valid-filter codec crypto snapshot.recovery_public_keys bytes [] r.signatures differ
              (All-IsNew_nil r.signatures),
        )
        refl
