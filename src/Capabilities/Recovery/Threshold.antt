-- ===== src/Capabilities/Recovery/Threshold.antt =====
-- For verifyRecoveryRecord of packages/capabilities/src/recovery.ts: who signed a record that is accepted.
use chronolog_db.Prelude.{
  ℕ, suc, ◌≤◌, ◌≡◌, ◌≢◌, refl, ap, true, false, ◌||◌, List, [], ◌∷◌, arith, length, All, Sorted,
  SubOf, done, skip, keep, Bool-cases, inl, inr, leb, any,
}
use chronolog_db.Bytes.{Bytes}
use chronolog_db.Canonical.{TextCodec}
use chronolog_db.Protocol.{bind-returned, returned-injective, returned}
use chronolog_db.Protocol.Primitives.{Crypto}
use chronolog_db.Capabilities.Types.{CapabilitySnapshot, RecoverySignature, RecoveryRecord}
use chronolog_db.Capabilities.Codec.Recovery.{encode_recovery_payload}
use chronolog_db.Capabilities.Recovery.{
  was_seen, is_signed, count_valid, verify_recovery_record, matches_snapshot,
}

abbrev pub Differ : RecoverySignature → RecoverySignature → Type 0
Differ a b = a.recovery_key_index ≢ b.recovery_key_index

abbrev pub IsNew : List ℕ → RecoverySignature → Type 0
IsNew seen s = was_seen seen s.recovery_key_index ≡ false

-- Signatures of new indices are new without the last index too, and differ from it.
All-IsNew :
    (index : ℕ) (seen : List ℕ) (signers : List RecoverySignature)
    → All (IsNew (index ∷ seen)) signers
    → All (IsNew seen) signers
unfolding any
All-IsNew index seen [] h = tt
All-IsNew index seen (s ∷ signers) h = (ground (arith, h.0), All-IsNew index seen signers h.1)

All-Differ :
    (item : RecoverySignature) (seen : List ℕ) (signers : List RecoverySignature)
    → All (IsNew (item.recovery_key_index ∷ seen)) signers
    → All (Differ item) signers
unfolding any
All-Differ item seen [] h = tt
All-Differ item seen (s ∷ signers) h =
    ((λ same. ground (arith, h.0, same)), All-Differ item seen signers h.1)

module _ (codec : TextCodec) (crypto : Crypto) where
  abbrev pub Signed : Bytes × (Bytes × Bytes) → Bytes → RecoverySignature → Type 0
  Signed keys bytes s = is_signed codec crypto keys bytes s ≡ true

  -- So many signatures are valid, new, and of different indices.
  record Signers (keys : Bytes × (Bytes × Bytes)) (bytes : Bytes) (seen : List ℕ)
      (items : List RecoverySignature) (total : ℕ) : Type 0 where
    signers : List RecoverySignature
    among : SubOf signers items
    count : length signers ≡ total
    signed : All (Signed keys bytes) signers
    differ : Sorted Differ signers
    new : All (IsNew seen) signers

  module _ (keys : Bytes × (Bytes × Bytes)) (bytes : Bytes) (item : RecoverySignature)
      (items : List RecoverySignature) (total : ℕ) where
    Signers-skip :
        (seen : List ℕ)
        → Signers keys bytes seen items total
        → Signers keys bytes seen (item ∷ items) total
    Signers-skip seen p = record {
      signers = p.signers;
      among = skip item p.among;
      count = p.count;
      signed = p.signed;
      differ = p.differ;
      new = p.new;
    }

    Signers-older :
        (seen : List ℕ)
        → Signers keys bytes (item.recovery_key_index ∷ seen) items total
        → Signers keys bytes seen items total
    Signers-older seen p = record {
      signers = p.signers;
      among = p.among;
      count = p.count;
      signed = p.signed;
      differ = p.differ;
      new = All-IsNew item.recovery_key_index seen p.signers p.new;
    }

    Signers-keep :
        (seen : List ℕ)
        → was_seen seen item.recovery_key_index ≡ false
        → is_signed codec crypto keys bytes item ≡ true
        → Signers keys bytes (item.recovery_key_index ∷ seen) items total
        → Signers keys bytes seen (item ∷ items) (suc total)
    Signers-keep seen fresh valid p = record {
      signers = item ∷ p.signers;
      among = keep item p.among;
      count = ap suc p.count;
      signed = (valid, p.signed);
      differ = (All-Differ item seen p.signers p.new, p.differ);
      new = (fresh, All-IsNew item.recovery_key_index seen p.signers p.new);
    }

  count_valid-Signers :
      (keys : Bytes × (Bytes × Bytes)) (bytes : Bytes) (seen : List ℕ)
      (items : List RecoverySignature)
      → Signers keys bytes seen items (count_valid codec crypto keys bytes seen items)
  unfolding count_valid
  count_valid-Signers keys bytes seen [] = record {
    signers = [];
    among = done;
    count = refl;
    signed = tt;
    differ = tt;
    new = tt;
  }
  count_valid-Signers keys bytes seen (item ∷ items) =
      let index = item.recovery_key_index in
      let again = count_valid-Signers keys bytes seen items in
      let rest = count_valid-Signers keys bytes (index ∷ seen) items in
      let total = count_valid codec crypto keys bytes (index ∷ seen) items in
      elim (Bool-cases (leb 3 index || was_seen seen index)) [
        | inl skipped ↦
            rw (skipped, count_valid)
              (Signers-skip keys bytes item items (count_valid codec crypto keys bytes seen items)
                seen again)
        | inr fresh ↦ elim (Bool-cases (is_signed codec crypto keys bytes item)) [
          | inr invalid ↦
              rw (fresh, invalid, count_valid)
                (Signers-skip keys bytes item items total seen
                  (Signers-older keys bytes item items total seen rest))
          | inl valid ↦
              rw (fresh, valid, count_valid)
                (Signers-keep keys bytes item items total seen (ground (arith, fresh)) valid rest)
        ]
      ]

  -- If a recovery record is accepted for a snapshot, then it extends the snapshot's revision to a later one,
  -- and among its signatures are at least `recovery_threshold` many of different recovery keys, each valid for
  -- its key and the encoded payload.
  pub verify_recovery_record-IsThreshold :
      (snapshot : CapabilitySnapshot) (r : RecoveryRecord)
      → verify_recovery_record codec crypto snapshot r ≡ returned true
      → (matches_snapshot snapshot r.payload ≡ true)
        × (bytes : Bytes) × (encode_recovery_payload codec r.payload ≡ returned bytes)
        × (signers : List RecoverySignature) × SubOf signers r.signatures
        × (snapshot.recovery_threshold ≤ length signers)
        × All (Signed snapshot.recovery_public_keys bytes) signers
        × Sorted Differ signers
  unfolding verify_recovery_record
  verify_recovery_record-IsThreshold snapshot r h =
      elim (Bool-cases (matches_snapshot snapshot r.payload)) [
        | inr other ↦ absurd (ground (arith, other, h))
        | inl matches ↦
            let (bytes, encoded, h1) =
              bind-returned (encode_recovery_payload codec r.payload) _
                (rw (matches, verify_recovery_record) at h) in
            let p = count_valid-Signers snapshot.recovery_public_keys bytes [] r.signatures in
            let enough = returned-injective h1 in
            (
              matches,
              bytes,
              encoded,
              p.signers,
              p.among,
              ground (arith, p.count, enough),
              p.signed,
              p.differ,
            )
      ]
