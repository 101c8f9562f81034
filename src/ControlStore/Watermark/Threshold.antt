-- ===== src/ControlStore/Watermark/Threshold.antt =====
-- What the watermark of a threshold policy promises: `#thresholdWatermark` of
-- packages/control-store/src/control-store.ts.
use chronolog_db.Prelude.{
  ℕ, zero, suc, ◌+◌, ◌-◌, ◌≤◌, ◌<◌, ◌≡◌, refl, subst, Bool, true, false, Option, none, some, List,
  [], ◌∷◌, arith, length, get_elem?, All, Sorted, String, ltb, leb, filter, SubOf, count_more,
  filter-fails, Option-cases, Bool-cases, inl, inr,
}
use chronolog_db.Bytes.{Bytes}
use chronolog_db.ControlStore.Types.{ValidatorHeartbeat}
use chronolog_db.ControlStore.State.{ControlStore}
use chronolog_db.ControlStore.Watermark.{
  heartbeat_for, if_contiguous, present, sort_insert, sort_by_cutoff, at_least, policy_heartbeats,
  selected, threshold_watermark,
}

abbrev NotAfter : ValidatorHeartbeat → ValidatorHeartbeat → Type 0
NotAfter h k = h.acceptance_cutoff_ms ≤ k.acceptance_cutoff_ms

All-NotAfter :
    (h k : ValidatorHeartbeat) (ks : List ValidatorHeartbeat)
    → NotAfter h k
    → All (NotAfter k) ks
    → All (NotAfter h) ks
All-NotAfter h k [] le all = tt
All-NotAfter h k (x ∷ ks) le all = (omega (arith, le, all.0), All-NotAfter h k ks le all.1)

sort_insert-All :
    (j h : ValidatorHeartbeat) (ks : List ValidatorHeartbeat)
    → NotAfter j h
    → All (NotAfter j) ks
    → All (NotAfter j) (sort_insert h ks)
unfolding sort_insert
sort_insert-All j h [] le all = (le, tt)
sort_insert-All j h (k ∷ ks) le all = ground (arith, sort_insert-All j h ks le all.1)

sort_insert-Sorted :
    (h : ValidatorHeartbeat) (ks : List ValidatorHeartbeat)
    → Sorted NotAfter ks
    → Sorted NotAfter (sort_insert h ks)
unfolding sort_insert
sort_insert-Sorted h [] s = (tt, tt)
sort_insert-Sorted h (k ∷ ks) s =
    elim (Bool-cases (leb h.acceptance_cutoff_ms k.acceptance_cutoff_ms)) [
      | inl first ↦ rw first (((ground arith), All-NotAfter h k ks (ground arith) s.0), s)
      | inr later ↦
          rw later (sort_insert-All k h ks (ground arith) s.0, sort_insert-Sorted h ks s.1)
    ]

sort_by_cutoff-Sorted : (hs : List ValidatorHeartbeat) → Sorted NotAfter (sort_by_cutoff hs)
unfolding sort_by_cutoff
sort_by_cutoff-Sorted [] = tt
sort_by_cutoff-Sorted (h ∷ hs) = sort_insert-Sorted h (sort_by_cutoff hs) (sort_by_cutoff-Sorted hs)

-- Sorting changes no count.
sort_insert-counts :
    (c : ℕ) (h : ValidatorHeartbeat) (ks : List ValidatorHeartbeat)
    → (length (sort_insert h ks) ≡ suc (length ks))
      × (length (at_least c (sort_insert h ks)) ≡ length (at_least c (h ∷ ks)))
unfolding sort_insert at_least
sort_insert-counts c h [] = (refl, refl)
sort_insert-counts c h (k ∷ ks) = ground (arith, sort_insert-counts c h ks)

sort_by_cutoff-counts :
    (c : ℕ) (hs : List ValidatorHeartbeat)
    → (length (sort_by_cutoff hs) ≡ length hs)
      × (length (at_least c (sort_by_cutoff hs)) ≡ length (at_least c hs))
unfolding sort_by_cutoff at_least
sort_by_cutoff-counts c [] = (refl, refl)
sort_by_cutoff-counts c (h ∷ hs) =
    ground (arith, sort_insert-counts c h (sort_by_cutoff hs), sort_by_cutoff-counts c hs)

at_least-All :
    (c : ℕ) (hs : List ValidatorHeartbeat)
    → All (λ h. c ≤ h.acceptance_cutoff_ms) hs
    → length (at_least c hs) ≡ length hs
unfolding at_least
at_least-All c [] all = refl
at_least-All c (h ∷ hs) all = ground (arith, at_least-All c hs all.1)

-- From the position of a heartbeat on, no cutoff is below its own.
at_least-get_elem? :
    (hs : List ValidatorHeartbeat) (k : ℕ) {h : ValidatorHeartbeat}
    → Sorted NotAfter hs
    → get_elem? hs k ≡ some h
    → length hs ≤ k + length (at_least h.acceptance_cutoff_ms hs)
unfolding at_least
at_least-get_elem? [] k s at = cc
at_least-get_elem? (x ∷ hs) zero {h} s at =
    let same : x ≡ h = ground arith in
    subst (λ z. length (x ∷ hs) ≤ 0 + length (at_least z.acceptance_cutoff_ms (x ∷ hs))) same
      (ground (arith, at_least-All x.acceptance_cutoff_ms hs s.0))
at_least-get_elem? (x ∷ hs) (suc k) {h} s at =
    ground (arith, at_least-get_elem? hs k {h = h} s.1 at)

-- The validator has no contiguous heartbeat, or its cutoff is below `c`.
unfoldable pub lags : ControlStore → Option Bytes → ℕ → Bytes → Bool
lags s revision c id = elim (if_contiguous (heartbeat_for s id revision)) [
  | none ↦ true
  | some h ↦ ltb h.acceptance_cutoff_ms c
]

lags_lem :
    (s : ControlStore) (revision : Option Bytes) (c : ℕ) (id : Bytes)
    → lags s revision c id ≡ false
    → (h : ValidatorHeartbeat) × (if_contiguous (heartbeat_for s id revision) ≡ some h)
      × (c ≤ h.acceptance_cutoff_ms)
unfolding lags
lags_lem s revision c id e = elim (Option-cases (if_contiguous (heartbeat_for s id revision))) [
  | inl silent ↦ ground arith
  | inr (h, there) ↦ (h, there, ground (arith, there))
]

lags-counts :
    (s : ControlStore) (revision : Option Bytes) (c : ℕ) (ids : List Bytes)
    → (length (filter (lags s revision c) ids)
          + length (at_least c (present (policy_heartbeats s revision ids)))
        ≡ length ids)
      × (length (policy_heartbeats s revision ids) ≡ length ids)
      × (length (present (policy_heartbeats s revision ids)) ≤ length ids)
unfolding lags filter at_least present policy_heartbeats
lags-counts s revision c [] = (omega arith, omega arith, omega arith)
lags-counts s revision c (id ∷ ids) =
    let (count, size, shown) = lags-counts s revision c ids in
    elim (Option-cases (if_contiguous (heartbeat_for s id revision))) [
      | inl silent ↦ ground (arith, silent, count, size, shown)
      | inr (h, there) ↦ ground (arith, there, count, size, shown)
    ]

selected_lem :
    (threshold missing : ℕ) (available : List ValidatorHeartbeat) (h : ValidatorHeartbeat)
    → selected threshold missing available ≡ some h
    → (missing < threshold) × (get_elem? available (threshold - 1 - missing) ≡ some h)
unfolding selected
selected_lem threshold missing available h e = (ground arith, ground arith)

-- Where the watermark is established it is the cutoff of the selected heartbeat.
threshold_watermark-selected :
    (s : ControlStore) (revision : Option Bytes) (policy_id : String) (ids : List Bytes)
    (threshold c : ℕ)
    → (threshold_watermark s revision policy_id ids threshold).cutoff_ms ≡ some c
    → (h : ValidatorHeartbeat) × (h.acceptance_cutoff_ms ≡ c)
      × (selected threshold
            (length (policy_heartbeats s revision ids)
              - length (sort_by_cutoff (present (policy_heartbeats s revision ids))))
            (sort_by_cutoff (present (policy_heartbeats s revision ids)))
          ≡ some h)
unfolding threshold_watermark
threshold_watermark-selected s revision policy_id ids threshold c e =
    let available = sort_by_cutoff (present (policy_heartbeats s revision ids)) in
    elim (Option-cases (
      selected threshold (length (policy_heartbeats s revision ids) - length available)
        available)) [
          | inl nothing ↦ ground arith
          | inr (h, there) ↦ (h, ground (arith, there), there)
        ]

-- If a threshold policy has a watermark, then of any `threshold` of its validators one has a
-- contiguous heartbeat whose cutoff is not below the watermark. So no set of validators that could
-- admit a transaction by this threshold is free to accept a timestamp below it.
pub threshold_watermark-covers :
    (s : ControlStore) (revision : Option Bytes) (policy_id : String) (ids : List Bytes)
    (threshold c : ℕ) (quorum : List Bytes)
    → (threshold_watermark s revision policy_id ids threshold).cutoff_ms ≡ some c
    → SubOf quorum ids
    → threshold ≤ length quorum
    → (i : ℕ) × (id : Bytes) × (h : ValidatorHeartbeat) × (get_elem? quorum i ≡ some id)
      × (if_contiguous (heartbeat_for s id revision) ≡ some h)
      × (c ≤ h.acceptance_cutoff_ms)
threshold_watermark-covers s revision policy_id ids threshold c quorum e sub enough =
    let heartbeats = policy_heartbeats s revision ids in
    let available = sort_by_cutoff (present heartbeats) in
    let (h, cutoff, there) = threshold_watermark-selected s revision policy_id ids threshold c e in
    let (few, at) =
      selected_lem threshold (length heartbeats - length available) available h there in
    let above =
      at_least-get_elem? available (threshold - 1 - (length heartbeats - length available))
        (sort_by_cutoff-Sorted (present heartbeats)) at in
    let sorted = sort_by_cutoff-counts h.acceptance_cutoff_ms (present heartbeats) in
    let counts = lags-counts s revision h.acceptance_cutoff_ms ids in
    let less = count_more (lags s revision h.acceptance_cutoff_ms) sub in
    let (i, id, found, ready) =
      filter-fails (lags s revision h.acceptance_cutoff_ms) quorum (
        omega
          (arith, few, above, sorted.0, sorted.1, counts.0, counts.1, counts.2, less, enough)) in
    let (k, live, high) = lags_lem s revision h.acceptance_cutoff_ms id ready in
    (i, id, k, found, live, omega (arith, cutoff, high))
