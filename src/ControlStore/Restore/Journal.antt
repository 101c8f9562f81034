-- ===== src/ControlStore/Restore/Journal.antt =====
-- For the constructor of packages/control-store/src/control-store.ts: the journal of signing cutoffs.
use chronolog_db.Prelude.{
  ℕ, ◌≡◌, ap, sym, ◌∙◌, true, some, [], ◌∷◌, arith, Bool-cases, Option-cases, inl, inr, ltb, leb,
  subst,
}
use chronolog_db.Prelude.Map
use chronolog_db.Prelude.Map.{Map}
use chronolog_db.Bytes.{Bytes, bytes_equal}
use chronolog_db.Bytes.Laws.{Bytes_eq, bytes_equal_iff}
use chronolog_db.ControlStore.Result.{Result-cases, ok}
use chronolog_db.ControlStore.State.{ControlStore, Persistence}
use chronolog_db.ControlStore.Restore.{
  merge_cutoff, merge_cutoffs, merge_journal, open_store, load_snapshot,
}
use chronolog_db.ControlStore.Commands.Monotone.{HasAtLeast}

merge_cutoff-keeps :
    (v : Bytes) (c : ℕ) (m : Map Bytes ℕ) (id : Bytes) (n : ℕ)
    → HasAtLeast m id n
    → HasAtLeast (merge_cutoff v c m) id n
unfolding merge_cutoff
merge_cutoff-keeps v c m id n (k, found, high) = elim (Option-cases (Map.get m v)) [
  | inl nothing ↦ elim (Bool-cases (bytes_equal v id)) [
    | inl same ↦
        let here : v ≡ id = (bytes_equal_iff v id).0 same in
        absurd (ground (arith, sym nothing ∙ ap (Map.get m) here ∙ found))
    | inr other ↦ (k, ground (arith, nothing, Map.get-set m v id c, other, found), high)
  ]
  | inr (p, there) ↦ elim (Bool-cases (ltb p c)) [
    | inr low ↦ (k, ground (arith, there, low, found), high)
    | inl above ↦ elim (Bool-cases (bytes_equal v id)) [
      | inl same ↦
          let here : v ≡ id = (bytes_equal_iff v id).0 same in
          let equal : some p ≡ some k = sym there ∙ ap (Map.get m) here ∙ found in
          (
            c,
            ground (arith, there, above, Map.get-set m v id c, same),
            ground (arith, equal, above, high),
          )
      | inr other ↦ (k, ground (arith, there, above, Map.get-set m v id c, other, found), high)
    ]
  ]
]

merge_cutoff-reaches : (v : Bytes) (c : ℕ) (m : Map Bytes ℕ) → HasAtLeast (merge_cutoff v c m) v c
unfolding merge_cutoff
merge_cutoff-reaches v c m = elim (Option-cases (Map.get m v)) [
  | inl nothing ↦ (c, ground (arith, nothing, Map.get-set_self m v c), omega arith)
  | inr (p, there) ↦ elim (Bool-cases (ltb p c)) [
    | inl above ↦ (c, ground (arith, there, above, Map.get-set_self m v c), omega arith)
    | inr low ↦ (p, ground (arith, there, low), ground (arith, low))
  ]
]

merge_cutoffs-keeps :
    (more m : Map Bytes ℕ) (id : Bytes) (n : ℕ)
    → HasAtLeast m id n
    → HasAtLeast (merge_cutoffs more m) id n
unfolding merge_cutoffs
merge_cutoffs-keeps [] m id n h = h
merge_cutoffs-keeps ((v, c) ∷ more) m id n h =
    merge_cutoffs-keeps more (merge_cutoff v c m) id n (merge_cutoff-keeps v c m id n h)

-- A merged cutoff is reached.
merge_cutoffs-reaches :
    (more m : Map Bytes ℕ) (id : Bytes) (n : ℕ)
    → Map.get more id ≡ some n
    → HasAtLeast (merge_cutoffs more m) id n
unfolding merge_cutoffs Map.get
merge_cutoffs-reaches [] m id n h = cc
merge_cutoffs-reaches ((v, c) ∷ more) m id n h = elim (Bool-cases (bytes_equal v id)) [
  | inl same ↦
      let here : v ≡ id = (bytes_equal_iff v id).0 same in
      let equal : c ≡ n = ground arith in
      merge_cutoffs-keeps more (merge_cutoff v c m) id n (
        subst (λ z. HasAtLeast (merge_cutoff v c m) id z) equal
          (subst (λ z. HasAtLeast (merge_cutoff v c m) z c) here (merge_cutoff-reaches v c m)))
  | inr other ↦ merge_cutoffs-reaches more (merge_cutoff v c m) id n (ground arith)
]

initialized :
    (journal : Map Bytes ℕ) (s t : ControlStore)
    → merge_journal journal s ≡ ok t
    → t.validator_cutoffs ≡ merge_cutoffs journal s.validator_cutoffs
unfolding merge_journal
initialized journal s t h = ground arith

opened :
    (p : Persistence) (maximum : ℕ) (t : ControlStore)
    → p.attached ≡ true
    → p.journals ≡ true
    → open_store p maximum ≡ ok t
    → (s : ControlStore) × (merge_journal p.cutoffs s ≡ ok t)
unfolding open_store
opened p maximum t attached journals h = elim (Bool-cases (leb 1 maximum)) [
  | inr bad ↦ absurd (ground arith)
  | inl good ↦ elim (Result-cases (load_snapshot p maximum)) [
    | inr (e, failed) ↦ absurd (ground (arith, good, failed, h))
    | inl (s, loaded) ↦ (s, ground (arith, good, loaded, attached, journals, h))
  ]
]

-- If a store is opened on a persistence with a journal of signing cutoffs, then each cutoff of the journal
-- holds in the store, or a higher one does, also where the snapshot is older or is corrupt and put aside.
pub open_store-HasAtLeast :
    (p : Persistence) (maximum : ℕ) (t : ControlStore) (id : Bytes) (ms : ℕ)
    → p.attached ≡ true
    → p.journals ≡ true
    → open_store p maximum ≡ ok t
    → Map.get p.cutoffs id ≡ some ms
    → HasAtLeast t.validator_cutoffs id ms
open_store-HasAtLeast p maximum t id ms attached journals h found =
    let (s, merged) = opened p maximum t attached journals h in
    subst (λ z. HasAtLeast z id ms) (sym (initialized p.cutoffs s t merged))
      (merge_cutoffs-reaches p.cutoffs s.validator_cutoffs id ms found)
