-- ===== src/ControlStore/Restore/Durable.antt =====
-- For persistValidatorCutoff of packages/control-store/src/control-store.ts, and the store that is opened later.
use chronolog_db.Prelude.{
  ℕ, ◌≡◌, refl, ap, sym, ◌∙◌, true, false, some, arith, Bool-cases, inl, inr, ◌==◌, option_beq_iff,
  Option_eq, ℕ_eq,
}
use chronolog_db.Prelude.Map
use chronolog_db.Bytes.{Bytes}
use chronolog_db.Bytes.Laws.{Bytes_eq}
use chronolog_db.ControlStore.Types.{ValidatorCutoffState}
use chronolog_db.ControlStore.Result.{Result-cases, ok}
use chronolog_db.ControlStore.State.{ControlStore, Persistence}
use chronolog_db.ControlStore.Heads.{
  regresses, save_validator_cutoff, journal_cutoff, persist_validator_cutoff,
}
use chronolog_db.ControlStore.Restore.{open_store}
use chronolog_db.ControlStore.Restore.Journal.{open_store-HasAtLeast}
use chronolog_db.ControlStore.Commands.Monotone.{HasAtLeast}

-- A journal that is written has the cutoff.
record IsJournalled (id : Bytes) (ms : ℕ) (p : Persistence) : Type 0 where
  holds : Map.get p.cutoffs id ≡ some ms
  attached : p.attached ≡ true
  journals : p.journals ≡ true

save_validator_cutoff-IsJournalled :
    (c : ValidatorCutoffState) (p : Persistence)
    → p.attached ≡ true
    → p.journals ≡ true
    → (save_validator_cutoff c p).0 ≡ ok tt
    → IsJournalled c.validator_id c.accepted_above_ms (save_validator_cutoff c p).1
unfolding save_validator_cutoff
save_validator_cutoff-IsJournalled c p attached journals h =
    let set = Map.get-set_self p.cutoffs c.validator_id c.accepted_above_ms in
    let equal = option_beq_iff (Map.get p.cutoffs c.validator_id) (some c.accepted_above_ms) in
    record { holds = ground arith; attached = ground arith; journals = ground arith }

journal_cutoff-IsJournalled :
    (id : Bytes) (ms : ℕ) (s : ControlStore)
    → s.persistence.attached ≡ true
    → s.persistence.journals ≡ true
    → (journal_cutoff id ms s).0 ≡ ok tt
    → IsJournalled id ms (journal_cutoff id ms s).1.persistence
unfolding journal_cutoff
journal_cutoff-IsJournalled id ms s attached journals h =
    let c : ValidatorCutoffState = record { validator_id = id; accepted_above_ms = ms } in
    elim (Result-cases (save_validator_cutoff c s.persistence).0) [
      | inr (e, bad) ↦ absurd (ground (arith, bad, h))
      | inl (u, good) ↦
          rw (good, journal_cutoff)
            (save_validator_cutoff-IsJournalled c s.persistence attached journals good)
    ]

persist_validator_cutoff-journals :
    (id : Bytes) (ms : ℕ) (s : ControlStore)
    → s.persistence.attached ≡ true
    → s.persistence.journals ≡ true
    → (Map.get s.validator_cutoffs id == some ms) ≡ false
    → (persist_validator_cutoff id ms s).0 ≡ ok tt
    → persist_validator_cutoff id ms s ≡ journal_cutoff id ms s
unfolding persist_validator_cutoff
persist_validator_cutoff-journals id ms s attached journals fresh h =
    elim (Bool-cases (regresses (Map.get s.validator_cutoffs id) ms)) [
      | inl bad ↦ absurd (ground (arith, bad, h))
      | inr good ↦ rw (good, fresh, attached, journals, persist_validator_cutoff) refl
    ]

-- If a signing cutoff that the store did not have is persisted in a journal and the call returns, then in any
-- store that is opened on this persistence later, the cutoff of the validator is at least as high.
pub persist_validator_cutoff-IsDurable :
    (id : Bytes) (ms : ℕ) (s : ControlStore) (maximum : ℕ) (next : ControlStore)
    → s.persistence.attached ≡ true
    → s.persistence.journals ≡ true
    → (Map.get s.validator_cutoffs id == some ms) ≡ false
    → (persist_validator_cutoff id ms s).0 ≡ ok tt
    → open_store (persist_validator_cutoff id ms s).1.persistence maximum ≡ ok next
    → HasAtLeast next.validator_cutoffs id ms
persist_validator_cutoff-IsDurable id ms s maximum next attached journals fresh h opens =
    let same = persist_validator_cutoff-journals id ms s attached journals fresh h in
    let kept =
      journal_cutoff-IsJournalled id ms s attached journals (ap (λ z. z.0) (sym same) ∙ h) in
    open_store-HasAtLeast (journal_cutoff id ms s).1.persistence maximum next id ms kept.attached
      kept.journals (ap (λ z. open_store z.1.persistence maximum) (sym same) ∙ opens) kept.holds
