-- ===== src/ControlStore/Commands/Monotone.antt =====
-- What a validator has announced is never taken back: its heartbeats and its cutoffs only advance.
use chronolog_db.Prelude.{
  ℕ, ◌≤◌, ◌≡◌, refl, Bool, true, false, inl, inr, Option, none, some, List, [], ◌∷◌, arith, String,
  pair_eq, pair_beq, pair_beq_iff, Bool-cases,
}
use chronolog_db.Prelude.Map
use chronolog_db.Prelude.Map.{Map, get-set}
use chronolog_db.Bytes.{Bytes, bytes_equal}
use chronolog_db.Bytes.Laws.{Bytes_eq, bytes_equal_iff}
use chronolog_db.ControlStore.Types.{
  CandidateState, StoredCandidate, PutCandidateInput, ValidatorHeartbeat, ControlStoreDelta,
}
use chronolog_db.ControlStore.State.{ControlStore, append_delta}
use chronolog_db.ControlStore.Insert.{insert_order}
use chronolog_db.ControlStore.Candidates.{finish_order, put_candidate}
use chronolog_db.ControlStore.Transitions.{change_state}
use chronolog_db.ControlStore.Heads.{heartbeat_key, regresses}
use chronolog_db.ControlStore.Commands.{Command, step, run}
use chronolog_db.ControlStore.Commands.Effect.{
  Effect, unchanged, persisted, cut, attested, beat, published, checked, reopened, added, changed,
  Advances, settled, step-Effect,
}

-- The parts of a store that the validators' announcements fill.
abbrev pub SameAnnouncements : ControlStore → ControlStore → Type 0
SameAnnouncements s t = (t.heartbeats ≡ s.heartbeats) × (t.validator_cutoffs ≡ s.validator_cutoffs)

finish_order-SameAnnouncements :
    (flag : Bool) (c : StoredCandidate) (d : ControlStoreDelta) (s : ControlStore)
    → SameAnnouncements s (finish_order flag c d s).1
unfolding finish_order insert_order append_delta
finish_order-SameAnnouncements false c d s = (refl, refl)
finish_order-SameAnnouncements true c d s = (ground arith, ground arith)

put_candidate-SameAnnouncements :
    (input : PutCandidateInput) (s : ControlStore)
    → Map.get s.candidates input.tx_id ≡ none
    → SameAnnouncements s (put_candidate input s).1
unfolding put_candidate
put_candidate-SameAnnouncements input s fresh =
    rw (fresh, put_candidate) (finish_order-SameAnnouncements _ _ _ _)

change_state-SameAnnouncements :
    (c : StoredCandidate) (state : CandidateState) (proof : List Bytes) (reason : Option String)
    (id : Bytes) (s : ControlStore)
    → SameAnnouncements s (change_state c state proof reason id s).1
unfolding change_state
change_state-SameAnnouncements c state proof reason id s = finish_order-SameAnnouncements _ _ _ _

-- A stored heartbeat has one at least as new and as far behind it.
abbrev pub HasLater :
    Map (Bytes × Bytes) ValidatorHeartbeat → Bytes × Bytes → ValidatorHeartbeat → Type 0
HasLater m key h =
    (k : ValidatorHeartbeat) × (Map.get m key ≡ some k)
    × (h.validator_feed_sequence ≤ k.validator_feed_sequence)
    × (h.acceptance_cutoff_ms ≤ k.acceptance_cutoff_ms)

-- A stored cutoff is there at least as high.
abbrev pub HasAtLeast : Map Bytes ℕ → Bytes → ℕ → Type 0
HasAtLeast m id ms = (n : ℕ) × (Map.get m id ≡ some n) × (ms ≤ n)

HasLater-set :
    (m : Map (Bytes × Bytes) ValidatorHeartbeat) (key : Bytes × Bytes) (h next : ValidatorHeartbeat)
    → Map.get m key ≡ some h
    → Advances (Map.get m (heartbeat_key next)) next
    → HasLater (Map.set m (heartbeat_key next) next) key h
HasLater-set m key h next found newer = elim (Bool-cases (pair_beq (heartbeat_key next) key)) [
  | inl t ↦
      let same : heartbeat_key next ≡ key = (pair_beq_iff (heartbeat_key next) key).0 t in
      let there : Map.get m (heartbeat_key next) ≡ some h = rw same found in
      let (later, higher) = rw there at newer in
      (next, ground (arith, get-set m (heartbeat_key next) key next), omega arith, omega arith)
  | inr f ↦ (h, ground (arith, get-set m (heartbeat_key next) key next), omega arith, omega arith)
]

HasAtLeast-set :
    (m : Map Bytes ℕ) (key id : Bytes) (ms n : ℕ)
    → Map.get m id ≡ some n
    → regresses (Map.get m key) ms ≡ false
    → HasAtLeast (Map.set m key ms) id n
HasAtLeast-set m key id ms n found grows = elim (Bool-cases (bytes_equal key id)) [
  | inl t ↦
      let same : key ≡ id = (bytes_equal_iff key id).0 t in
      (ms, ground (arith, get-set m key id ms), ground arith)
  | inr f ↦ (n, ground (arith, get-set m key id ms), omega arith)
]

module _ {Q : PutCandidateInput → Type 0} where
  Effect-HasLater :
      {s t : ControlStore}
      → Effect Q s t
      → (key : Bytes × Bytes) (h : ValidatorHeartbeat) → Map.get s.heartbeats key ≡ some h
      → HasLater t.heartbeats key h
  unfolding settled
  Effect-HasLater (unchanged e) key h f = rw e (h, f, omega arith, omega arith)
  Effect-HasLater (persisted p e) key h f = rw e (h, f, omega arith, omega arith)
  Effect-HasLater (cut v ms p grows e) key h f = rw e (h, f, omega arith, omega arith)
  Effect-HasLater (attested a event fresh e) key h f = rw e (h, f, omega arith, omega arith)
  Effect-HasLater {s} (beat b event newer e) key h f =
      rw e (HasLater-set s.heartbeats key h b f newer)
  Effect-HasLater (published x event newer fits e) key h f = rw e (h, f, omega arith, omega arith)
  Effect-HasLater (checked x event fits e) key h f = rw e (h, f, omega arith, omega arith)
  Effect-HasLater (reopened r event fresh e) key h f = rw e (h, f, omega arith, omega arith)
  Effect-HasLater {s} (added input q fresh e) key h f =
      rw e (rw (put_candidate-SameAnnouncements input s fresh).0 (h, f, omega arith, omega arith))
  Effect-HasLater {s} (changed c state proof reason id found allowed e) key h f = rw e (
      rw (change_state-SameAnnouncements c state proof reason id s).0
        (h, f, omega arith, omega arith))

  Effect-HasAtLeast :
      {s t : ControlStore}
      → Effect Q s t
      → (id : Bytes) (ms : ℕ) → Map.get s.validator_cutoffs id ≡ some ms
      → HasAtLeast t.validator_cutoffs id ms
  unfolding settled
  Effect-HasAtLeast (unchanged e) id ms f = rw e (ms, f, omega arith)
  Effect-HasAtLeast (persisted p e) id ms f = rw e (ms, f, omega arith)
  Effect-HasAtLeast {s} (cut v n p grows e) id ms f =
      rw e (HasAtLeast-set s.validator_cutoffs v id n ms f grows)
  Effect-HasAtLeast (attested a event fresh e) id ms f = rw e (ms, f, omega arith)
  Effect-HasAtLeast (beat b event newer e) id ms f = rw e (ms, f, omega arith)
  Effect-HasAtLeast (published x event newer fits e) id ms f = rw e (ms, f, omega arith)
  Effect-HasAtLeast (checked x event fits e) id ms f = rw e (ms, f, omega arith)
  Effect-HasAtLeast (reopened r event fresh e) id ms f = rw e (ms, f, omega arith)
  Effect-HasAtLeast {s} (added input q fresh e) id ms f =
      rw e (rw (put_candidate-SameAnnouncements input s fresh).1 (ms, f, omega arith))
  Effect-HasAtLeast {s} (changed c state proof reason v found allowed e) id ms f =
      rw e (rw (change_state-SameAnnouncements c state proof reason v s).1 (ms, f, omega arith))

-- After any sequence of commands, a validator's stored heartbeat under a membership revision is
-- replaced only by one whose feed sequence and whose acceptance cutoff are at least as high.
pub run-HasLater :
    (cs : List Command) (s : ControlStore) (key : Bytes × Bytes) (h : ValidatorHeartbeat)
    → Map.get s.heartbeats key ≡ some h
    → HasLater (run cs s).heartbeats key h
unfolding run
run-HasLater [] s key h f = (h, f, omega arith, omega arith)
run-HasLater (c ∷ cs) s key h f =
    let (k, found, later, higher) = Effect-HasLater (step-Effect c s) key h f in
    let (last, stored, later', higher') = run-HasLater cs (step c s) key k found in
    (last, stored, omega arith, omega arith)

-- After any sequence of commands, also where writes to the persistence throw, a validator's signing
-- cutoff is at least as high as it was.
pub run-HasAtLeast :
    (cs : List Command) (s : ControlStore) (id : Bytes) (ms : ℕ)
    → Map.get s.validator_cutoffs id ≡ some ms
    → HasAtLeast (run cs s).validator_cutoffs id ms
unfolding run
run-HasAtLeast [] s id ms f = (ms, f, omega arith)
run-HasAtLeast (c ∷ cs) s id ms f =
    let (n, found, higher) = Effect-HasAtLeast (step-Effect c s) id ms f in
    let (last, stored, higher') = run-HasAtLeast cs (step c s) id n found in
    (last, stored, omega arith)
