-- ===== src/ControlStore/Commands/Invariant.antt =====
-- Every sequence of commands keeps the order valid and the change log gapless.
use chronolog_db.Prelude.{
  ℕ, ◌≤◌, ◌≡◌, refl, sym, Bool, true, false, not, ◌&&◌, Option, none, List, [], ◌∷◌, arith, subst,
  All, Bool-cases, String, insert_at, length, ◌==◌, ℕ_eq, ◌⊎◌, if◌then◌else◌, inl, inr,
}
use chronolog_db.Prelude.Map
use chronolog_db.Bytes.{Bytes}
use chronolog_db.Bytes.Laws.{Bytes_eq}
use chronolog_db.ControlStore.Types.{
  CandidateState, StoredCandidate, PutCandidateInput, DeltaEvent, ControlStoreDelta,
  candidate_added, candidate_state_changed, order_append, order_insert,
}
use chronolog_db.ControlStore.Result.{Result-cases}
use chronolog_db.ControlStore.State.{Persistence, ControlStore, append_delta}
use chronolog_db.ControlStore.Insert.{insert_order, lower_bound, probe, occupied}
use chronolog_db.ControlStore.Candidates.{
  finish_order, put_candidate, has_ref, candidate_of_input, is_admissible,
}
use chronolog_db.ControlStore.Transitions.{change_state, with_state}
use chronolog_db.ControlStore.Order.Insertion.{IsOrdered}
use chronolog_db.ControlStore.Order.Methods.{put_candidate-IsOrdered, change_state-IsOrdered}
use chronolog_db.ControlStore.Log.{IsLogged, append_delta-IsLogged}
use chronolog_db.ControlStore.Restore.{empty}
use chronolog_db.ControlStore.Commands.{Command, candidate, step, run}
use chronolog_db.ControlStore.Commands.Effect.{
  Effect, unchanged, persisted, cut, attested, beat, published, checked, reopened, added, changed,
  settled, step-Effect, IsInputOf,
}

-- A new candidate is put under the id that its order key names.
abbrev pub IsWellKeyed : Command → Type 0
IsWellKeyed (candidate input) = input.order_key.tx_id ≡ input.tx_id
IsWellKeyed _ = Unit {0}

abbrev NamesItself : PutCandidateInput → Type 0
NamesItself input = input.order_key.tx_id ≡ input.tx_id

Effect-IsOrdered :
    {Q : PutCandidateInput → Type 0} {s t : ControlStore}
    → ((input : PutCandidateInput) → Q input → NamesItself input)
    → Effect Q s t
    → IsOrdered s
    → IsOrdered t
unfolding settled
Effect-IsOrdered own (unchanged e) h = rw e h
Effect-IsOrdered own (persisted p e) h = rw e h
Effect-IsOrdered own (cut id ms p grows e) h = rw e h
Effect-IsOrdered own (attested a event fresh e) h = rw e h
Effect-IsOrdered own (beat b event newer e) h = rw e h
Effect-IsOrdered own (published x event newer fits e) h = rw e h
Effect-IsOrdered own (checked c event fits e) h = rw e h
Effect-IsOrdered own (reopened r event fresh e) h = rw e h
Effect-IsOrdered {s} own (added input q fresh e) h =
    rw e (put_candidate-IsOrdered input s (own input q) h)
Effect-IsOrdered {s} own (changed c state proof reason id e allowed f) h =
    rw f (change_state-IsOrdered c state proof reason id s e allowed h)

NamesItself-of_input :
    (c : Command)
    → IsWellKeyed c
    → (input : PutCandidateInput) → IsInputOf c input
    → NamesItself input
NamesItself-of_input (candidate given) own input q = rw q own
NamesItself-of_input _ own input q = absurd q

-- One command on a valid order.
step-IsOrdered :
    (c : Command) (s : ControlStore) → IsWellKeyed c → IsOrdered s → IsOrdered (step c s)
step-IsOrdered c s own h = Effect-IsOrdered (NamesItself-of_input c own) (step-Effect c s) h

-- After any sequence of commands, failing ones included, whose new candidates are put under the id
-- that their order key names, the order holds exactly the admissible candidates, each once, strictly
-- in the transaction order, if it did before.
pub run-IsOrdered :
    (cs : List Command) (s : ControlStore) → All IsWellKeyed cs → IsOrdered s → IsOrdered (run cs s)
unfolding run
run-IsOrdered [] s own h = h
run-IsOrdered (c ∷ cs) s own h = run-IsOrdered cs (step c s) own.1 (step-IsOrdered c s own.0 h)

settled-IsLogged : (event : DeltaEvent) (s : ControlStore) → IsLogged s → IsLogged (settled event s)
unfolding settled
settled-IsLogged event s h = append_delta-IsLogged event s h

insert_order-cases :
    (c : StoredCandidate) (s : ControlStore)
    → ((insert_order c s).1 ≡ s)
      ⊎ ((k : ℕ) × (event : DeltaEvent) × ((insert_order c s).1
            ≡ (append_delta event
                (record s { ordered_tx_ids = insert_at k c.tx_id s.ordered_tx_ids })).1))
unfolding insert_order
insert_order-cases c s =
    let count = length s.ordered_tx_ids in
    elim (Result-cases (lower_bound (probe s c) count 0 count)) [
      | inr (x, e) ↦ inl (ground arith)
      | inl (low, e) ↦ elim (Bool-cases (occupied s.ordered_tx_ids low c.tx_id)) [
        | inl t ↦ inl (ground arith)
        | inr f ↦ inr (
          low,
          (if low == count then order_append c.tx_id low count else order_insert c.tx_id low count),
          ground arith,
        )
      ]
    ]

insert_order-IsLogged :
    (c : StoredCandidate) (s : ControlStore) → IsLogged s → IsLogged (insert_order c s).1
insert_order-IsLogged c s h = elim (insert_order-cases c s) [
  | inl e ↦ subst IsLogged (sym e) h
  | inr (k, event, e) ↦ subst IsLogged (sym e) (
      append_delta-IsLogged event
        (record s { ordered_tx_ids = insert_at k c.tx_id s.ordered_tx_ids }) h)
]

finish_order-persistence :
    (c : StoredCandidate) (d : ControlStoreDelta) (s : ControlStore)
    → let t = (finish_order true c d s).1 in
      t ≡ record (insert_order c s).1 { persistence = t.persistence }
unfolding finish_order
finish_order-persistence c d s = ground arith

finish_order-IsLogged :
    (flag : Bool) (c : StoredCandidate) (d : ControlStoreDelta) (s : ControlStore)
    → IsLogged s
    → IsLogged (finish_order flag c d s).1
finish_order-IsLogged false c d s h = unfold finish_order in h
finish_order-IsLogged true c d s h =
    subst IsLogged (sym (finish_order-persistence c d s)) (insert_order-IsLogged c s h)

put_candidate-IsLogged :
    (input : PutCandidateInput) (s : ControlStore)
    → Map.get s.candidates input.tx_id ≡ none
    → IsLogged s
    → IsLogged (put_candidate input s).1
unfolding put_candidate
put_candidate-IsLogged input s fresh h =
    let c = candidate_of_input input in
    let (delta, s') =
      append_delta (candidate_added c.tx_id c.state)
        (record s { candidates = Map.set s.candidates input.tx_id c }) in
    rw (fresh, put_candidate)
      (finish_order-IsLogged (is_admissible c.state) c delta s' (
        append_delta-IsLogged (candidate_added c.tx_id c.state)
          (record s { candidates = Map.set s.candidates input.tx_id c }) h))

change_state-IsLogged :
    (c : StoredCandidate) (state : CandidateState) (proof : List Bytes) (reason : Option String)
    (id : Bytes) (s : ControlStore)
    → IsLogged s
    → IsLogged (change_state c state proof reason id s).1
unfolding change_state
change_state-IsLogged c state proof reason id s h =
    let next = with_state c state proof reason in
    let event = candidate_state_changed next.tx_id c.state state reason in
    let written = record s { candidates = Map.set s.candidates id next } in
    let (delta, s') = append_delta event written in
    finish_order-IsLogged (not (is_admissible c.state) && is_admissible state) next delta s'
      (append_delta-IsLogged event written h)

-- The effects on the log: nothing, or the deltas of the method.
Effect-IsLogged :
    {Q : PutCandidateInput → Type 0} {s t : ControlStore} → Effect Q s t → IsLogged s → IsLogged t
Effect-IsLogged (unchanged e) h = rw e h
Effect-IsLogged (persisted p e) h = rw e h
Effect-IsLogged (cut id ms p grows e) h = rw e h
Effect-IsLogged (attested a event fresh e) h = rw e (settled-IsLogged event _ h)
Effect-IsLogged (beat b event newer e) h = rw e (settled-IsLogged event _ h)
Effect-IsLogged (published x event newer fits e) h = rw e (settled-IsLogged event _ h)
Effect-IsLogged (checked c event fits e) h = rw e (settled-IsLogged event _ h)
Effect-IsLogged (reopened r event fresh e) h = rw e (settled-IsLogged event _ h)
Effect-IsLogged {s} (added input q fresh e) h = rw e (put_candidate-IsLogged input s fresh h)
Effect-IsLogged {s} (changed c state proof reason id e allowed f) h =
    rw f (change_state-IsLogged c state proof reason id s h)

-- After any sequence of commands, failing ones included, the retained deltas are numbered without a
-- gap from just above the floor up to the current sequence, and are no more than the retention
-- allows, if that was so before.
pub run-IsLogged : (cs : List Command) (s : ControlStore) → IsLogged s → IsLogged (run cs s)
unfolding run
run-IsLogged [] s h = h
run-IsLogged (c ∷ cs) s h = run-IsLogged cs (step c s) (Effect-IsLogged (step-Effect c s) h)

-- A new store has a valid order and a valid log.
pub empty-IsOrdered : (p : Persistence) (maximum : ℕ) → IsOrdered (empty p maximum)
unfolding empty has_ref Map.get
empty-IsOrdered p maximum = record { keyed = λ id c h. cc; sorted = tt; complete = λ id. refl }

pub empty-IsLogged : (p : Persistence) (maximum : ℕ) → 1 ≤ maximum → IsLogged (empty p maximum)
unfolding empty
empty-IsLogged p maximum h = record {
  positive = h;
  run = tt;
  counted = omega arith;
  bounded = omega arith;
}
