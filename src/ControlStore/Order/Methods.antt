-- ===== src/ControlStore/Order/Methods.antt =====
-- Every method that writes candidates keeps the order valid, whether it returns or throws.
use chronolog_db.Prelude.{
  ◌≡◌, refl, sym, ◌∙◌, subst₂, Bool, true, false, not, ◌&&◌, ◌||◌, ◌⊎◌, inl, inr, Option, none,
  some, List, arith, String, Bool-cases, Option-cases, ◌==◌, String_eq, Option_eq,
}
use chronolog_db.Prelude.Map
use chronolog_db.Bytes.{Bytes}
use chronolog_db.Bytes.Laws.{Bytes_eq}
use chronolog_db.ControlStore.Types.{
  CandidateState, StoredCandidate, PutCandidateInput, ControlStoreDelta, candidate_added,
  candidate_state_changed,
}
use chronolog_db.ControlStore.Same.{
  same_state, same_state_iff, same_candidate_identity, same_bytes_list,
}
use chronolog_db.ControlStore.Result.{ok, Result-cases}
use chronolog_db.ControlStore.State.{ControlStore, append_delta}
use chronolog_db.ControlStore.Insert.{insert_order}
use chronolog_db.ControlStore.Candidates.{
  is_admissible, candidate_of_input, finish_order, put_candidate, validate_state_transition,
  attestations_for, is_terminal_invalid, is_waiting,
}
use chronolog_db.ControlStore.Transitions.{
  AdmissionEvaluator, with_state, change_state, set_candidate_state, evaluate_admission,
  check_proof,
}
use chronolog_db.ControlStore.Order.{OrderIsValid}
use chronolog_db.ControlStore.Order.Insertion.{
  IsOrdered, IsMissing, candidates-insert_order, insert_order-IsOrdered,
}
use chronolog_db.ControlStore.Order.Update.{OrderIsValid-set, IsMissing-set}

-- A transition that is allowed and is no admission leaves a candidate as admissible as it was.
stays :
    (previous next : CandidateState)
    → validate_state_transition previous next ≡ ok tt
    → (not (is_admissible previous) && is_admissible next) ≡ false
    → is_admissible previous ≡ is_admissible next
unfolding validate_state_transition
stays previous next allowed h = ground (arith, same_state_iff previous next)

module _ (flag : Bool) (candidate : StoredCandidate) (delta : ControlStoreDelta)
    (s : ControlStore) where
  pub candidates-finish_order : (finish_order flag candidate delta s).1.candidates ≡ s.candidates
  unfolding finish_order
  candidates-finish_order = ground (arith, candidates-insert_order candidate s)

  ids-finish_order :
      (finish_order flag candidate delta s).1.ordered_tx_ids
      ≡ elim flag [ true ↦ (insert_order candidate s).1.ordered_tx_ids | false ↦ s.ordered_tx_ids ]
  unfolding finish_order
  ids-finish_order = ground arith

IsOrdered-cong :
    (s t : ControlStore)
    → t.candidates ≡ s.candidates
    → t.ordered_tx_ids ≡ s.ordered_tx_ids
    → IsOrdered s
    → IsOrdered t
IsOrdered-cong s t e f h = subst₂ OrderIsValid (sym e) (sym f) h

-- A method that does not insert.
finish-IsOrdered :
    (candidate : StoredCandidate) (delta : ControlStoreDelta) (s : ControlStore)
    → IsOrdered s
    → IsOrdered (finish_order false candidate delta s).1
finish-IsOrdered candidate delta s h =
    IsOrdered-cong s (finish_order false candidate delta s).1
      (candidates-finish_order false candidate delta s) (ids-finish_order false candidate delta s) h

-- A method that inserts.
finish-IsMissing :
    (candidate : StoredCandidate) (delta : ControlStoreDelta) (s : ControlStore)
    → IsMissing candidate s.candidates s.ordered_tx_ids
    → IsOrdered (finish_order true candidate delta s).1
finish-IsMissing candidate delta s h =
    IsOrdered-cong (insert_order candidate s).1 (finish_order true candidate delta s).1
      (candidates-finish_order true candidate delta s ∙ sym (candidates-insert_order candidate s))
      (ids-finish_order true candidate delta s) (insert_order-IsOrdered candidate s h).0

-- A new candidate whose order key names it keeps the order valid, also if the write is refused.
pub put_candidate-IsOrdered :
    (input : PutCandidateInput) (s : ControlStore)
    → input.order_key.tx_id ≡ input.tx_id
    → IsOrdered s
    → IsOrdered (put_candidate input s).1
unfolding put_candidate
put_candidate-IsOrdered input s own h = elim (Option-cases (Map.get s.candidates input.tx_id)) [
  | inl e ↦
      let candidate = candidate_of_input input in
      let (delta, s') =
        append_delta (candidate_added candidate.tx_id candidate.state)
          (record s { candidates = Map.set s.candidates input.tx_id candidate }) in
      elim (Bool-cases (is_admissible input.state)) [
        | inl t ↦
            rw (e, put_candidate)
              (rw t (
                finish-IsMissing candidate delta s' (
                  IsMissing-set s.candidates s.ordered_tx_ids input.tx_id candidate h refl own
                    (inl (ground arith)) (ground arith) t)))
        | inr f ↦
            rw (e, put_candidate)
              (rw f (
                finish-IsOrdered candidate delta s' (
                  OrderIsValid-set s.candidates s.ordered_tx_ids input.tx_id candidate h refl own
                    (inl (ground arith)) (ground arith))))
      ]
  | inr (c, e) ↦
      rw (e, put_candidate)
        (elim (Bool-cases (same_candidate_identity c (candidate_of_input input))) [
          | inl same ↦ rw same h
          | inr differs ↦ rw differs h
        ])
]

-- A change of state that the transitions allow, of a stored candidate.
pub change_state-IsOrdered :
    (c : StoredCandidate) (state : CandidateState) (proof : List Bytes) (reason : Option String)
    (id : Bytes) (s : ControlStore)
    → Map.get s.candidates id ≡ some c
    → validate_state_transition c.state state ≡ ok tt
    → IsOrdered s
    → IsOrdered (change_state c state proof reason id s).1
unfolding change_state
change_state-IsOrdered c state proof reason id s e allowed h =
    let (own_id, own_key) = h.keyed id c e in
    let next = with_state c state proof reason in
    let (delta, s') =
      append_delta (candidate_state_changed next.tx_id c.state state reason)
        (record s { candidates = Map.set s.candidates id next }) in
    elim (Bool-cases (not (is_admissible c.state) && is_admissible state)) [
      | inl t ↦ rw t (
          finish-IsMissing next delta s' (
            IsMissing-set s.candidates s.ordered_tx_ids id next h own_id own_key
              (inr (ground arith)) (ground arith) (ground arith)))
      | inr f ↦ rw f (
          finish-IsOrdered next delta s' (
            OrderIsValid-set s.candidates s.ordered_tx_ids id next h own_id own_key
              (inr (ground arith)) (ground (arith, stays c.state state allowed f))))
    ]

module _ (id : Bytes) (state : CandidateState) (proof : Option (List Bytes))
    (reason : Option String) (s : ControlStore) where
  -- `setCandidateState` leaves the store as it is, or makes an allowed change of a stored candidate.
  pub set_candidate_state-cases :
      ((set_candidate_state id state proof reason s).1 ≡ s)
      ⊎ ((c : StoredCandidate) × (ids : List Bytes) × (Map.get s.candidates id ≡ some c)
          × (validate_state_transition c.state state ≡ ok tt)
          × ((set_candidate_state id state proof reason s).1
              ≡ (change_state c state ids reason id s).1))
  unfolding set_candidate_state
  set_candidate_state-cases = elim (Option-cases (Map.get s.candidates id)) [
    | inl e ↦ inl (ground arith)
    | inr (c, e) ↦
        let ids : List Bytes = elim proof [ none ↦ c.proof_attestation_ids | some given ↦ given ] in
        elim (Result-cases (validate_state_transition c.state state)) [
          | inr (x, refused) ↦ inl (ground arith)
          | inl (u, allowed) ↦ elim (Result-cases (check_proof s id ids)) [
            | inr (x, refused) ↦ inl (ground arith)
            | inl (v, proved) ↦
                elim (Bool-cases (
                  same_state c.state state
                  && same_bytes_list c.proof_attestation_ids ids
                  && c.state_reason == reason)) [
                    | inl same ↦ inl (ground arith)
                    | inr differs ↦ inr (c, ids, e, ground arith, ground arith)
                  ]
          ]
        ]
  ]

  pub set_candidate_state-IsOrdered :
      IsOrdered s → IsOrdered (set_candidate_state id state proof reason s).1
  set_candidate_state-IsOrdered h = elim set_candidate_state-cases [
    | inl same ↦ rw same h
    | inr (c, ids, e, allowed, changed) ↦
        rw changed (change_state-IsOrdered c state ids reason id s e allowed h)
  ]

-- An evaluation changes the store by `setCandidateState` only.
pub evaluate_admission-cases :
    (id : Bytes) (evaluator : AdmissionEvaluator) (s : ControlStore)
    → ((evaluate_admission id evaluator s).1 ≡ s)
      ⊎ ((state : CandidateState) × (proof : Option (List Bytes)) × (reason : Option String)
          × ((evaluate_admission id evaluator s).1
              ≡ (set_candidate_state id state proof reason s).1))
unfolding evaluate_admission
evaluate_admission-cases id evaluator s = elim (Option-cases (Map.get s.candidates id)) [
  | inl e ↦ inl (ground arith)
  | inr (c, e) ↦ elim (Bool-cases (is_admissible c.state)) [
    | inl t ↦ inl (ground arith)
    | inr f ↦ elim (Bool-cases (is_terminal_invalid c.state || is_waiting c.state)) [
      | inl t ↦ inl (ground arith)
      | inr g ↦ elim (Result-cases (evaluator c (attestations_for s id))) [
        | inr (x, thrown) ↦ inl (ground arith)
        | inl (v, returned) ↦ inr (v.state, v.proof_attestation_ids, v.reason, ground arith)
      ]
    ]
  ]
]

pub evaluate_admission-IsOrdered :
    (id : Bytes) (evaluator : AdmissionEvaluator) (s : ControlStore)
    → IsOrdered s
    → IsOrdered (evaluate_admission id evaluator s).1
evaluate_admission-IsOrdered id evaluator s h = elim (evaluate_admission-cases id evaluator s) [
  | inl same ↦ rw same h
  | inr (state, proof, reason, e) ↦ rw e (set_candidate_state-IsOrdered id state proof reason s h)
]
