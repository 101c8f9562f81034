-- ===== src/ControlStore/Commands/Progress.antt =====
-- What commands never take back: the identity and the progress of a candidate, the heartbeats of a
-- validator, and the cutoffs that a validator has announced.
use chronolog_db.Prelude.{
  ◌≡◌, refl, ◌∙◌, subst, inl, inr, Option, none, some, List, [], ◌∷◌, arith, Bool-cases, String,
  ℕ_eq, String_eq, pair_eq,
}
use chronolog_db.Prelude.Map
use chronolog_db.Prelude.Map.{Map, get-set}
use chronolog_db.Bytes.{Bytes, bytes_equal}
use chronolog_db.Bytes.Laws.{Bytes_eq, bytes_equal_iff}
use chronolog_db.ControlStore.Types.{
  CandidateState, waiting_for_payload, pending_validation, admissible, invalid_protocol,
  unauthorized, quarantined, StoredCandidate, PutCandidateInput,
}
use chronolog_db.ControlStore.Same.{same_state_iff}
use chronolog_db.ControlStore.Result.{ok}
use chronolog_db.ControlStore.State.{ControlStore}
use chronolog_db.ControlStore.Candidates.{
  candidate_of_input, put_candidate, validate_state_transition,
}
use chronolog_db.ControlStore.Transitions.{with_state, change_state}
use chronolog_db.ControlStore.Order.Methods.{candidates-finish_order}
use chronolog_db.ControlStore.Commands.{Command, step, run}
use chronolog_db.ControlStore.Commands.Effect.{
  Effect, unchanged, persisted, cut, attested, beat, published, checked, reopened, added, changed,
  settled, step-Effect,
}

-- The diagram of candidate states. `invalid_protocol`, `unauthorized` and `quarantined` end a
-- candidate that is not admissible; nothing leaves them or `admissible`.
pub data Ends : CandidateState → Type 0 where
  ends_invalid : Ends invalid_protocol
  ends_unauthorized : Ends unauthorized
  ends_quarantined : Ends quarantined

pub data Leads : CandidateState → CandidateState → Type 0 where
  stays : {a : CandidateState} → Leads a a
  verified : Leads waiting_for_payload pending_validation
  admits : Leads pending_validation admissible
  verified_admits : Leads waiting_for_payload admissible
  rejects_waiting : {b : CandidateState} → Ends b → Leads waiting_for_payload b
  rejects_pending : {b : CandidateState} → Ends b → Leads pending_validation b

-- The transitions that the code allows are steps of the diagram.
transition-Leads : (a b : CandidateState) → validate_state_transition a b ≡ ok tt → Leads a b
unfolding validate_state_transition
transition-Leads waiting_for_payload waiting_for_payload h = stays
transition-Leads waiting_for_payload pending_validation h = verified
transition-Leads waiting_for_payload admissible h = cc
transition-Leads waiting_for_payload invalid_protocol h = rejects_waiting ends_invalid
transition-Leads waiting_for_payload unauthorized h = rejects_waiting ends_unauthorized
transition-Leads waiting_for_payload quarantined h = rejects_waiting ends_quarantined
transition-Leads pending_validation waiting_for_payload h = cc
transition-Leads pending_validation pending_validation h = stays
transition-Leads pending_validation admissible h = admits
transition-Leads pending_validation invalid_protocol h = rejects_pending ends_invalid
transition-Leads pending_validation unauthorized h = rejects_pending ends_unauthorized
transition-Leads pending_validation quarantined h = rejects_pending ends_quarantined
transition-Leads a b h =
    let same : a ≡ b = ground (arith, same_state_iff a b) in subst (Leads a) same stays

-- Nothing leaves the states that end a candidate.
Leads_of_Ends : {a b c : CandidateState} → Ends b → Leads a b → Leads b c → Leads a c
Leads_of_Ends ends_invalid l stays = l
Leads_of_Ends ends_unauthorized l stays = l
Leads_of_Ends ends_quarantined l stays = l

Leads-trans : {a b c : CandidateState} → Leads a b → Leads b c → Leads a c
Leads-trans stays m = m
Leads-trans verified stays = verified
Leads-trans verified admits = verified_admits
Leads-trans verified (rejects_pending e) = rejects_waiting e
Leads-trans admits stays = admits
Leads-trans verified_admits stays = verified_admits
Leads-trans (rejects_waiting e) m = Leads_of_Ends e (rejects_waiting e) m
Leads-trans (rejects_pending e) m = Leads_of_Ends e (rejects_pending e) m

-- What a stored candidate has become: its identity is the same, and its state has gone along the
-- diagram.
pub record Becomes (c d : StoredCandidate) : Type 0 where
  pub same_tx : d.tx_id ≡ c.tx_id
  pub same_group : d.group_id ≡ c.group_id
  pub same_digest : d.candidate_digest ≡ c.candidate_digest
  pub same_policy : d.validation_policy ≡ c.validation_policy
  pub same_key : d.order_key ≡ c.order_key
  pub same_payload : d.canonical_payload ≡ c.canonical_payload
  pub leads : Leads c.state d.state

Becomes-refl : (c : StoredCandidate) → Becomes c c
Becomes-refl c = record {
  same_tx = refl;
  same_group = refl;
  same_digest = refl;
  same_policy = refl;
  same_key = refl;
  same_payload = refl;
  leads = stays;
}

Becomes-trans : {b c d : StoredCandidate} → Becomes b c → Becomes c d → Becomes b d
Becomes-trans h k = record {
  same_tx = k.same_tx ∙ h.same_tx;
  same_group = k.same_group ∙ h.same_group;
  same_digest = k.same_digest ∙ h.same_digest;
  same_policy = k.same_policy ∙ h.same_policy;
  same_key = k.same_key ∙ h.same_key;
  same_payload = k.same_payload ∙ h.same_payload;
  leads = Leads-trans h.leads k.leads;
}

abbrev pub Persists : Map Bytes StoredCandidate → Bytes → StoredCandidate → Type 0
Persists m id c = (d : StoredCandidate) × (Map.get m id ≡ some d) × Becomes c d

Persists-set :
    (m : Map Bytes StoredCandidate) (key id : Bytes) (next c : StoredCandidate)
    → Map.get m id ≡ some c
    → (Map.get m key ≡ some c → Becomes c next)
    → Persists (Map.set m key next) id c
Persists-set m key id next c found becomes = elim (Bool-cases (bytes_equal key id)) [
  | inl t ↦
      let same : key ≡ id = (bytes_equal_iff key id).0 t in
      (next, ground (arith, get-set m key id next), becomes (rw same found))
  | inr f ↦ (c, ground (arith, get-set m key id next), Becomes-refl c)
]

candidates-put_candidate :
    (input : PutCandidateInput) (s : ControlStore)
    → Map.get s.candidates input.tx_id ≡ none
    → (put_candidate input s).1.candidates
      ≡ Map.set s.candidates input.tx_id (candidate_of_input input)
unfolding put_candidate
candidates-put_candidate input s fresh = rw (fresh, put_candidate) (candidates-finish_order _ _ _ _)

candidates-change_state :
    (c : StoredCandidate) (state : CandidateState) (proof : List Bytes) (reason : Option String)
    (id : Bytes) (s : ControlStore)
    → (change_state c state proof reason id s).1.candidates
      ≡ Map.set s.candidates id (with_state c state proof reason)
unfolding change_state
candidates-change_state c state proof reason id s = candidates-finish_order _ _ _ _

with_state-Becomes :
    (c : StoredCandidate) (state : CandidateState) (proof : List Bytes) (reason : Option String)
    → Leads c.state state
    → Becomes c (with_state c state proof reason)
unfolding with_state
with_state-Becomes c state proof reason l = record {
  same_tx = refl;
  same_group = refl;
  same_digest = refl;
  same_policy = refl;
  same_key = refl;
  same_payload = refl;
  leads = l;
}

Effect-Persists :
    {Q : PutCandidateInput → Type 0} {s t : ControlStore}
    → Effect Q s t
    → (id : Bytes) (c : StoredCandidate) → Map.get s.candidates id ≡ some c
    → Persists t.candidates id c
unfolding settled
Effect-Persists (unchanged e) id c h = rw e (c, h, Becomes-refl c)
Effect-Persists (persisted p e) id c h = rw e (c, h, Becomes-refl c)
Effect-Persists (cut v ms p grows e) id c h = rw e (c, h, Becomes-refl c)
Effect-Persists (attested a event fresh e) id c h = rw e (c, h, Becomes-refl c)
Effect-Persists (beat b event newer e) id c h = rw e (c, h, Becomes-refl c)
Effect-Persists (published x event newer fits e) id c h = rw e (c, h, Becomes-refl c)
Effect-Persists (checked x event fits e) id c h = rw e (c, h, Becomes-refl c)
Effect-Persists (reopened r event fresh e) id c h = rw e (c, h, Becomes-refl c)
Effect-Persists {s} (added input q fresh e) id c h = rw e (
    rw (candidates-put_candidate input s fresh) (
      Persists-set s.candidates input.tx_id id (candidate_of_input input) c h
        (λ there. absurd (cc (fresh, there)))))
Effect-Persists {s} (changed b state proof reason key found allowed e) id c h = rw e (
    rw (candidates-change_state b state proof reason key s) (
      Persists-set s.candidates key id (with_state b state proof reason) c h (λ there.
        let same : b ≡ c = cc (found, there) in
        rw (← same)
          (with_state-Becomes b state proof reason (transition-Leads b.state state allowed)))))

-- A stored candidate stays stored, with its transaction, group, digest, policy, order key and payload
-- unchanged, and its state moves along the diagram only: what is admissible stays admissible, and
-- what was rejected stays rejected. This holds after any sequence of commands.
pub run-Persists :
    (cs : List Command) (s : ControlStore) (id : Bytes) (c : StoredCandidate)
    → Map.get s.candidates id ≡ some c
    → Persists (run cs s).candidates id c
unfolding run
run-Persists [] s id c h = (c, h, Becomes-refl c)
run-Persists (x ∷ cs) s id c h =
    let (d, found, becomes) = Effect-Persists (step-Effect x s) id c h in
    let (last, stored, later) = run-Persists cs (step x s) id d found in
    (last, stored, Becomes-trans becomes later)
