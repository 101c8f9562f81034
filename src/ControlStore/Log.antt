-- ===== src/ControlStore/Log.antt =====
-- The invariant of the change log (`#deltas`, `#sequence`, `#deltaFloor` of
-- packages/control-store/src/control-store.ts): the retained deltas are numbered without a gap.
use chronolog_db.Prelude.{
  ℕ, zero, suc, ◌+◌, ◌-◌, ◌≤◌, ◌<◌, ◌≡◌, refl, List, [], ◌∷◌, ◌++◌, arith, subst, ◌∙◌, length, take,
  drop, length-append, length-drop,
}
use chronolog_db.ControlStore.Types.{ControlStoreDelta, DeltaEvent}
use chronolog_db.ControlStore.Result.{ok, err, delta_history_reset}
use chronolog_db.ControlStore.State.{ControlStore, append_delta, trim_deltas, last_sequence}
use chronolog_db.ControlStore.Heads.{deltas_after, changes_since}

-- The sequences are `floor + 1`, `floor + 2` and so on.
abbrev pub IsRun : ℕ → List ControlStoreDelta → Type 0
IsRun floor [] = Unit
IsRun floor (d ∷ ds) = (d.sequence ≡ floor + 1) × IsRun (floor + 1) ds

pub record LogIsValid (maximum floor sequence : ℕ) (deltas : List ControlStoreDelta) : Type 0 where
  pub positive : 1 ≤ maximum
  pub run : IsRun floor deltas
  pub counted : floor + length deltas ≡ sequence
  pub bounded : length deltas ≤ maximum

abbrev pub IsLogged : ControlStore → Type 0
IsLogged s = LogIsValid s.maximum_retained_deltas s.delta_floor s.sequence s.deltas

IsRun-append :
    (floor : ℕ) (ds : List ControlStoreDelta) (d : ControlStoreDelta)
    → IsRun floor ds
    → d.sequence ≡ floor + length ds + 1
    → IsRun floor (ds ++ d ∷ [])
IsRun-append floor [] d h e = (omega arith, tt)
IsRun-append floor (x ∷ ds) d h e = (h.0, IsRun-append (floor + 1) ds d h.1 (omega arith))

-- Cutting off `k` deltas moves the floor up by `k`.
pub IsRun-drop :
    (floor k : ℕ) (ds : List ControlStoreDelta)
    → IsRun floor ds
    → k ≤ length ds
    → IsRun (floor + k) (drop k ds)
IsRun-drop floor zero ds h le = subst (λ f. IsRun f ds) (omega arith) h
IsRun-drop floor (suc k) [] h le = tt
IsRun-drop floor (suc k) (x ∷ ds) h le =
    subst (λ f. IsRun f (drop k ds)) (omega arith) (IsRun-drop (floor + 1) k ds h.1 (omega arith))

-- The floor matters only if nothing is cut off.
last_sequence-cons :
    (f g : ℕ) (d : ControlStoreDelta) (ds : List ControlStoreDelta)
    → last_sequence f (d ∷ ds) ≡ last_sequence g (d ∷ ds)
last_sequence-cons f g d [] = refl
last_sequence-cons f g d (x ∷ ds) = last_sequence-cons f g x ds

last_sequence-take :
    (floor k : ℕ) (ds : List ControlStoreDelta)
    → IsRun floor ds
    → k ≤ length ds
    → last_sequence floor (take k ds) ≡ floor + k
last_sequence-take floor zero ds h le = omega arith
last_sequence-take floor (suc k) [] h le = absurd (omega arith)
last_sequence-take floor (suc zero) (x ∷ ds) h le = omega arith
last_sequence-take floor (suc (suc k)) (x ∷ []) h le = absurd (omega arith)
last_sequence-take floor (suc (suc k)) (x ∷ y ∷ ds) h le =
    last_sequence-cons floor (floor + 1) y (take k ds)
    ∙ last_sequence-take (floor + 1) (suc k) (y ∷ ds) h.1 (omega arith)
    ∙ omega arith

-- Trimming keeps a gapless log gapless, and within the retained number.
trim_deltas-IsLogged :
    (s : ControlStore)
    → 1 ≤ s.maximum_retained_deltas
    → IsRun s.delta_floor s.deltas
    → s.delta_floor + length s.deltas ≡ s.sequence
    → IsLogged (trim_deltas s)
unfolding trim_deltas
trim_deltas-IsLogged s pos run counted =
    let excess = length s.deltas - s.maximum_retained_deltas in
    let le : excess ≤ length s.deltas = omega arith in
    let floor = last_sequence-take s.delta_floor excess s.deltas run le in
    let count = length-drop excess s.deltas in
    record {
      positive = pos;
      run = rw floor (IsRun-drop s.delta_floor excess s.deltas run le);
      counted = omega (arith, floor, count);
      bounded = omega (arith, count);
    }

-- Every appended delta keeps the log gapless, the last sequence its end, and its length bounded.
pub append_delta-IsLogged :
    (event : DeltaEvent) (s : ControlStore) → IsLogged s → IsLogged (append_delta event s).1
unfolding append_delta
append_delta-IsLogged event s h =
    let d : ControlStoreDelta = record { sequence = s.sequence + 1; event = event } in
    trim_deltas-IsLogged (record s { sequence = s.sequence + 1; deltas = s.deltas ++ d ∷ [] })
      h.positive (IsRun-append s.delta_floor s.deltas d h.run (omega (arith, h.counted)))
      (omega (arith, h.counted, length-append s.deltas (d ∷ [])))

deltas_after-all :
    (sequence floor : ℕ) (ds : List ControlStoreDelta)
    → IsRun floor ds
    → sequence ≤ floor
    → deltas_after sequence ds ≡ ds
unfolding deltas_after
deltas_after-all sequence floor [] h le = refl
deltas_after-all sequence floor (d ∷ ds) h le =
    ground (arith, deltas_after-all sequence (floor + 1) ds h.1 (omega arith))

deltas_after-cons :
    (sequence : ℕ) (d : ControlStoreDelta) (ds : List ControlStoreDelta)
    → d.sequence ≤ sequence
    → deltas_after sequence (d ∷ ds) ≡ deltas_after sequence ds
unfolding deltas_after
deltas_after-cons sequence d ds le = ground arith

deltas_after-drop :
    (k floor : ℕ) (ds : List ControlStoreDelta)
    → IsRun floor ds
    → deltas_after (floor + k) ds ≡ drop k ds
deltas_after-drop zero floor ds h = deltas_after-all (floor + 0) floor ds h (omega arith)
deltas_after-drop (suc k) floor [] h = unfold deltas_after in refl
deltas_after-drop (suc k) floor (d ∷ ds) h =
    let same : floor + suc k ≡ floor + 1 + k = omega arith in
    deltas_after-cons (floor + suc k) d ds (omega arith)
    ∙ (rw same (deltas_after-drop k (floor + 1) ds h.1))

-- Changes since a sequence that the log still covers are all the later deltas: numbered from the
-- next sequence on without a gap, up to the current one.
pub changes_since-IsRun :
    (s : ControlStore) (sequence : ℕ)
    → IsLogged s
    → s.delta_floor ≤ sequence
    → sequence ≤ s.sequence
    → (ds : List ControlStoreDelta) × (changes_since s sequence ≡ ok ds)
      × IsRun sequence ds
      × (sequence + length ds ≡ s.sequence)
unfolding changes_since
changes_since-IsRun s sequence h low high =
    let k = sequence - s.delta_floor in
    let there : s.delta_floor + k ≡ sequence = omega arith in
    let counted = h.counted in
    let run = IsRun-drop s.delta_floor k s.deltas h.run (omega arith) in
    (
      drop k s.deltas,
      rw (← there) (ground (arith, deltas_after-drop k s.delta_floor s.deltas h.run)),
      subst (λ f. IsRun f (drop k s.deltas)) there run,
      omega (arith, length-drop k s.deltas),
    )

-- A sequence below the floor is answered by the demand for a fresh snapshot.
pub changes_since_reset :
    (s : ControlStore) (sequence : ℕ)
    → sequence < s.delta_floor
    → changes_since s sequence ≡ err delta_history_reset
unfolding changes_since
changes_since_reset s sequence low = ground arith
