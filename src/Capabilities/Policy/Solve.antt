-- ===== src/Capabilities/Policy/Solve.antt =====
-- The states of the dynamic program of packages/capabilities/src/policy.ts: each selection stands under
-- its own key, takes its evidence from what was seen, and is as short as any selection with that key.
use chronolog_db.Prelude.{
  ℕ, zero, suc, ◌+◌, ◌≤◌, ◌≡◌, refl, ap, subst₂, get_elem?, ◌∙◌, subst, true, false, some, List, [],
  ◌∷◌, ◌++◌, arith, length, length-append, All, Option-cases, Bool-cases, is_lt, if◌then◌else◌,
  ◌&&◌, ◌==◌, beq_refl, inl, inr, pair_eq, pair_beq_iff, ℕ_eq, flags_eq,
}
use chronolog_db.Prelude.Map
use chronolog_db.Prelude.Map.{Map}
use chronolog_db.Bytes.Laws.{Bytes_eq}
use chronolog_db.Capabilities.Types.{ValidationPolicy, ValidatorEvidence}
use chronolog_db.Capabilities.Policy.{
  selection_order, state_key, StateKey, is_better, improve, extend,
}

beq_iff : (a b : StateKey) → (a == b) ≡ true → a ≡ b
beq_iff a b h = ground (arith, pair_beq_iff a b)

abbrev pub States : Type 0
States = Map StateKey (List ValidatorEvidence)

-- A state with the key `k` is there, with at most `n` pieces of evidence.
abbrev pub Within : ValidationPolicy → States → StateKey → ℕ → Type 0
Within p states k n =
    (e : List ValidatorEvidence) × (Map.get states k ≡ some e)
    × (state_key p e ≡ k)
    × (length e ≤ n)

-- Every entry stands under the key of its selection, and its selection satisfies `P`.
abbrev pub Entries : ValidationPolicy → (List ValidatorEvidence → Type 0) → States → Type 0
Entries p P states = All (λ entry. (state_key p entry.1 ≡ entry.0) × P entry.1) states

selection_order-length :
    (a b : List ValidatorEvidence) → is_lt (selection_order a b) ≡ true → length a ≤ length b
unfolding selection_order
selection_order-length a b h = ground arith

selection_order-length_ge :
    (a b : List ValidatorEvidence) → is_lt (selection_order a b) ≡ false → length b ≤ length a
unfolding selection_order
selection_order-length_ge a b h = ground arith

-- What is found in a map satisfies what every entry satisfies.
get-All :
    (P : StateKey × List ValidatorEvidence → Type 0) (m : States) (k : StateKey)
    {e : List ValidatorEvidence}
    → All P m
    → Map.get m k ≡ some e
    → P (k, e)
unfolding Map.get
get-All P [] k h there = cc
get-All P ((j, x) ∷ m) k {e} h there = elim (Bool-cases (j == k)) [
  | inl same ↦ let eq : (j, x) ≡ (k, e) = ground (arith, beq_iff j k) in subst P eq h.0
  | inr other ↦ get-All P m k h.1 (ground arith)
]

set-All :
    (P : StateKey × List ValidatorEvidence → Type 0) (m : States) (k : StateKey)
    (e : List ValidatorEvidence)
    → All P m
    → P (k, e)
    → All P (Map.set m k e)
unfolding Map.set
set-All P [] k e h new = (new, tt)
set-All P ((j, x) ∷ m) k e h new = elim (Bool-cases (j == k)) [
  | inl same ↦
      rw same (let eq : (k, e) ≡ (j, e) = ground (arith, beq_iff j k) in (subst P eq new, h.1))
  | inr other ↦ rw other (h.0, set-All P m k e h.1 new)
]

module _ (p : ValidationPolicy) where
  improve-get :
      (c : List ValidatorEvidence) (states : States) (k : StateKey)
      → Map.get (improve p c states) k ≡ (
          if is_better c (Map.get states (state_key p c)) && state_key p c == k
          then some c
          else Map.get states k)
  unfolding improve
  improve-get c states k = ground (arith, Map.get-set states (state_key p c) k c)

  -- A candidate replaces only a state that is not shorter.
  improve-Within :
      (c : List ValidatorEvidence) (states : States) (k : StateKey) (n : ℕ)
      → Within p states k n
      → Within p (improve p c states) k n
  improve-Within c states k n (e, there, key, le) =
      elim (Bool-cases (is_better c (Map.get states (state_key p c)) && state_key p c == k)) [
        | inl wins ↦
            let same : state_key p c ≡ k = ground (arith, beq_iff (state_key p c) k) in
            let shorter : length c ≤ length e = ground (arith, selection_order-length c e) in
            (c, improve-get c states k ∙ (rw wins refl), same, omega (arith, shorter, le))
        | inr loses ↦ (e, improve-get c states k ∙ (rw loses there), key, le)
      ]

  -- After it was considered, its key has a state that is not longer.
  improve-candidate :
      (c : List ValidatorEvidence) (states : States)
      → Entries p (λ e. Unit) states
      → Within p (improve p c states) (state_key p c) (length c)
  improve-candidate c states h = elim (Bool-cases (is_better c (Map.get states (state_key p c)))) [
    | inl wins ↦ (
      c,
      ground (arith, improve-get c states (state_key p c), beq_refl (state_key p c)),
      refl,
      omega arith,
    )
    | inr loses ↦ elim (Option-cases (Map.get states (state_key p c))) [
      | inl absent ↦ ground arith
      | inr (e, there) ↦
          let shorter : length e ≤ length c = ground (arith, selection_order-length_ge c e) in
          let key =
            get-All (λ entry. (state_key p entry.1 ≡ entry.0) × Unit {0}) states (state_key p c) h
              there in
          (e, improve-get c states (state_key p c) ∙ (rw loses there), key.0, shorter)
    ]
  ]

  improve-Entries :
      (P : List ValidatorEvidence → Type 0) (c : List ValidatorEvidence) (states : States)
      → P c
      → Entries p P states
      → Entries p P (improve p c states)
  unfolding improve
  improve-Entries P c states h all =
      elim (Bool-cases (is_better c (Map.get states (state_key p c)))) [
        | inl wins ↦ rw wins (
            set-All (λ entry. (state_key p entry.1 ≡ entry.0) × P entry.1) states (state_key p c) c
              all (refl, h))
        | inr loses ↦ rw loses all
      ]

  pub extend-Entries :
      (P : List ValidatorEvidence → Type 0) (x : ValidatorEvidence)
      (sels : List (List ValidatorEvidence)) (states : States)
      → All (λ sel. P (sel ++ x ∷ [])) sels
      → Entries p P states
      → Entries p P (extend p x sels states)
  unfolding extend
  extend-Entries P x [] states h all = all
  extend-Entries P x (sel ∷ sels) states h all =
      extend-Entries P x sels (improve p (sel ++ x ∷ []) states) h.1
        (improve-Entries P (sel ++ x ∷ []) states h.0 all)

  pub extend-Within :
      (x : ValidatorEvidence) (sels : List (List ValidatorEvidence)) (states : States)
      (k : StateKey) (n : ℕ)
      → Within p states k n
      → Within p (extend p x sels states) k n
  unfolding extend
  extend-Within x [] states k n h = h
  extend-Within x (sel ∷ sels) states k n h =
      extend-Within x sels (improve p (sel ++ x ∷ []) states) k n
        (improve-Within (sel ++ x ∷ []) states k n h)

  -- Each selection of the round, at its position, was offered with the new piece of evidence.
  extend-candidate :
      (x : ValidatorEvidence) (sels : List (List ValidatorEvidence)) (states : States) (i : ℕ)
      {e : List ValidatorEvidence}
      → Entries p (λ e. Unit) states
      → get_elem? sels i ≡ some e
      → Within p (extend p x sels states) (state_key p (e ++ x ∷ [])) (length e + 1)
  unfolding extend
  extend-candidate x [] states i h there = cc
  extend-candidate x (sel ∷ sels) states zero {e} h there =
      let offer = improve-candidate (sel ++ x ∷ []) states h in
      let same : sel ≡ e = ground arith in
      let long : length (sel ++ x ∷ []) ≡ length e + 1 =
        ap (λ s. length (s ++ x ∷ [])) same ∙ length-append e (x ∷ []) in
      extend-Within x sels (improve p (sel ++ x ∷ []) states) (state_key p (e ++ x ∷ []))
        (length e + 1)
        (subst₂ (Within p (improve p (sel ++ x ∷ []) states))
          (ap (λ s. state_key p (s ++ x ∷ [])) same) long offer)
  extend-candidate x (sel ∷ sels) states (suc i) h there =
      extend-candidate x sels (improve p (sel ++ x ∷ []) states) i
        (improve-Entries (λ e. Unit) (sel ++ x ∷ []) states tt h) there

  -- A state that is found is among the values.
  pub get-values :
      (states : States) (k : StateKey) {e : List ValidatorEvidence}
      → Map.get states k ≡ some e
      → (i : ℕ) × (get_elem? (Map.values states) i ≡ some e)
  unfolding Map.get
  get-values [] k there = cc
  get-values ((j, x) ∷ states) k {e} there = elim (Bool-cases (j == k)) [
    | inl same ↦ (zero, ground arith)
    | inr other ↦ let (i, at) = get-values states k (ground arith) in (suc i, at)
  ]

  -- One round: a state for the selection with the new piece of evidence, and one for it without.
  pub round-Within :
      (x : ValidatorEvidence) (states : States) (k : StateKey) (n : ℕ)
      → Entries p (λ e. Unit) states
      → (w : Within p states k n)
      → Within p (extend p x (Map.values states) states) (state_key p (w.0 ++ x ∷ [])) (n + 1)
  round-Within x states k n h (e, there, key, le) =
      let (i, at) = get-values states k there in
      let (f, found, same, short) = extend-candidate x (Map.values states) states i h at in
      (f, found, same, omega (arith, short, le))
