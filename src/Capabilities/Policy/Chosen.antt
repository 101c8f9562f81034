-- ===== src/Capabilities/Policy/Chosen.antt =====
-- The selection at the end of packages/capabilities/src/policy.ts: the first of those that satisfy the
-- policy, in the order of their lengths.
use chronolog_db.Prelude.{
  SubOf, ℕ, ◌≤◌, ◌≡◌, ◌⊎◌, inl, inr, refl, ◌∙◌, sym, Bool, true, false, some, List, [], ◌∷◌, arith,
  length, All, All-sort, ap, subst, get_elem?, filter, sort, Bool-cases, Ordering, insert_sorted,
  zero, suc, pair_eq, ℕ_eq, flags_eq, String_eq, Option_eq,
}
use chronolog_db.Prelude.Map
use chronolog_db.Bytes.Laws.{Bytes_eq}
use chronolog_db.Capabilities.Types.{ValidationPolicy, ValidatorEvidence}
use chronolog_db.Capabilities.Policy.{
  state_key, solved, missing_constraints, selection_order, satisfying, is_empty, first_of,
}
use chronolog_db.Capabilities.Policy.Keys.{satisfied-state_key}
use chronolog_db.Capabilities.Policy.Solve.{get-values}
use chronolog_db.Capabilities.Policy.Rounds.{solved-Entries, solved-Within, Entries-values}

abbrev pub Satisfies : ValidationPolicy → List ValidatorEvidence → Type 0
Satisfies p e = missing_constraints p e ≡ []

abbrev is_gt : Ordering → Bool
is_gt Ordering.gt = true
is_gt _ = false

-- The first element of a sorted list of selections is there and no longer than any element.
abbrev pub FirstWithin : List (List ValidatorEvidence) → ℕ → Type 0
FirstWithin sels n = (f : List ValidatorEvidence) × (first_of sels ≡ some f) × (length f ≤ n)

-- A selection that stands behind another one is not shorter.
order-cases :
    (x y : List ValidatorEvidence)
    → ((selection_order x y ≡ Ordering.gt) × (length y ≤ length x))
      ⊎ ((length x ≤ length y) × (is_gt (selection_order x y) ≡ false))
unfolding selection_order
order-cases x y = ground arith

insert_behind :
    (x y : List ValidatorEvidence) (ys : List (List ValidatorEvidence))
    → selection_order x y ≡ Ordering.gt
    → first_of (insert_sorted selection_order x (y ∷ ys)) ≡ some y
unfolding insert_sorted
insert_behind x y ys h = ground arith

insert_front :
    (x y : List ValidatorEvidence) (ys : List (List ValidatorEvidence))
    → is_gt (selection_order x y) ≡ false
    → first_of (insert_sorted selection_order x (y ∷ ys)) ≡ some x
unfolding insert_sorted
insert_front x y ys h = ground arith

insert_first :
    (x : List ValidatorEvidence) (xs : List (List ValidatorEvidence)) (n : ℕ)
    → (length x ≤ n) ⊎ FirstWithin xs n
    → FirstWithin (insert_sorted selection_order x xs) n
unfolding insert_sorted
insert_first x [] n (inl le) = (x, refl, le)
insert_first x [] n (inr (f, e, le)) = cc
insert_first x (y ∷ ys) n (inl le) = elim (order-cases x y) [
  | inl (after, longer) ↦ (y, insert_behind x y ys after, omega (arith, longer, le))
  | inr (shorter, before) ↦ (x, insert_front x y ys before, le)
]
insert_first x (y ∷ ys) n (inr (f, e, le)) = elim (order-cases x y) [
  | inl (after, longer) ↦ (f, insert_behind x y ys after ∙ e, le)
  | inr (shorter, before) ↦
      let same : length y ≡ length f = ground arith in
      (x, insert_front x y ys before, omega (arith, same, shorter, le))
]

sort_first :
    (sels : List (List ValidatorEvidence)) (i n : ℕ) {e : List ValidatorEvidence}
    → get_elem? sels i ≡ some e
    → length e ≤ n
    → FirstWithin (sort selection_order sels) n
unfolding sort
sort_first [] i n h le = cc
sort_first (x ∷ sels) zero n h le =
    insert_first x (sort selection_order sels) n (inl (ground arith))
sort_first (x ∷ sels) (suc i) n h le =
    insert_first x (sort selection_order sels) n (inr (sort_first sels i n h le))

filter_there {ℓ} :
    {A : Type ℓ} (test : A → Bool) (xs : List A) (i : ℕ) {x : A}
    → get_elem? xs i ≡ some x
    → test x ≡ true
    → (j : ℕ) × (get_elem? (filter test xs) j ≡ some x)
unfolding filter
filter_there test [] i h t = cc
filter_there test (y ∷ ys) zero h t = (zero, ground arith)
filter_there test (y ∷ ys) (suc i) h t =
    let (j, at) = filter_there test ys i h t in
    elim (Bool-cases (test y)) [ inl b ↦ (suc j, ground arith) | inr b ↦ (j, ground arith) ]

All-filter {ℓ} :
    {A : Type ℓ} (P : A → Type 0) (test : A → Bool) (xs : List A)
    → All P xs
    → All (λ x. P x × (test x ≡ true)) (filter test xs)
unfolding filter
All-filter P test [] h = tt
All-filter P test (x ∷ xs) h = elim (Bool-cases (test x)) [
  | inl b ↦ rw b ((h.0, b), All-filter P test xs h.1)
  | inr b ↦ rw b (All-filter P test xs h.1)
]

pub first_of-All {ℓ} :
    {A : Type ℓ} (P : A → Type 0) (xs : List A) {x : A} → All P xs → first_of xs ≡ some x → P x
first_of-All P [] h e = cc
first_of-All P (y ∷ xs) {x} h e = let same : y ≡ x = ground arith in subst P same h.0

All-weaken {ℓ} :
    {A : Type ℓ} (P Q : A → Type 0) → ((x : A) → P x → Q x) → (xs : List A) → All P xs → All Q xs
All-weaken P Q f [] h = tt
All-weaken P Q f (x ∷ xs) h = (f x h.0, All-weaken P Q f xs h.1)

is_empty_lem {ℓ} : {A : Type ℓ} (xs : List A) → is_empty xs ≡ true → xs ≡ []
is_empty_lem [] h = refl
is_empty_lem (x ∷ xs) h = ground arith

-- Every state that is kept at the end is a selection of the evidence that satisfies the policy.
pub satisfying-All :
    (p : ValidationPolicy) (u : List ValidatorEvidence)
    → All (λ e. SubOf e u × Satisfies p e) (satisfying p (solved p u))
unfolding satisfying
satisfying-All p u =
    let test : List ValidatorEvidence → Bool = λ items. is_empty (missing_constraints p items) in
    let states = solved p u in
    let chosen =
      Entries-values p (λ e. SubOf e u) (λ e. SubOf e u) states (λ e s. s) (solved-Entries p u) in
    let kept = All-filter (λ e. SubOf e u) test (Map.values states) chosen in
    All-sort (λ e. SubOf e u × Satisfies p e) selection_order (filter test (Map.values states))
      (All-weaken (λ e. SubOf e u × (test e ≡ true)) (λ e. SubOf e u × Satisfies p e)
        (λ e h. (h.0, is_empty_lem (missing_constraints p e) h.1)) (filter test (Map.values states))
        kept)

-- If some selection of the evidence satisfies the policy, the first one at the end is not longer.
pub satisfying-first :
    (p : ValidationPolicy) {t u : List ValidatorEvidence}
    → SubOf t u
    → Satisfies p t
    → FirstWithin (satisfying p (solved p u)) (length t)
unfolding satisfying
satisfying-first p {t} {u} sub m =
    let test : List ValidatorEvidence → Bool = λ items. is_empty (missing_constraints p items) in
    let states = solved p u in
    let (e, there, key, le) = solved-Within p sub in
    let (i, at) = get-values p states (state_key p t) there in
    let good : test e ≡ true = ap is_empty (satisfied-state_key p t e (sym key) m) in
    let (j, kept) = filter_there test (Map.values states) i at good in
    sort_first (filter test (Map.values states)) j (length t) kept le
