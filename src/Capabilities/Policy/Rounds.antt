-- ===== src/Capabilities/Policy/Rounds.antt =====
-- All the rounds of the dynamic program of packages/capabilities/src/policy.ts together.
use chronolog_db.Prelude.{
  SubOf, done, skip, keep, ℕ, ◌+◌, ◌≡◌, refl, ap, sym, subst, subst₂, List, [], ◌∷◌, ◌++◌, arith,
  length, All, pair_eq, ℕ_eq, flags_eq,
}
use chronolog_db.Prelude.Map
use chronolog_db.Bytes.Laws.{Bytes_eq}
use chronolog_db.Capabilities.Types.{ValidationPolicy, ValidatorEvidence}
use chronolog_db.Capabilities.Policy.{state_key, solve, extend, solved}
use chronolog_db.Capabilities.Policy.Keys.{state_key-append}
use chronolog_db.Capabilities.Policy.Solve.{
  States, Within, Entries, extend-Within, extend-Entries, round-Within,
}

append_nil {ℓ} : {A : Type ℓ} (xs : List A) → xs ++ [] ≡ xs
append_nil [] = refl
append_nil (x ∷ xs) = ap (◌∷◌ x) (append_nil xs)

append_one {ℓ} : {A : Type ℓ} (xs ys : List A) (x : A) → xs ++ x ∷ [] ++ ys ≡ xs ++ x ∷ ys
append_one [] ys x = refl
append_one (y ∷ xs) ys x = ap (◌∷◌ y) (append_one xs ys x)

SubOf-skip_last {ℓ} : {A : Type ℓ} {xs ys : List A} (z : A) → SubOf xs ys → SubOf xs (ys ++ z ∷ [])
SubOf-skip_last z done = skip z done
SubOf-skip_last z (skip y h) = skip y (SubOf-skip_last z h)
SubOf-skip_last z (keep y h) = keep y (SubOf-skip_last z h)

SubOf-keep_last {ℓ} :
    {A : Type ℓ} {xs ys : List A} (z : A) → SubOf xs ys → SubOf (xs ++ z ∷ []) (ys ++ z ∷ [])
SubOf-keep_last z done = keep z done
SubOf-keep_last z (skip y h) = skip y (SubOf-keep_last z h)
SubOf-keep_last z (keep y h) = keep y (SubOf-keep_last z h)

module _ (p : ValidationPolicy) where
  Entries-weaken :
      (P Q : List ValidatorEvidence → Type 0) (states : States)
      → ((e : List ValidatorEvidence) → P e → Q e)
      → Entries p P states
      → Entries p Q states
  Entries-weaken P Q [] f h = tt
  Entries-weaken P Q ((k, e) ∷ states) f h = ((h.0.0, f e h.0.1), Entries-weaken P Q states f h.1)

  pub Entries-values :
      (P Q : List ValidatorEvidence → Type 0) (states : States)
      → ((e : List ValidatorEvidence) → P e → Q e)
      → Entries p P states
      → All Q (Map.values states)
  Entries-values P Q [] f h = tt
  Entries-values P Q ((k, e) ∷ states) f h = (f e h.0.1, Entries-values P Q states f h.1)

  -- After all rounds the selections are made of the evidence, in its order.
  solve-Entries :
      (xs seen : List ValidatorEvidence) (states : States)
      → Entries p (λ e. SubOf e seen) states
      → Entries p (λ e. SubOf e (seen ++ xs)) (solve p xs states)
  unfolding solve
  solve-Entries [] seen states h =
      subst (λ s. Entries p (λ e. SubOf e s) states) (sym (append_nil seen)) h
  solve-Entries (x ∷ xs) seen states h =
      let now = seen ++ x ∷ [] in
      let offers =
        Entries-values (λ e. SubOf e seen) (λ e. SubOf (e ++ x ∷ []) now) states
          (λ e s. SubOf-keep_last x s) h in
      let kept =
        Entries-weaken (λ e. SubOf e seen) (λ e. SubOf e now) states (λ e s. SubOf-skip_last x s)
          h in
      let round = extend-Entries p (λ e. SubOf e now) x (Map.values states) states offers kept in
      subst (λ s. Entries p (λ e. SubOf e s) (solve p xs (extend p x (Map.values states) states)))
        (append_one seen xs x) (solve-Entries xs now (extend p x (Map.values states) states) round)

  -- For each way to choose from the evidence there is a state with its key that is not longer.
  solve-Within :
      {t xs : List ValidatorEvidence} (e : List ValidatorEvidence) (n : ℕ) (states : States)
      → SubOf t xs
      → Entries p (λ e. Unit) states
      → Within p states (state_key p e) n
      → Within p (solve p xs states) (state_key p (e ++ t)) (n + length t)
  unfolding solve
  solve-Within e n states done h w =
      subst₂ (λ a m. Within p states (state_key p a) m) (sym (append_nil e)) (omega arith) w
  solve-Within e n states (skip {xs} {ys} y sub) h w =
      let next = extend p y (Map.values states) states in
      let entries =
        extend-Entries p (λ e. Unit) y (Map.values states) states
          (Entries-values (λ e. Unit) (λ e. Unit) states (λ e u. tt) h) h in
      solve-Within e n next sub entries
        (extend-Within p y (Map.values states) states (state_key p e) n w)
  solve-Within e n states (keep {xs} {ys} y sub) h w =
      let next = extend p y (Map.values states) states in
      let entries =
        extend-Entries p (λ e. Unit) y (Map.values states) states
          (Entries-values (λ e. Unit) (λ e. Unit) states (λ e u. tt) h) h in
      let key : state_key p (w.0 ++ y ∷ []) ≡ state_key p (e ++ y ∷ []) =
        state_key-append p w.0 e y w.2 in
      let round =
        subst (λ k. Within p next k (n + 1)) key (round-Within p y states (state_key p e) n h w) in
      subst₂ (λ a m. Within p (solve p ys next) (state_key p a) m) (append_one e xs y) (omega arith)
        (solve-Within (e ++ y ∷ []) (n + 1) next sub entries round)

  start-Entries :
      (P : List ValidatorEvidence → Type 0) → P [] → Entries p P (Map.set [] (state_key p []) [])
  unfolding Map.set
  start-Entries P h = ((refl, h), tt)

  pub solved-Entries : (xs : List ValidatorEvidence) → Entries p (λ e. SubOf e xs) (solved p xs)
  unfolding solved
  solved-Entries xs =
      solve-Entries xs [] (Map.set [] (state_key p []) []) (start-Entries (λ e. SubOf e []) done)

  pub solved-Within :
      {t xs : List ValidatorEvidence}
      → SubOf t xs
      → Within p (solved p xs) (state_key p t) (length t)
  unfolding solved
  solved-Within {t} {xs} sub =
      let start = Map.set [] (state_key p []) [] in
      let found =
        solve-Within [] 0 start sub (start-Entries (λ e. Unit) tt)
          ([], Map.get-set_self [] (state_key p []) [], refl, omega arith) in
      subst (Within p (solve p xs start) (state_key p t)) (omega arith) found
