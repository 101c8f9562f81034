-- ===== src/Canonical/Cbor/Sorted.antt =====
-- For packages/canonical/src/cbor.ts: a value with its entries in order has the encoding of the value, and the
-- entries ascend.
use chronolog_db.Prelude.{
  ◌≡◌, refl, ap, sym, ◌∙◌, Bool, true, false, ◌&&◌, none, some, Option, List, [], ◌∷◌, arith, sort,
  ◌⊎◌, inl, inr, subst, Bool-cases, Sorted, IsPreorder, sort-Sorted, NotBehind,
}
use chronolog_db.Bytes.{Bytes, bytes_equal}
use chronolog_db.Bytes.Laws.{compare_bytes-IsLinear, bytes_equal_iff}
use chronolog_db.Canonical.{TextCodec, passed}
use chronolog_db.Canonical.Cbor.{
  CborMapKey, CborValue, CborEntries, no_entries, entry, has_duplicate_key, encode_entries,
  encode_map,
}
use chronolog_db.Canonical.Cbor.Decode.{follows_key}
use chronolog_db.Canonical.Cbor.Shape.{ascends, is_canonical}
use chronolog_db.Canonical.Cbor.KeyOrder.{Ascending, sort-Ascending}
use chronolog_db.Canonical.Cbor.InOrder.{by_key, is_behind, insert_entry, entry_parts}

by_key-IsPreorder : IsPreorder by_key
by_key-IsPreorder = record {
  flipped = λ a b. ground (arith, compare_bytes-IsLinear.flipped a.0 b.0);
  trans = λ a b c h k. ground (
    arith,
    h,
    k,
    compare_bytes-IsLinear.eq_iff a.0 b.0,
    compare_bytes-IsLinear.eq_iff b.0 c.0,
    compare_bytes-IsLinear.eq_iff a.0 c.0,
    compare_bytes-IsLinear.trans a.0 b.0 c.0,
  );
}

-- Sorted entries with different keys ascend.
Sorted-Ascending :
    (previous : Option Bytes) (e : Bytes × Bytes) (es : List (Bytes × Bytes))
    → follows_key previous e.0 ≡ true
    → Sorted (NotBehind by_key-IsPreorder) (e ∷ es)
    → has_duplicate_key (e ∷ es) ≡ false
    → Ascending previous (e ∷ es)
unfolding has_duplicate_key
Sorted-Ascending previous e [] follows s h = (follows, tt)
Sorted-Ascending previous e (f ∷ es) follows s h =
    let differs : bytes_equal e.0 f.0 ≡ false = ground (arith, h) in
    let rest : has_duplicate_key (f ∷ es) ≡ false = ground (arith, h) in
    let up : follows_key (some e.0) f.0 ≡ true =
      ground
        (arith, s.0.0, differs, bytes_equal_iff e.0 f.0, compare_bytes-IsLinear.eq_iff e.0 f.0) in
    (follows, Sorted-Ascending (some e.0) f es up s.1 rest)

List-cases {ℓ} : {A : Type ℓ} (xs : List A) → (xs ≡ []) ⊎ ((y : A) × (ys : List A) × (xs ≡ y ∷ ys))
List-cases [] = inl refl
List-cases (y ∷ ys) = inr (y, ys, refl)

sort-by_key-Ascending :
    (es : List (Bytes × Bytes))
    → has_duplicate_key (sort by_key es) ≡ false
    → Ascending none (sort by_key es)
sort-by_key-Ascending es h = elim (List-cases (sort by_key es)) [
  | inl empty ↦ rw empty tt
  | inr (f, fs, whole) ↦ rw whole (
      Sorted-Ascending none f fs refl
        (subst (Sorted (NotBehind by_key-IsPreorder)) whole (sort-Sorted by_key-IsPreorder es))
        (ap has_duplicate_key (sym whole) ∙ h))
]

-- A map that is encoded has different keys, and its entries are encoded alike when they are sorted before.
pub encode_map-sort :
    (es : List (Bytes × Bytes)) (enc : Bytes)
    → encode_map es ≡ passed enc
    → Ascending none (sort by_key es) × (encode_map (sort by_key es) ≡ passed enc)
unfolding encode_map
encode_map-sort es enc h = elim (Bool-cases (has_duplicate_key (sort by_key es))) [
  | inl twice ↦ absurd (ground (arith, (rw twice at h)))
  | inr once ↦
      let up = sort-by_key-Ascending es once in
      (up, (rw (sort-Ascending none (sort by_key es) up) h))
]

module _ (codec : TextCodec) where
  -- The values of the entries are canonical.
  unfoldable pub values_canonical : CborEntries → Bool
  values_canonical no_entries = true
  values_canonical (entry k v es) = is_canonical codec v && values_canonical es

  pub insert_entry-values_canonical :
      (k : CborMapKey) (v : CborValue) (es : CborEntries)
      → values_canonical (insert_entry codec k v es) ≡ (is_canonical codec v && values_canonical es)
  unfolding insert_entry values_canonical
  insert_entry-values_canonical k v no_entries = refl
  insert_entry-values_canonical k v (entry j w es) = elim (Bool-cases (is_behind codec k j)) [
    | inl behind ↦ rw behind (ground (arith, insert_entry-values_canonical k v es))
    | inr front ↦ rw front refl
  ]

  -- Entries with canonical values ascend as their encodings do.
  pub ascends-Ascending :
      (previous : Option Bytes) (es : CborEntries) (encoded : List (Bytes × Bytes))
      → encode_entries codec es ≡ passed encoded
      → Ascending previous encoded
      → values_canonical es ≡ true
      → ascends codec previous es ≡ true
  unfolding is_canonical values_canonical
  ascends-Ascending previous no_entries encoded h up good = refl
  ascends-Ascending previous (entry k v es) encoded h up good =
      let (key, bytes, rest, is_key, is_bytes, is_rest, whole) =
        entry_parts codec k v es encoded h in
      let (follows, more) = subst (Ascending previous) (sym whole) up in
      let (v_good, es_good) : (is_canonical codec v ≡ true) × (values_canonical es ≡ true) =
        ground (arith, good) in
      rw
        (
          is_key,
          follows,
          v_good,
          ascends-Ascending (some key) es rest is_rest more es_good,
          ascends,
        )
        refl
