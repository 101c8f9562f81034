-- ===== src/Canonical/Cbor/KeyOrder.antt =====
-- For packages/canonical/src/cbor.ts: the order of encoded keys, and entries that ascend in it.
use chronolog_db.Prelude.{
  suc, ◌≡◌, refl, ap, ◌∙◌, Bool, true, false, ◌&&◌, Option, some, List, [], ◌∷◌, arith, length,
  sort, insert_sorted, inl, inr, is_lt, subst,
}
use chronolog_db.Bytes.{Bytes}
use chronolog_db.Bytes.Laws.{compare_bytes-IsLinear, bytes_equal_iff}
use chronolog_db.Canonical.{TextCodec, Checked-cases, passed}
use chronolog_db.Canonical.Cbor.{
  CborMapKey, CborValue, CborEntries, no_entries, entry, key_order, has_duplicate_key, encode_key,
  encode_canonical_cbor, encode_entries,
}
use chronolog_db.Canonical.Cbor.Decode.{follows_key}
use chronolog_db.Canonical.Cbor.Shape.{ascends, count_entries, is_canonical}

pub key_order_trans :
    (a b c : Bytes)
    → is_lt (key_order a b) ≡ true
    → is_lt (key_order b c) ≡ true
    → is_lt (key_order a c) ≡ true
key_order_trans a b c h k = ground (arith, compare_bytes-IsLinear.trans a b c)

pub key_order_irrefl : (a : Bytes) → is_lt (key_order a a) ≡ false
key_order_irrefl a = ground (arith, compare_bytes-IsLinear.eq_iff a a)

-- Each key is above the one before it.
abbrev pub Ascending : Option Bytes → List (Bytes × Bytes) → Type 0
Ascending previous [] = Unit
Ascending previous (e ∷ es) = (follows_key previous e.0 ≡ true) × Ascending (some e.0) es

-- Ascending entries are sorted already.
pub sort-Ascending :
    (previous : Option Bytes) (es : List (Bytes × Bytes))
    → Ascending previous es
    → sort (λ a b. key_order a.0 b.0) es ≡ es
unfolding sort insert_sorted
sort-Ascending previous [] h = refl
sort-Ascending previous (e ∷ []) h = refl
sort-Ascending previous (e ∷ f ∷ es) (h, (k, more)) =
    let rest = sort-Ascending (some e.0) (f ∷ es) (k, more) in
    ap (insert_sorted (λ a b. key_order a.0 b.0) e) rest ∙ ground arith

pub has_duplicate_key-Ascending :
    (previous : Option Bytes) (es : List (Bytes × Bytes))
    → Ascending previous es
    → has_duplicate_key es ≡ false
unfolding has_duplicate_key
has_duplicate_key-Ascending previous [] h = refl
has_duplicate_key-Ascending previous (e ∷ []) h = refl
has_duplicate_key-Ascending previous (e ∷ f ∷ es) (h, (k, more)) = ground (
  arith,
  has_duplicate_key-Ascending (some e.0) (f ∷ es) (k, more),
  bytes_equal_iff e.0 f.0,
  compare_bytes-IsLinear.eq_iff e.0 f.0,
)

module _ (codec : TextCodec) where
  both_and : (a b c : Bool) → (a && b && c) ≡ true → (a ≡ true) × ((b ≡ true) × (c ≡ true))
  both_and a b c h = ground arith

  -- The parts of an encoded entry that ascends.
  pub record EntryParts (previous : Option Bytes) (k : CborMapKey) (v : CborValue)
      (es : CborEntries) (encoded : List (Bytes × Bytes)) : Type 0 where
    pub key : Bytes
    pub bytes : Bytes
    pub rest : List (Bytes × Bytes)
    pub is_key : encode_key codec k ≡ passed key
    pub is_bytes : encode_canonical_cbor codec v ≡ passed bytes
    pub is_rest : encode_entries codec es ≡ passed rest
    pub whole : (key, bytes) ∷ rest ≡ encoded
    pub follows : follows_key previous key ≡ true
    pub canonical : is_canonical codec v ≡ true
    pub ascending : ascends codec (some key) es ≡ true

  pub entry-EntryParts :
      (previous : Option Bytes) (k : CborMapKey) (v : CborValue) (es : CborEntries)
      (encoded : List (Bytes × Bytes))
      → encode_entries codec (entry k v es) ≡ passed encoded
      → ascends codec previous (entry k v es) ≡ true
      → EntryParts previous k v es encoded
  unfolding encode_canonical_cbor is_canonical
  entry-EntryParts previous k v es encoded h up = elim (Checked-cases (encode_key codec k)) [
    | inr (e, bad) ↦ absurd (ground (arith, bad, h))
    | inl (key, is_key) ↦
        let parts =
          both_and (follows_key previous key) (is_canonical codec v) (ascends codec (some key) es)
            (rw (is_key, ascends) at up) in
        elim (Checked-cases (encode_canonical_cbor codec v)) [
          | inr (e, bad) ↦ absurd (ground (arith, is_key, bad, h))
          | inl (bytes, is_bytes) ↦ elim (Checked-cases (encode_entries codec es)) [
            | inr (e, bad) ↦ absurd (ground (arith, is_key, is_bytes, bad, h))
            | inl (rest, is_rest) ↦ record {
              key = key;
              bytes = bytes;
              rest = rest;
              is_key = is_key;
              is_bytes = is_bytes;
              is_rest = is_rest;
              whole = ground (arith, is_key, is_bytes, is_rest, h);
              follows = parts.0;
              canonical = parts.1.0;
              ascending = parts.1.1;
            }
          ]
        ]
  ]

  -- Ascending entries stay so when they are encoded, and none is lost.
  pub encode_entries-Ascending :
      (previous : Option Bytes) (es : CborEntries) (encoded : List (Bytes × Bytes))
      → encode_entries codec es ≡ passed encoded
      → ascends codec previous es ≡ true
      → Ascending previous encoded × (length encoded ≡ count_entries es)
  unfolding encode_canonical_cbor is_canonical count_entries
  encode_entries-Ascending previous no_entries encoded h up =
      let none_left : [] ≡ encoded = ground arith in
      subst (λ z. Ascending previous z × (length z ≡ 0)) none_left (tt, refl)
  encode_entries-Ascending previous (entry k v es) encoded h up =
      let p = entry-EntryParts previous k v es encoded h up in
      let (more, count) = encode_entries-Ascending (some p.key) es p.rest p.is_rest p.ascending in
      subst (λ z. Ascending previous z × (length z ≡ suc (count_entries es))) p.whole
        ((p.follows, more), omega (arith, count))
