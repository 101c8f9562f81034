-- ===== src/Canonical/Cbor/Maps.antt =====
-- For packages/canonical/src/cbor.ts: the map that the decoder builds of ascending entries.
use chronolog_db.Prelude.{
  ◌≡◌, refl, ap, sym, ◌∙◌, true, false, Option, some, ◌++◌, arith, length-append, Bool-cases, inl,
  inr, subst, take, is_lt, String_eq,
}
use chronolog_db.Prelude.Int.{is_same_lem}
use chronolog_db.Bytes.{Bytes}
use chronolog_db.Canonical.{TextCodec, passed}
use chronolog_db.Canonical.Cbor.{
  CborMapKey, key_integer, key_text, CborValue, CborEntries, no_entries, entry, key_order,
  encode_key,
}
use chronolog_db.Canonical.Cbor.Decode.{set_entry, same_key, follows_key, consumed}
use chronolog_db.Canonical.Cbor.Heads.{take-length_append}
use chronolog_db.Canonical.Cbor.KeyOrder.{key_order_trans, key_order_irrefl}

abbrev pub joined : CborEntries → CborEntries → CborEntries
joined no_entries es = es
joined (entry k v before) es = entry k v (joined before es)

pub joined-no_entries : (before : CborEntries) → joined before no_entries ≡ before
joined-no_entries no_entries = refl
joined-no_entries (entry k v before) = ap (entry k v) (joined-no_entries before)

pub joined-entry :
    (before es : CborEntries) (k : CborMapKey) (v : CborValue)
    → joined (joined before (entry k v no_entries)) es ≡ joined before (entry k v es)
joined-entry no_entries es k v = refl
joined-entry (entry j w before) es k v = ap (entry j w) (joined-entry before es k v)

pub consumed-append : (xs ys : Bytes) → consumed (xs ++ ys) ys ≡ xs
consumed-append xs ys =
    ap (λ n. take n (xs ++ ys)) (omega (arith, length-append xs ys)) ∙ take-length_append xs ys

same_key-equal : (j k : CborMapKey) → same_key j k ≡ true → j ≡ k
same_key-equal (key_integer m) (key_integer n) h = ap key_integer (is_same_lem m n h)
same_key-equal (key_text s) (key_text t) h = ap key_text ((String_eq.agrees_iff s t).0 h)
same_key-equal _ _ h = cc

module _ (codec : TextCodec) where
  -- Every key is encoded, up to the last one.
  abbrev pub UpTo : CborEntries → Option Bytes → Type 0
  UpTo no_entries last = Unit
  UpTo (entry k v es) last =
      ((key : Bytes) × (encode_key codec k ≡ passed key)
        × ((next : Bytes) → follows_key last next ≡ true → is_lt (key_order key next) ≡ true))
      × UpTo es last

  -- A key above those of a map is added at the end.
  pub set_entry-UpTo :
      (before : CborEntries) (last : Option Bytes) (k : CborMapKey) (v : CborValue) (key : Bytes)
      → UpTo before last
      → encode_key codec k ≡ passed key
      → follows_key last key ≡ true
      → (set_entry k v before ≡ joined before (entry k v no_entries))
        × UpTo (joined before (entry k v no_entries)) (some key)
  unfolding set_entry
  set_entry-UpTo no_entries last k v key all is_key follows =
      (refl, ((key, is_key, λ next h. h), tt))
  set_entry-UpTo (entry j w before) last k v key ((other, is_other, lower), all) is_key follows =
      let (set, up) = set_entry-UpTo before last k v key all is_key follows in
      let low = lower key follows in
      let differs : same_key j k ≡ false = elim (Bool-cases (same_key j k)) [
        | inr other_key ↦ other_key
        | inl same ↦
            let equal : passed other ≡ passed key =
              sym is_other ∙ ap (encode_key codec) (same_key-equal j k same) ∙ is_key in
            let one : other ≡ key = ground arith in
            absurd (
              ground
                (arith, subst (λ z. is_lt (key_order z key) ≡ true) one low, key_order_irrefl key))
      ] in
      (
        rw (differs, set_entry) (ap (entry j w) set),
        ((other, is_other, λ next h. key_order_trans other key next low h), up),
      )
