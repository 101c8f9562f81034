-- ===== src/Canonical/Cbor/Arranged.antt =====
-- For packages/canonical/src/cbor.ts: what putting the entries of maps in order keeps of a value.
use chronolog_db.Prelude.{
  ℕ, zero, suc, ◌≡◌, refl, ap, ◌∙◌, true, ◌&&◌, none, List, arith, sort, inl, inr, Bool-cases,
}
use chronolog_db.Bytes.{Bytes}
use chronolog_db.Canonical.{TextCodec, Checked-cases, passed}
use chronolog_db.Canonical.Cbor.{
  CborMapKey, CborValue, CborItems, CborEntries, cbor_null, cbor_boolean, cbor_integer, cbor_text,
  cbor_bytes, cbor_array, cbor_map, no_items, item, no_entries, entry, encode_canonical_cbor,
  encode_items, encode_entries, count_items,
}
use chronolog_db.Canonical.Cbor.Decode.{DecodeLimits}
use chronolog_db.Canonical.Cbor.Shape.{
  is_canonical, are_canonical, count_entries, value_fits, items_fit, entries_fit, key_fits,
}
use chronolog_db.Canonical.Cbor.Parts.{item_parts}
use chronolog_db.Canonical.Cbor.InOrder.{
  by_key, is_behind, insert_entry, in_order, items_in_order, entries_in_order, entry_parts,
  encode_entries-insert_entry,
}
use chronolog_db.Canonical.Cbor.Sorted.{
  encode_map-sort, values_canonical, insert_entry-values_canonical, ascends-Ascending,
}

count_items-items_in_order :
    (codec : TextCodec) (vs : CborItems) → count_items (items_in_order codec vs) ≡ count_items vs
unfolding count_items in_order
count_items-items_in_order codec no_items = refl
count_items-items_in_order codec (item v vs) = ap suc (count_items-items_in_order codec vs)

module _ (codec : TextCodec) where
  -- The value in order is canonical and has the encoding of the value.
  abbrev pub Arranged : CborValue → Type 0
  Arranged v =
      (enc : Bytes)
      → encode_canonical_cbor codec v ≡ passed enc
      → (encode_canonical_cbor codec (in_order codec v) ≡ passed enc)
        × (is_canonical codec (in_order codec v) ≡ true)

  abbrev pub ArrangedItems : CborItems → Type 0
  ArrangedItems vs =
      (enc : Bytes)
      → encode_items codec vs ≡ passed enc
      → (encode_items codec (items_in_order codec vs) ≡ passed enc)
        × (are_canonical codec (items_in_order codec vs) ≡ true)

  abbrev pub ArrangedEntries : CborEntries → Type 0
  ArrangedEntries es =
      (encoded : List (Bytes × Bytes))
      → encode_entries codec es ≡ passed encoded
      → (encode_entries codec (entries_in_order codec es) ≡ passed (sort by_key encoded))
        × (values_canonical codec (entries_in_order codec es) ≡ true)

  array-Arranged : (vs : CborItems) → ArrangedItems vs → Arranged (cbor_array vs)
  unfolding encode_canonical_cbor is_canonical in_order
  array-Arranged vs ih enc h = elim (Checked-cases (encode_items codec vs)) [
    | inr (e, bad) ↦ absurd (ground (arith, bad, h))
    | inl (body, good) ↦
        let (same, canonical) = ih body good in
        ((rw (count_items-items_in_order codec vs, same) (rw good at h)), canonical)
  ]

  map-Arranged : (es : CborEntries) → ArrangedEntries es → Arranged (cbor_map es)
  unfolding encode_canonical_cbor is_canonical in_order
  map-Arranged es ih enc h = elim (Checked-cases (encode_entries codec es)) [
    | inr (e, bad) ↦ absurd (ground (arith, bad, h))
    | inl (encoded, good) ↦
        let (same, canonical) = ih encoded good in
        let (up, alike) = encode_map-sort encoded enc (rw good at h) in
        (
          (rw same alike),
          ascends-Ascending codec none (entries_in_order codec es) (sort by_key encoded) same up
              canonical,
        )
  ]

  item-Arranged :
      (v : CborValue) (vs : CborItems) → Arranged v → ArrangedItems vs → ArrangedItems (item v vs)
  unfolding encode_canonical_cbor is_canonical in_order
  item-Arranged v vs ih ihs enc h =
      let (bytes, body, is_bytes, is_body, whole) = item_parts codec v vs enc h in
      let (same, canonical) = ih bytes is_bytes in
      let (all_same, all_canonical) = ihs body is_body in
      ((rw (same, all_same) (ap passed whole)), (rw (canonical, all_canonical) refl))

  entry-Arranged :
      (k : CborMapKey) (v : CborValue) (es : CborEntries)
      → Arranged v
      → ArrangedEntries es
      → ArrangedEntries (entry k v es)
  unfolding in_order sort
  entry-Arranged k v es ih ihs encoded h =
      let (key, bytes, rest, is_key, is_bytes, is_rest, whole) =
        entry_parts codec k v es encoded h in
      let (same, canonical) = ih bytes is_bytes in
      let (all_same, all_canonical) = ihs rest is_rest in
      (
        encode_entries-insert_entry codec k (in_order codec v) (entries_in_order codec es) key bytes
              (sort by_key rest) is_key same all_same
            ∙ ap (λ z. passed (sort by_key z)) whole,
        insert_entry-values_canonical codec k (in_order codec v) (entries_in_order codec es)
            ∙ (rw (canonical, all_canonical) refl),
      )

  pub in_order-Arranged : (v : CborValue) → Arranged v
  unfolding encode_canonical_cbor is_canonical in_order values_canonical sort
  in_order-Arranged v = elim v as Arranged ArrangedItems ArrangedEntries [
    | cbor_array (vs → ih) ↦ array-Arranged vs ih
    | cbor_map (es → ih) ↦ map-Arranged es ih
    | no_items ↦ λ enc h. (h, refl)
    | item (v → ih) (vs → ihs) ↦ item-Arranged v vs ih ihs
    | no_entries ↦ λ encoded h. (ground (arith, h), refl)
    | entry k (v → ih) (es → ihs) ↦ entry-Arranged k v es ih ihs
    | cbor_null ↦ λ enc h. (h, refl)
    | cbor_boolean b ↦ λ enc h. (h, refl)
    | cbor_integer n ↦ λ enc h. (h, refl)
    | cbor_text text ↦ λ enc h. (h, refl)
    | cbor_bytes bytes ↦ λ enc h. (h, refl)
  ]

module _ (codec : TextCodec) (limits : DecodeLimits) where
  insert_entry-entries_fit :
      (room : ℕ) (k : CborMapKey) (v : CborValue) (es : CborEntries)
      → (entries_fit codec limits room (insert_entry codec k v es) ≡ (
          key_fits codec limits room k
          && value_fits codec limits room v
          && entries_fit codec limits room es))
        × (count_entries (insert_entry codec k v es) ≡ suc (count_entries es))
  unfolding value_fits insert_entry count_entries
  insert_entry-entries_fit room k v no_entries = (refl, refl)
  insert_entry-entries_fit room k v (entry j w es) = elim (Bool-cases (is_behind codec k j)) [
    | inl behind ↦
        let (fits, count) = insert_entry-entries_fit room k v es in
        ((rw behind (ground (arith, fits))), (rw behind (ap suc count)))
    | inr front ↦ ((rw front refl), (rw front refl))
  ]

  -- The value in order is within the limits as the value is.
  abbrev Fits : CborValue → ℕ → Type 0
  Fits v room = value_fits codec limits room (in_order codec v) ≡ value_fits codec limits room v

  abbrev FitItems : CborItems → ℕ → Type 0
  FitItems vs room =
      items_fit codec limits room (items_in_order codec vs) ≡ items_fit codec limits room vs

  abbrev FitEntries : CborEntries → ℕ → Type 0
  FitEntries es room =
      (entries_fit codec limits room (entries_in_order codec es) ≡ entries_fit codec limits room es)
      × (count_entries (entries_in_order codec es) ≡ count_entries es)

  array-Fits :
      (vs : CborItems) → ((room : ℕ) → FitItems vs room) → (room : ℕ) → Fits (cbor_array vs) room
  unfolding value_fits in_order
  array-Fits vs ih zero = refl
  array-Fits vs ih (suc room) = rw (ih room, count_items-items_in_order codec vs) refl

  map-Fits :
      (es : CborEntries) → ((room : ℕ) → FitEntries es room) → (room : ℕ) → Fits (cbor_map es) room
  unfolding value_fits in_order
  map-Fits es ih zero = refl
  map-Fits es ih (suc room) = rw ((ih room).0, (ih room).1) refl

  pub value_fits-in_order :
      (v : CborValue) (room : ℕ)
      → value_fits codec limits room (in_order codec v) ≡ value_fits codec limits room v
  unfolding value_fits in_order count_entries
  value_fits-in_order v =
      elim v
        as (λ v. (room : ℕ) → Fits v room) (λ vs. (room : ℕ) → FitItems vs room) (λ es.
          (room : ℕ) → FitEntries es room) [
            | cbor_array (vs → ih) ↦ array-Fits vs ih
            | cbor_map (es → ih) ↦ map-Fits es ih
            | no_items ↦ λ room. refl
            | item (v → ih) (vs → ihs) ↦ λ room. rw (ih room, ihs room) refl
            | no_entries ↦ λ room. (refl, refl)
            | entry k (v → ih) (es → ihs) ↦ λ room.
                let (fits, count) =
                  insert_entry-entries_fit room k (in_order codec v) (entries_in_order codec es) in
                (fits ∙ (rw (ih room, (ihs room).0) refl), count ∙ ap suc (ihs room).1)
            | cbor_null ↦ λ room. refl
            | cbor_boolean b ↦ λ room. refl
            | cbor_integer n ↦ λ room. refl
            | cbor_text text ↦ λ room. refl
            | cbor_bytes bytes ↦ λ room. refl
          ]
