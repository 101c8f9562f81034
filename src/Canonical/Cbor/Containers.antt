-- ===== src/Canonical/Cbor/Containers.antt =====
-- For packages/canonical/src/cbor.ts: arrays and maps are decoded if their parts are.
use chronolog_db.Prelude.{
  ℕ, zero, suc, ◌≡◌, refl, ap, sym, ◌∙◌, true, false, Option, none, some, List, [], ◌++◌, arith,
  leb, subst, nat_eq, String_eq,
}
use mathlib.Core.List.{append_assoc}
use chronolog_db.Bytes.{Bytes}
use chronolog_db.Canonical.{TextCodec, passed}
use chronolog_db.Canonical.Cbor.{
  CborMapKey, CborValue, CborItems, CborEntries, cbor_array, cbor_map, no_items, item, no_entries,
  entry, concat_entries, encode_canonical_cbor, encode_items, encode_entries, count_items,
}
use chronolog_db.Canonical.Cbor.Decode.{
  DecodeLimits, read_value, read_kind, read_sized, read_items, read_entries, max_safe,
}
use chronolog_db.Canonical.Cbor.Heads.{IsHead}
use chronolog_db.Canonical.Cbor.Scalars.{read_value-head, read_value-key}
use chronolog_db.Canonical.Cbor.Shape.{
  value_fits, items_fit, entries_fit, key_fits, is_canonical, are_canonical, ascends, count_entries,
}
use chronolog_db.Canonical.Cbor.KeyOrder.{entry-EntryParts}
use chronolog_db.Canonical.Cbor.Maps.{
  joined, joined-no_entries, joined-entry, consumed-append, UpTo, set_entry-UpTo,
}
use chronolog_db.Canonical.Cbor.Parts.{
  both_items, three, as_key-value_of_key, item_parts, array_parts, map_parts,
}

module _ (codec : TextCodec) (limits : DecodeLimits) where
  -- Reading with so much room gives the value, whatever follows it.
  abbrev pub Reads : CborValue → Type 0
  Reads v =
      (room : ℕ) (enc rest : Bytes)
      → encode_canonical_cbor codec v ≡ passed enc
      → is_canonical codec v ≡ true
      → value_fits codec limits room v ≡ true
      → read_value codec limits room (enc ++ rest) ≡ passed (v, rest)

  abbrev pub ReadsItems : CborItems → Type 0
  ReadsItems vs =
      (room : ℕ) (enc rest : Bytes)
      → encode_items codec vs ≡ passed enc
      → are_canonical codec vs ≡ true
      → items_fit codec limits room vs ≡ true
      → read_items (read_value codec limits room) (count_items vs) (enc ++ rest) ≡ passed (vs, rest)

  abbrev pub ReadsEntries : CborEntries → Type 0
  ReadsEntries es =
      (room : ℕ) (encoded : List (Bytes × Bytes)) (rest : Bytes) (last : Option Bytes)
      (before : CborEntries)
      → encode_entries codec es ≡ passed encoded
      → ascends codec last es ≡ true
      → entries_fit codec limits room es ≡ true
      → UpTo codec before last
      → read_entries (read_value codec limits room) (count_entries es) last before
          (concat_entries encoded ++ rest)
        ≡ passed (joined before es, rest)

  -- The first entry is read and added, and the rest of the map follows.
  pub read_entries-entry :
      (k : CborMapKey) (v : CborValue) (es : CborEntries)
      → Reads v
      → ReadsEntries es
      → ReadsEntries (entry k v es)
  unfolding read_entries count_entries concat_entries key_fits value_fits
  read_entries-entry k v es reads more room encoded rest last before h up fits upto =
      let p = entry-EntryParts codec last k v es encoded h up in
      let (key_ok, (value_ok, rest_ok)) =
        three (key_fits codec limits room k) (value_fits codec limits room v)
          (entries_fit codec limits room es) fits in
      let (set, upto') = set_entry-UpTo codec before last k v p.key upto p.is_key p.follows in
      let tail = concat_entries p.rest ++ rest in
      let input : (p.key ++ (p.bytes ++ concat_entries p.rest)) ++ rest
          ≡ p.key ++ (p.bytes ++ tail) =
        append_assoc p.key (p.bytes ++ concat_entries p.rest) rest
        ∙ ap (◌++◌ p.key) (append_assoc p.bytes (concat_entries p.rest) rest) in
      subst
        (λ z.
          read_entries (read_value codec limits room) (count_entries (entry k v es)) last before
            (concat_entries z ++ rest)
          ≡ passed (joined before (entry k v es), rest))
        p.whole
        (ap (read_entries (read_value codec limits room) (suc (count_entries es)) last before) input
          ∙ rw
              (
                read_value-key codec limits room k p.key (p.bytes ++ tail) p.is_key key_ok,
                as_key-value_of_key k,
                consumed-append p.key (p.bytes ++ tail),
                p.follows,
                reads room p.bytes tail p.is_bytes p.canonical value_ok,
                set,
              )
              (more room p.rest rest (some p.key) (joined before (entry k v no_entries)) p.is_rest
                p.ascending rest_ok upto')
          ∙ ap (λ z. passed (z, rest)) (joined-entry before es k v))

  pub read_items-item :
      (v : CborValue) (vs : CborItems) → Reads v → ReadsItems vs → ReadsItems (item v vs)
  unfolding read_items count_items encode_canonical_cbor is_canonical value_fits
  read_items-item v vs reads more room enc rest h canonical fits =
      let (bytes, body, is_bytes, is_body, whole) = item_parts codec v vs enc h in
      let (v_ok, vs_ok) = both_items (is_canonical codec v) (are_canonical codec vs) canonical in
      let (v_fits, vs_fit) =
        both_items (value_fits codec limits room v) (items_fit codec limits room vs) fits in
      subst
        (λ z.
          read_items (read_value codec limits room) (count_items (item v vs)) (z ++ rest)
          ≡ passed (item v vs, rest))
        whole
        (ap (read_items (read_value codec limits room) (suc (count_items vs)))
            (append_assoc bytes body rest)
          ∙ rw
              (
                reads room bytes (body ++ rest) is_bytes v_ok v_fits,
                more room body rest is_body vs_ok vs_fit,
              )
              refl)

  -- The value behind the head of an array or of a map.
  behind_head :
      (v : CborValue) (room major size : ℕ) (head body enc rest : Bytes)
      → IsHead major size head
      → head ++ body ≡ enc
      → nat_eq major 7 ≡ false
      → read_kind codec limits (read_value codec limits room) room major size (body ++ rest)
        ≡ passed (v, rest)
      → read_value codec limits (suc room) (enc ++ rest) ≡ passed (v, rest)
  behind_head v room major size head body enc rest is_head whole other reads =
      subst (λ z. read_value codec limits (suc room) (z ++ rest) ≡ passed (v, rest)) whole
        (ap (read_value codec limits (suc room)) (append_assoc head body rest)
          ∙ read_value-head codec limits room major size head (body ++ rest) is_head other
          ∙ reads)

  pub read_array : (vs : CborItems) → ReadsItems vs → Reads (cbor_array vs)
  unfolding encode_canonical_cbor is_canonical value_fits read_kind read_sized
  read_array vs reads zero enc rest h canonical fits = cc
  read_array vs reads (suc room) enc rest h canonical fits =
      let (head, body, is_head, is_body, whole) = array_parts codec vs enc h in
      let (safe, (small, vs_fit)) =
        three (leb (count_items vs) max_safe) (leb (count_items vs) limits.max_array_items)
          (items_fit codec limits room vs) (ground arith) in
      behind_head (cbor_array vs) room 4 (count_items vs) head body enc rest is_head whole refl
        (rw (safe, small, reads room body rest is_body canonical vs_fit) refl)

  pub read_map : (es : CborEntries) → ReadsEntries es → Reads (cbor_map es)
  unfolding encode_canonical_cbor is_canonical value_fits read_kind read_sized
  read_map es reads zero enc rest h canonical fits = cc
  read_map es reads (suc room) enc rest h canonical fits =
      let (head, encoded, is_head, is_encoded, whole) = map_parts codec es enc h canonical in
      let (safe, (small, es_fit)) =
        three (leb (count_entries es) max_safe) (leb (count_entries es) limits.max_map_items)
          (entries_fit codec limits room es) (ground arith) in
      behind_head (cbor_map es) room 5 (count_entries es) head (concat_entries encoded) enc rest
        is_head whole refl
        (rw (safe, small, reads room encoded rest none no_entries is_encoded canonical es_fit tt)
          refl)

  pub read_no_items : ReadsItems no_items
  unfolding read_items encode_canonical_cbor count_items
  read_no_items room enc rest h canonical fits =
      let empty : [] ≡ enc = ground arith in
      subst
        (λ z.
          read_items (read_value codec limits room) (count_items no_items) (z ++ rest)
          ≡ passed (no_items, rest))
        empty refl

  pub read_no_entries : ReadsEntries no_entries
  unfolding read_entries encode_canonical_cbor concat_entries count_entries
  read_no_entries room encoded rest last before h up fits upto =
      let empty : [] ≡ encoded = ground arith in
      subst
        (λ z.
          read_entries (read_value codec limits room) (count_entries no_entries) last before
            (concat_entries z ++ rest)
          ≡ passed (joined before no_entries, rest))
        empty (ap (λ z. passed (z, rest)) (sym (joined-no_entries before)))
