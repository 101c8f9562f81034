-- ===== src/Canonical/Hash/Separation.antt =====
-- For packages/canonical/src/hash.ts: what is hashed says its domain and its payload.
use chronolog_db.Prelude.{
  option_beq_iff, ◌^◌, ◌<◌, ◌≡◌, refl, ap, sym, ◌∙◌, Option, some, [], ◌∷◌, ◌++◌, String, arith,
  length, subst, Bool-cases, inl, inr, ◌==◌, String_eq, Option_eq, if◌then◌else◌,
}
use chronolog_db.Bytes.{Bytes}
use chronolog_db.Canonical.{Checked-cases, passed, TextCodec, utf8}
use chronolog_db.Canonical.BigEndian.{
  big_endian, from_big_endian, from_big_endian-big_endian, length-big_endian,
}
use chronolog_db.Canonical.Hash.{
  HashDomainKey, transaction, schema, execution_manifest, query_result, expectation, module_domain,
  entropy, hash_domains, domain_separated_bytes,
}

-- Two lists of bytes that are equal have the same parts if the first parts are as long.
append-parts :
    (xs xs' ys ys' : Bytes)
    → length xs ≡ length xs'
    → xs ++ ys ≡ xs' ++ ys'
    → (xs ≡ xs') × (ys ≡ ys')
append-parts [] [] ys ys' same h = (refl, h)
append-parts [] (x' ∷ xs') ys ys' same h = absurd (omega (arith, same))
append-parts (x ∷ xs) [] ys ys' same h = absurd (omega (arith, same))
append-parts (x ∷ xs) (x' ∷ xs') ys ys' same h =
    let tails : xs ++ ys ≡ xs' ++ ys' = ground (arith, h) in
    let rest = append-parts xs xs' ys ys' (omega (arith, same)) tails in
    (ground (arith, h, rest.0), rest.1)

-- A text that is encoded is what its bytes are decoded to.
utf8-decode :
    (codec : TextCodec) (text : String) (bytes : Bytes)
    → utf8 codec text ≡ passed bytes
    → codec.decode bytes ≡ some text
unfolding utf8
utf8-decode codec text bytes h = elim (Bool-cases (codec.decode (codec.encode text) == some text)) [
  | inr differs ↦ absurd (ground (arith, differs, h))
  | inl same ↦
      let whole : codec.encode text ≡ bytes = ground (arith, same, h) in
      subst (λ z. codec.decode z ≡ some text) whole
        ((option_beq_iff (codec.decode (codec.encode text)) (some text)).0 same)
]

-- The domain of a text.
abbrev domain_of : String → Option HashDomainKey
domain_of text =
    if text == "chronolog/transaction"
    then some transaction
    else if text == "chronolog/schema"
    then some schema
    else if text == "chronolog/execution-manifest"
    then some execution_manifest
    else if text == "chronolog/query-result"
    then some query_result
    else if text == "chronolog/expectation"
    then some expectation
    else if text == "chronolog/module"
    then some module_domain
    else some entropy

domain_of-hash_domains : (d : HashDomainKey) → domain_of (hash_domains d) ≡ some d
domain_of-hash_domains transaction = refl
domain_of-hash_domains schema = refl
domain_of-hash_domains execution_manifest = refl
domain_of-hash_domains query_result = refl
domain_of-hash_domains expectation = refl
domain_of-hash_domains module_domain = refl
domain_of-hash_domains entropy = refl

module _ (codec : TextCodec) where
  -- The parts of what is hashed.
  domain_separated_bytes-parts :
      (d : HashDomainKey) (payload bytes : Bytes)
      → domain_separated_bytes codec d payload ≡ passed bytes
      → (name : Bytes) × (utf8 codec (hash_domains d) ≡ passed name)
        × (big_endian 4 (length name) ++ (name ++ 0 ∷ payload) ≡ bytes)
  unfolding domain_separated_bytes
  domain_separated_bytes-parts d payload bytes h =
      elim (Checked-cases (utf8 codec (hash_domains d))) [
        | inr (e, bad) ↦ absurd (ground (arith, bad, h))
        | inl (name, good) ↦ (name, good, ground (arith, good, h))
      ]

  utf8-encode :
      (text : String) (bytes : Bytes) → utf8 codec text ≡ passed bytes → bytes ≡ codec.encode text
  unfolding utf8
  utf8-encode text bytes h = ground (arith, h)

  -- If two payloads give the same bytes to hash under two domains whose encoded names are shorter than 2^32
  -- bytes, then the domains are the same, and so are the payloads.
  pub domain_separated_bytes-same :
      (d e : HashDomainKey) (p q bytes : Bytes)
      → domain_separated_bytes codec d p ≡ passed bytes
      → domain_separated_bytes codec e q ≡ passed bytes
      → length (codec.encode (hash_domains d)) < 256 ^ 4
      → length (codec.encode (hash_domains e)) < 256 ^ 4
      → (d ≡ e) × (p ≡ q)
  domain_separated_bytes-same d e p q bytes h k short_d short_e =
      let (name_d, is_d, joined_d) = domain_separated_bytes-parts d p bytes h in
      let (name_e, is_e, joined_e) = domain_separated_bytes-parts e q bytes k in
      let (sizes, rest) =
        append-parts (big_endian 4 (length name_d)) (big_endian 4 (length name_e)) (name_d ++ 0 ∷ p)
          (name_e ++ 0 ∷ q)
          (length-big_endian 4 (length name_d) ∙ sym (length-big_endian 4 (length name_e)))
          (joined_d ∙ sym joined_e) in
      let bound_d =
        subst (λ z. length z < 256 ^ 4) (sym (utf8-encode (hash_domains d) name_d is_d)) short_d in
      let bound_e =
        subst (λ z. length z < 256 ^ 4) (sym (utf8-encode (hash_domains e) name_e is_e)) short_e in
      let lengths : length name_d ≡ length name_e =
        sym (from_big_endian-big_endian 4 (length name_d) bound_d)
        ∙ ap (from_big_endian 0) sizes
        ∙ from_big_endian-big_endian 4 (length name_e) bound_e in
      let (names, payloads) = append-parts name_d name_e (0 ∷ p) (0 ∷ q) lengths rest in
      let texts : some (hash_domains d) ≡ some (hash_domains e) =
        sym (utf8-decode codec (hash_domains d) name_d is_d)
        ∙ ap codec.decode names
        ∙ utf8-decode codec (hash_domains e) name_e is_e in
      let text : hash_domains d ≡ hash_domains e = ground (arith, texts) in
      let keys : some d ≡ some e =
        sym (domain_of-hash_domains d) ∙ ap domain_of text ∙ domain_of-hash_domains e in
      (ground (arith, keys), ground (arith, payloads))
