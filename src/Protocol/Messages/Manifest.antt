-- ===== src/Protocol/Messages/Manifest.antt =====
-- For packages/protocol/src/messages.ts: what a payload manifest says of its chunks.
use chronolog_db.Prelude.{
  suc, ◌≡◌, ◌≢◌, refl, ap, sym, ◌∙◌, true, List, [], ◌∷◌, ◌++◌, arith, ◌⊎◌, inl, inr, Bool-cases,
  length, nat_eq, ltb, subst,
}
use chronolog_db.Bytes.{Bytes, bytes_equal}
use chronolog_db.Bytes.Laws.{bytes_equal_iff}
use chronolog_db.Canonical.{TextCodec, utf8}
use chronolog_db.Protocol.{
  Outcome, returned, thrown, ◌>>◌, bind-returned, invariant-returned, returned-injective,
  digest_mismatch, schema_invalid, protocol_invariant,
}
use chronolog_db.Protocol.Schema.{wrap, traverse}
use chronolog_db.Protocol.Schema.RoundTrip.{nat_eq_lem}
use chronolog_db.Protocol.Primitives.{
  Crypto, ProtocolDomain, domain_text, domain_separated_bytes, hash_domain, payload_chunk_domain,
}
use chronolog_db.Protocol.Messages.{
  PayloadChunk, PayloadManifest, concat_bytes, payload_digest, payload_chunk_digest, describe_chunk,
  create_payload_manifest, check_digest, verify_chunks, verify_payload_manifest,
}

-- Two different byte strings of the same digest.
pub record Collision (crypto : Crypto) : Type 0 where
  pub left : Bytes
  pub right : Bytes
  pub differ : left ≢ right
  collide : crypto.sha256 left ≡ crypto.sha256 right

append-cancel : (xs ys zs : Bytes) → xs ++ ys ≡ xs ++ zs → ys ≡ zs
append-cancel [] ys zs h = h
append-cancel (x ∷ xs) ys zs h = append-cancel xs ys zs (ground (arith, h))

module _ (codec : TextCodec) (crypto : Crypto) where
  -- Two payloads of the same digest are the same, or there is a collision.
  hash_domain-same :
      (domain : ProtocolDomain) (a b digest : Bytes)
      → hash_domain codec crypto domain a ≡ returned digest
      → hash_domain codec crypto domain b ≡ returned digest
      → (a ≡ b) ⊎ Collision crypto
  unfolding hash_domain domain_separated_bytes
  hash_domain-same domain a b digest h k =
      let named = wrap (utf8 codec (domain_text domain)) in
      let (bytes, made, hashed) =
        bind-returned (domain_separated_bytes codec crypto domain a) _ h in
      let (name, is_name, joined) = bind-returned named (λ name. returned (name ++ 0 ∷ a)) made in
      let other : returned (crypto.sha256 (name ++ 0 ∷ b)) ≡ returned digest = rw is_name at k in
      let same_digest : crypto.sha256 (name ++ 0 ∷ a) ≡ crypto.sha256 (name ++ 0 ∷ b) =
        ap crypto.sha256 (returned-injective joined)
        ∙ returned-injective hashed
        ∙ sym (returned-injective other) in
      elim (Bool-cases (bytes_equal a b)) [
        | inl same ↦ inl ((bytes_equal_iff a b).0 same)
        | inr differs ↦ inr (record {
          left = name ++ 0 ∷ a;
          right = name ++ 0 ∷ b;
          differ = λ equal.
              let tails = append-cancel name (0 ∷ a) (0 ∷ b) equal in
              let whole : a ≡ b = ground (arith, tails) in
              let yes' = (bytes_equal_iff a b).1 whole in ground (arith, yes', differs);
          collide = same_digest;
        })
      ]

  check_digest-returned :
      (computed : Outcome Bytes) (expected : Bytes)
      → check_digest computed expected ≡ returned tt
      → computed ≡ returned expected
  unfolding check_digest
  check_digest-returned (thrown e) expected h = absurd (ground (arith, h))
  check_digest-returned (returned digest) expected h =
      let same : bytes_equal digest expected ≡ true = ground (arith, h) in
      ap returned ((bytes_equal_iff digest expected).0 same)

  check_digest-same :
      (computed : Outcome Bytes) (expected : Bytes)
      → computed ≡ returned expected
      → check_digest computed expected ≡ returned tt
  unfolding check_digest
  check_digest-same computed expected h = rw (h, (bytes_equal_iff expected expected).1 refl) refl

  verify_chunks-step :
      (c : Bytes) (cs : List Bytes) (e : PayloadChunk) (es : List PayloadChunk)
      → verify_chunks codec crypto (c ∷ cs) (e ∷ es) ≡ returned tt
      → (payload_chunk_digest codec crypto c ≡ returned e.digest)
        × (verify_chunks codec crypto cs es ≡ returned tt)
  unfolding verify_chunks
  verify_chunks-step c cs e es h =
      let (u, checked, rest) =
        bind-returned
          (protocol_invariant (nat_eq (length c) e.size) digest_mismatch
            >> check_digest (payload_chunk_digest codec crypto c) e.digest)
          _ h in
      let (size, same) = invariant-returned (nat_eq (length c) e.size) digest_mismatch _ checked in
      (check_digest-returned (payload_chunk_digest codec crypto c) e.digest same, rest)

  verify_chunks-same :
      (cs ds : List Bytes) (es : List PayloadChunk)
      → length cs ≡ length es
      → length ds ≡ length es
      → verify_chunks codec crypto cs es ≡ returned tt
      → verify_chunks codec crypto ds es ≡ returned tt
      → (cs ≡ ds) ⊎ Collision crypto
  unfolding payload_chunk_digest
  verify_chunks-same [] [] es hc hd h k = inl refl
  verify_chunks-same (c ∷ cs) [] [] hc hd h k = absurd (omega (arith, hc))
  verify_chunks-same (c ∷ cs) [] (e ∷ es) hc hd h k = absurd (omega (arith, hd))
  verify_chunks-same [] (d ∷ ds) [] hc hd h k = absurd (omega (arith, hd))
  verify_chunks-same [] (d ∷ ds) (e ∷ es) hc hd h k = absurd (omega (arith, hc))
  verify_chunks-same (c ∷ cs) (d ∷ ds) [] hc hd h k = absurd (omega (arith, hc))
  verify_chunks-same (c ∷ cs) (d ∷ ds) (e ∷ es) hc hd h k =
      let (digest_c, rest_c) = verify_chunks-step c cs e es h in
      let (digest_d, rest_d) = verify_chunks-step d ds e es k in
      elim (hash_domain-same payload_chunk_domain c d e.digest digest_c digest_d) [
        | inr collision ↦ inr collision
        | inl first ↦
            elim (verify_chunks-same cs ds es (omega (arith, hc)) (omega (arith, hd)) rest_c
              rest_d) [
                | inr collision ↦ inr collision
                | inl rest ↦ inl (ground (arith, first, rest))
              ]
      ]

  -- The checks of a list of chunks that is accepted.
  record Accepted (m : PayloadManifest) (cs : List Bytes) (p : Bytes) : Type 0 where
    count : length cs ≡ length m.chunks
    verified : verify_chunks codec crypto cs m.chunks ≡ returned tt
    joined : concat_bytes cs ≡ p

  verify_payload_manifest-Accepted :
      (m : PayloadManifest) (cs : List Bytes) (p : Bytes)
      → verify_payload_manifest codec crypto m cs ≡ returned p
      → Accepted m cs p
  unfolding verify_payload_manifest
  verify_payload_manifest-Accepted m cs p h =
      let (count, h1) =
        invariant-returned (nat_eq (length cs) (length m.chunks)) digest_mismatch _ h in
      let (u, verified, h2) = bind-returned (verify_chunks codec crypto cs m.chunks) _ h1 in
      let (size, h3) =
        invariant-returned (nat_eq (length (concat_bytes cs)) m.total_size) digest_mismatch _ h2 in
      let (v, total, h4) =
        bind-returned (check_digest (payload_digest codec crypto (concat_bytes cs)) m.total_digest)
          _ h3 in
      record { count = ground (arith, count); verified = verified; joined = returned-injective h4 }

  -- If one manifest accepts two lists of chunks, then each payload is the concatenation of its chunks, and the
  -- lists are the same or two different byte strings have the same SHA-256 digest.
  pub verify_payload_manifest-same :
      (m : PayloadManifest) (cs ds : List Bytes) (p q : Bytes)
      → verify_payload_manifest codec crypto m cs ≡ returned p
      → verify_payload_manifest codec crypto m ds ≡ returned q
      → (p ≡ concat_bytes cs) × (q ≡ concat_bytes ds) × ((cs ≡ ds) ⊎ Collision crypto)
  verify_payload_manifest-same m cs ds p q h k =
      let a = verify_payload_manifest-Accepted m cs p h in
      let b = verify_payload_manifest-Accepted m ds q k in
      (
        sym a.joined,
        sym b.joined,
        verify_chunks-same cs ds m.chunks a.count b.count a.verified b.verified,
      )

  -- The chunks that are described are verified.
  verify_chunks-described :
      (cs : List Bytes) (es : List PayloadChunk)
      → traverse (describe_chunk codec crypto) cs ≡ returned es
      → (length cs ≡ length es) × (verify_chunks codec crypto cs es ≡ returned tt)
  unfolding verify_chunks
  verify_chunks-described [] es h =
      subst (λ z. (0 ≡ length z) × (verify_chunks codec crypto [] z ≡ returned tt))
        (returned-injective h) (refl, refl)
  verify_chunks-described (c ∷ cs) es h =
      let (e, described, h1) = bind-returned (describe_chunk codec crypto c) _ h in
      let (rest, others, h2) = bind-returned (traverse (describe_chunk codec crypto) cs) _ h1 in
      let (digest, digested, h3) =
        bind-returned (payload_chunk_digest codec crypto c) _ described in
      let whole : e ∷ rest ≡ es = returned-injective h2 in
      let (count, verified) = verify_chunks-described cs rest others in
      let one = returned-injective h3 in
      let size : nat_eq (length c) e.size ≡ true = nat_eq_lem (ap (λ z. z.size) one) in
      let same : payload_chunk_digest codec crypto c ≡ returned e.digest =
        digested ∙ ap (λ z. returned z.digest) one in
      subst
        (λ z. (suc (length cs) ≡ length z) × (verify_chunks codec crypto (c ∷ cs) z ≡ returned tt))
        whole (ap suc count, rw (size, check_digest-same _ e.digest same, verified) refl)

  -- If a manifest is created of chunks, then it accepts them, and gives their concatenation.
  pub verify_payload_manifest-create_payload_manifest :
      (cs : List Bytes) (m : PayloadManifest)
      → create_payload_manifest codec crypto cs ≡ returned m
      → verify_payload_manifest codec crypto m cs ≡ returned (concat_bytes cs)
  unfolding create_payload_manifest verify_payload_manifest
  verify_payload_manifest-create_payload_manifest cs m h =
      let (some', h1) = invariant-returned (ltb 0 (length cs)) schema_invalid _ h in
      let (total, totalled, h2) =
        bind-returned (payload_digest codec crypto (concat_bytes cs)) _ h1 in
      let (es, described, h3) = bind-returned (traverse (describe_chunk codec crypto) cs) _ h2 in
      let (count, verified) = verify_chunks-described cs es described in
      subst (λ z. verify_payload_manifest codec crypto z cs ≡ returned (concat_bytes cs))
        (returned-injective h3)
        (rw
          (
            nat_eq_lem count,
            verified,
            nat_eq_lem {m = length (concat_bytes cs)} refl,
            check_digest-same _ total totalled,
          )
          refl)
