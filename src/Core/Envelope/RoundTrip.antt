-- ===== src/Core/Envelope/RoundTrip.antt =====
-- crates/pinveil-core/src/envelope.rs: what is encoded decodes.
use pinveil.Base.{
  ℕ, ◌≡◌, ◌≤◌, refl, Text, true, ◌++◌, some, ok, text_eq_refl, length, length-append,
  take-length-append, drop-length-append, arith, codes,
}
use pinveil.Core.Bytes.{split_u32-to_be_bytes}
use pinveil.Core.Protocol.{
  tag_len, max_outer_header_bytes, kdf_salt_len, iv_len, wrapped_key_len, kdf_algorithm,
  encryption_algorithm, wrapping_algorithm, protocol_version,
}
use pinveil.Core.Envelope.{
  OuterHeader, Codecs, json_of, to_json, encode_outer, decode_field, decode_outer, decode_parts,
  check_version, header_of, is_accepted_kdf_iterations,
}

-- A header whose fields have the sizes of the arrays, with an accepted iteration count and a JSON
-- text that is not over the limit.
pub record Fits (lib : Codecs) (h : OuterHeader) : Type 0 where
  pub wrapped : length h.wrapped_content_key ≡ wrapped_key_len
  pub salt : length h.kdf_salt ≡ kdf_salt_len
  pub nonce : length h.iv ≡ iv_len
  pub iterations : is_accepted_kdf_iterations h.kdf_iterations ≡ true
  pub short : length (to_json lib h) ≤ max_outer_header_bytes

-- What is relied on of base64 and of serde_json, at one header: decoding undoes encoding, and the
-- JSON of the header reads back, typed and as a loose value.
pub record Reads (lib : Codecs) (h : OuterHeader) : Type 0 where
  pub wrapped : lib.decode (lib.encode h.wrapped_content_key) ≡ some h.wrapped_content_key
  pub salt : lib.decode (lib.encode h.kdf_salt) ≡ some h.kdf_salt
  pub nonce : lib.decode (lib.encode h.iv) ≡ some h.iv
  pub typed : lib.header_from_slice (lib.header_to_vec (json_of lib h)) ≡ some (json_of lib h)
  pub loose : lib.Value
  pub parsed : lib.parse_value (lib.header_to_vec (json_of lib h)) ≡ some loose
  pub object : lib.is_object loose ≡ true
  pub version : lib.Value
  pub member : lib.get loose (codes "schemaVersion") ≡ some version
  pub number : lib.as_u64 version ≡ some protocol_version

module _ (lib : Codecs) (h : OuterHeader) (fits : Fits lib h) (reads : Reads lib h) where
  check_version-ok : check_version lib (to_json lib h) ≡ ok tt
  unfolding check_version to_json
  check_version-ok = rw (reads.parsed, reads.object, reads.member, reads.number) refl

  decode_field-ok :
      (n : ℕ) (value bytes : Text)
      → lib.decode value ≡ some bytes
      → length bytes ≡ n
      → decode_field lib n value ≡ ok bytes
  unfolding decode_field
  decode_field-ok n value bytes got size = rw got (ground arith)

  header_of-ok : header_of lib (json_of lib h) ≡ ok h
  unfolding header_of json_of
  header_of-ok =
      rw
        (
          text_eq_refl kdf_algorithm,
          text_eq_refl encryption_algorithm,
          text_eq_refl wrapping_algorithm,
          fits.iterations,
          decode_field-ok wrapped_key_len _ h.wrapped_content_key reads.wrapped fits.wrapped,
          decode_field-ok kdf_salt_len _ h.kdf_salt reads.salt fits.salt,
          decode_field-ok iv_len _ h.iv reads.nonce fits.nonce,
        )
        refl

  typed_ok : lib.header_from_slice (to_json lib h) ≡ some (json_of lib h)
  unfolding to_json
  typed_ok = reads.typed

  decode_parts-ok :
      (ciphertext : Text)
      → tag_len ≤ length ciphertext
      → decode_parts lib (to_json lib h) ciphertext
        ≡ ok (record { header = h; ciphertext = ciphertext })
  unfolding decode_parts
  decode_parts-ok ciphertext enough =
      rw (check_version-ok, typed_ok, header_of-ok, text_eq_refl (to_json lib h)) (ground arith)

  -- encode_outer of a header with fields of the right size, an accepted iteration count and a
  -- short JSON, and of a ciphertext of at least a tag, decodes to both, where the codecs read
  -- the header back.
  pub decode_outer-encode_outer :
      (ciphertext : Text)
      → tag_len ≤ length ciphertext
      → decode_outer lib (encode_outer lib h ciphertext)
        ≡ ok (record { header = h; ciphertext = ciphertext })
  unfolding decode_outer encode_outer
  decode_outer-encode_outer ciphertext enough =
      let json = to_json lib h in
      rw
        (
          split_u32-to_be_bytes (length json) (json ++ ciphertext) (ground (arith, fits.short)),
          take-length-append json ciphertext,
          drop-length-append json ciphertext,
          length-append json ciphertext,
          decode_parts-ok ciphertext enough,
        )
        (ground (arith, fits.short))
