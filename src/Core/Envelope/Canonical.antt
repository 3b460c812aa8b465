-- ===== src/Core/Envelope/Canonical.antt =====
-- crates/pinveil-core/src/envelope.rs: only canonical encodings decode.
use pinveil.Base.{
  ℕ, ◌≡◌, ◌≤◌, refl, Text, false, not, ◌++◌, Result, ok, ok_or, ltb, text_eq, text_eq_iff, length,
  length-take, take, drop, take-append-drop, All, arith, bind_ok, ok_injective, subst, refuse_if_ok,
  ok_or_ok,
}
use pinveil.Core.Bytes.{IsByte, to_be_bytes, split_u32, to_be_bytes-split_u32}
use pinveil.Core.Protocol.{tag_len, max_outer_header_bytes}
use pinveil.Core.Envelope.{
  OuterHeader, OuterEnvelope, HeaderError, Codecs, to_json, encode_outer, decode_outer,
  decode_parts, check_version, header_of,
}

module _ (lib : Codecs) where
  abbrev IsCanonical : Text → Text → OuterEnvelope → Type 0
  IsCanonical header_bytes ciphertext env =
      (to_json lib env.header ≡ header_bytes)
      × ((env.ciphertext ≡ ciphertext) × (tag_len ≤ length ciphertext))

  finish-IsCanonical :
      (header_bytes ciphertext : Text) (header : OuterHeader) (env : OuterEnvelope)
      → not (text_eq (to_json lib header) header_bytes) ≡ false
      → ltb (length ciphertext) tag_len ≡ false
      → ◌≡◌ {A = Result OuterEnvelope HeaderError}
          (ok (record { header = header; ciphertext = ciphertext }))
          (ok env)
      → IsCanonical header_bytes ciphertext env
  finish-IsCanonical header_bytes ciphertext header env same long eq =
      subst (IsCanonical header_bytes ciphertext) (ok_injective _ _ eq)
        ((text_eq_iff (to_json lib header) header_bytes).0 (ground arith), (refl, ground arith))

  decode_parts-IsCanonical :
      (header_bytes ciphertext : Text) (env : OuterEnvelope)
      → decode_parts lib header_bytes ciphertext ≡ ok env
      → IsCanonical header_bytes ciphertext env
  unfolding decode_parts
  decode_parts-IsCanonical header_bytes ciphertext env h =
      let s1 = bind_ok (check_version lib header_bytes) _ env h in
      let s2 =
        bind_ok (ok_or (lib.header_from_slice header_bytes) HeaderError.malformed) _ env s1.1.1 in
      let s3 = bind_ok (header_of lib s2.0) _ env s2.1.1 in
      let s4 =
        refuse_if_ok (not (text_eq (to_json lib s3.0) header_bytes)) HeaderError.not_canonical _ env
          s3.1.1 in
      let s5 = refuse_if_ok (ltb (length ciphertext) tag_len) HeaderError.truncated _ env s4.1 in
      finish-IsCanonical header_bytes ciphertext s3.0 env s4.0 s5.0 s5.1

  assembled :
      (blob rest : Text) (n : ℕ) (env : OuterEnvelope)
      → to_be_bytes n ++ rest ≡ blob
      → n ≤ length rest
      → IsCanonical (take n rest) (drop n rest) env
      → encode_outer lib env.header env.ciphertext ≡ blob
  unfolding encode_outer
  assembled blob rest n env split enough (same, (tail, _)) =
      let size : length (take n rest) ≡ n = ground (arith, length-take n rest) in
      rw (same, tail, size, take-append-drop n rest, split)

  -- A blob of bytes below 256 that decode_outer accepts is the encoding of the header and
  -- ciphertext it answers, and the ciphertext holds at least a tag.
  pub decode_outer-canonical :
      (blob : Text) (env : OuterEnvelope)
      → All IsByte blob
      → decode_outer lib blob ≡ ok env
      → (encode_outer lib env.header env.ciphertext ≡ blob) × (tag_len ≤ length env.ciphertext)
  unfolding decode_outer
  decode_outer-canonical blob env bytes h =
      let s1 = bind_ok (ok_or (split_u32 blob) HeaderError.truncated) _ env h in
      let s2 =
        refuse_if_ok (ltb max_outer_header_bytes s1.0.0) HeaderError.header_too_large _ env
          s1.1.1 in
      let s3 = refuse_if_ok (ltb (length s1.0.1) s1.0.0) HeaderError.truncated _ env s2.1 in
      let canon = decode_parts-IsCanonical (take s1.0.0 s1.0.1) (drop s1.0.0 s1.0.1) env s3.1 in
      let split = to_be_bytes-split_u32 blob s1.0.1 s1.0.0 bytes (ok_or_ok _ _ _ s1.1.0) in
      (assembled blob s1.0.1 s1.0.0 env split (ground arith) canon, ground (arith, canon))
