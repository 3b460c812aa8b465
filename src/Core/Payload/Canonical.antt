-- ===== src/Core/Payload/Canonical.antt =====
-- crates/pinveil-core/src/payload.rs: only canonical encodings decode.
use pinveil.Base.{
  ◌≡◌, ◌≤◌, refl, subst, ◌∙◌, ap, Text, ◌++◌, map, Option, ok, ok_or, ltb, nat_eq, text_eq,
  text_eq_iff, length, length-take, take, drop, take-append-drop, arith, bind_ok, refuse_if_ok,
  ok_or_ok, ok_injective, not, All,
}
use pinveil.Core.Bytes.{IsByte, to_be_bytes, split_u32, to_be_bytes-split_u32}
use pinveil.Core.Protocol.{max_files_ceiling, max_manifest_bytes_ceiling}
use pinveil.Core.Payload.{
  Manifests, ManifestJson, Payload, PayloadError, ceilings, meta_of, metas_of, manifest_of,
  check_entries, text_bytes, file_bytes, total_length, split_text, split_files, encode_payload,
  decode_body, decode_payload,
}
use pinveil.Core.Payload.Shape.{
  length-map, total_length-declared, file_bytes-split_files, length-split_files, split_text-parts,
}
use pinveil.Core.Payload.RoundTrip.{prepared_ok}

module _ (lib : Manifests) where
  -- What a decoded payload went through: the checks of `prepare` with the ceilings as limits, on
  -- the manifest it was read from, and the body that its text and files make up.
  record Matches (manifest_bytes body : Text) (payload : Payload) : Type 0 where
    pub checked : check_entries payload.text (metas_of payload) ≡ ok tt
    pub few : length (metas_of payload) ≤ max_files_ceiling
    pub same : lib.to_vec (manifest_of payload.text (metas_of payload)) ≡ manifest_bytes
    pub whole : text_bytes payload.text ++ file_bytes payload.files ≡ body

  decoded_whole :
      (manifest : ManifestJson) (body rest : Text) (text : Option Text)
      → total_length manifest ≡ ok (length body)
      → split_text manifest.text body ≡ ok (text, rest)
      → text_bytes text ++ file_bytes (split_files manifest.files rest) ≡ body
  decoded_whole manifest body rest text total split =
      let parts = split_text-parts manifest.text body rest text split in
      let sum = total_length-declared (length body) manifest total in
      rw (file_bytes-split_files manifest.files rest (ground (arith, parts, sum))) parts.0

  decode_body-Matches :
      (manifest_bytes : Text) (manifest : ManifestJson) (body : Text) (payload : Payload)
      → decode_body lib manifest_bytes manifest body ≡ ok payload
      → Matches manifest_bytes body payload
  unfolding decode_body metas_of
  decode_body-Matches manifest_bytes manifest body payload h =
      let s1 =
        refuse_if_ok (ltb max_files_ceiling (length manifest.files)) PayloadError.too_many_files _
          payload h in
      let s2 = bind_ok (total_length manifest) _ payload s1.1 in
      let s3 =
        refuse_if_ok (not (nat_eq s2.0 (length body))) PayloadError.length_mismatch _ payload
          s2.1.1 in
      let s4 = bind_ok (split_text manifest.text body) _ payload s3.1 in
      let text = s4.0.0 in
      let files = split_files manifest.files s4.0.1 in
      let s5 = bind_ok (check_entries text (map meta_of files)) _ payload s4.1.1 in
      let s6 =
        refuse_if_ok
          (not (text_eq (lib.to_vec (manifest_of text (map meta_of files))) manifest_bytes))
          PayloadError.not_canonical _ payload s5.1.1 in
      let total : total_length manifest ≡ ok (length body) =
        s2.1.0 ∙ ap ok (ground (arith, s3.0)) in
      subst (Matches manifest_bytes body) (ok_injective _ _ s6.1) (record {
        checked = s5.1.0;
        few =
            ground
              (arith, length-map meta_of files, length-split_files manifest.files s4.0.1, s1.0);
        same = (text_eq_iff _ manifest_bytes).0 (ground (arith, s6.0));
        whole = decoded_whole manifest body s4.0.1 text total s4.1.0;
      })

  encoded :
      (manifest body : Text) (payload : Payload)
      → Matches manifest body payload
      → length manifest ≤ max_manifest_bytes_ceiling
      → encode_payload lib payload ceilings
        ≡ ok (to_be_bytes (length manifest) ++ (manifest ++ body))
  unfolding encode_payload
  encoded manifest body payload matches small =
      rw
        (
          prepared_ok lib payload.text (metas_of payload) ceilings manifest matches.checked
              matches.few matches.same small,
          matches.whole,
        )
        refl

  -- Bytes below 256 that decode_payload accepts are what encode_payload, under the protocol
  -- ceilings, makes of the message they decode to.
  pub decode_payload-canonical :
      (bytes : Text) (payload : Payload)
      → All IsByte bytes
      → decode_payload lib bytes ≡ ok payload
      → encode_payload lib payload ceilings ≡ ok bytes
  unfolding decode_payload
  decode_payload-canonical bytes payload small h =
      let s1 = bind_ok (ok_or (split_u32 bytes) PayloadError.truncated) _ payload h in
      let n = s1.0.0 in
      let rest = s1.0.1 in
      let s2 =
        refuse_if_ok (ltb max_manifest_bytes_ceiling n) PayloadError.manifest_too_large _ payload
          s1.1.1 in
      let s3 = refuse_if_ok (ltb (length rest) n) PayloadError.truncated _ payload s2.1 in
      let s4 =
        bind_ok (ok_or (lib.from_slice (take n rest)) PayloadError.malformed) _ payload s3.1 in
      let matches = decode_body-Matches (take n rest) s4.0 (drop n rest) payload s4.1.1 in
      let size : length (take n rest) ≡ n = ground (arith, length-take n rest, s3.0) in
      encoded (take n rest) (drop n rest) payload matches (ground (arith, size, s2.0))
      ∙ ap ok (
          rw (size, take-append-drop n rest)
            (to_be_bytes-split_u32 bytes rest n small (ok_or_ok _ _ _ s1.1.0)))
