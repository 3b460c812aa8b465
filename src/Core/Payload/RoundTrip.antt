-- ===== src/Core/Payload/RoundTrip.antt =====
-- crates/pinveil-core/src/payload.rs: what is encoded decodes, and has the measured length.
use pinveil.Base.{
  ℕ, ◌+◌, ◌^◌, ◌≡◌, ◌<◌, ◌≤◌, refl, subst, ◌∙◌, ap, Text, false, ◌++◌, List, map, Option, some, ok,
  ltb, text_eq_refl, length, length-append, take, drop, take-length-append, drop-length-append,
  arith, ◌>>=◌, Result-cases, inl, inr, bind_ok, refuse_if_ok, ok_injective,
}
use pinveil.Core.Bytes.{to_be_bytes, split_u32, split_u32-to_be_bytes}
use pinveil.Core.Protocol.{max_files_ceiling, max_manifest_bytes_ceiling}
use pinveil.Core.Payload.{
  CreationLimits, FileEntry, FileMeta, Manifests, ManifestJson, json_of_meta, Payload, PayloadError,
  max_declared_length, limits_new, meta_of, metas_of, manifest_of, check_entries, text_len,
  text_bytes, file_bytes, saturating_sum, total_length, split_text, split_files, prepare,
  measure_payload, encode_payload, decode_body, decode_payload,
}
use pinveil.Core.Payload.Shape.{
  length-map, text_len-text_bytes, TextIsUtf8, total_length-files, split_text-text_bytes,
  split_files-file_bytes, saturating_sum-files,
}

abbrev pub body_len : Payload → ℕ
body_len payload = length (text_bytes payload.text) + length (file_bytes payload.files)

module _ (lib : Manifests) where
  -- What a prepared message went through.
  record IsPrepared (text : Option Text) (files : List FileMeta) (limits : CreationLimits)
      (manifest : Text) : Type 0 where
    checked : check_entries text files ≡ ok tt
    few : length files ≤ limits.max_files
    made : lib.to_vec (manifest_of text files) ≡ manifest
    small : length manifest ≤ limits.max_manifest_bytes

  prepare-IsPrepared :
      (text : Option Text) (files : List FileMeta) (limits : CreationLimits) (manifest : Text)
      → prepare lib text files limits ≡ ok manifest
      → IsPrepared text files limits manifest
  unfolding prepare
  prepare-IsPrepared text files limits manifest h =
      let s1 = bind_ok (check_entries text files) _ manifest h in
      let s2 =
        refuse_if_ok (ltb limits.max_files (length files)) PayloadError.too_many_files _ manifest
          s1.1.1 in
      let s3 =
        refuse_if_ok (ltb limits.max_manifest_bytes (length (lib.to_vec (manifest_of text files))))
          PayloadError.manifest_too_large _ manifest s2.1 in
      let made = ok_injective _ _ s3.1 in
      record {
        checked = s1.1.0;
        few = ground arith;
        made = made;
        small = ground (arith, made, s3.0);
      }

  pub prepared_ok :
      (text : Option Text) (files : List FileMeta) (limits : CreationLimits) (manifest : Text)
      → check_entries text files ≡ ok tt
      → length files ≤ limits.max_files
      → lib.to_vec (manifest_of text files) ≡ manifest
      → length manifest ≤ limits.max_manifest_bytes
      → prepare lib text files limits ≡ ok manifest
  unfolding prepare
  prepared_ok text files limits manifest checked few made small = rw (checked, made) (ground arith)

  limits_new-le :
      (a b : ℕ) (limits : CreationLimits)
      → limits_new a b ≡ some limits
      → (limits.max_files ≤ max_files_ceiling)
        × (limits.max_manifest_bytes ≤ max_manifest_bytes_ceiling)
  unfolding limits_new
  limits_new-le a b limits h = ground arith

  decode_body-steps :
      (manifest_bytes : Text) (manifest : ManifestJson) (body rest : Text) (text : Option Text)
      (files : List FileEntry)
      → length manifest.files ≤ max_files_ceiling
      → total_length manifest ≡ ok (length body)
      → split_text manifest.text body ≡ ok (text, rest)
      → split_files manifest.files rest ≡ files
      → check_entries text (map meta_of files) ≡ ok tt
      → lib.to_vec (manifest_of text (map meta_of files)) ≡ manifest_bytes
      → decode_body lib manifest_bytes manifest body ≡ ok (record { text = text; files = files })
  unfolding decode_body metas_of
  decode_body-steps manifest_bytes manifest body rest text files few total split cut checked same =
      rw (total, split, cut, checked, same, text_eq_refl manifest_bytes) (ground arith)

  decode_body-ok :
      (payload : Payload) (limits : CreationLimits) (manifest : Text)
      → IsPrepared payload.text (metas_of payload) limits manifest
      → limits.max_files ≤ max_files_ceiling
      → TextIsUtf8 payload.text
      → body_len payload ≤ max_declared_length
      → decode_body lib manifest
          (manifest_of payload.text (metas_of payload))
          (text_bytes payload.text ++ file_bytes payload.files)
        ≡ ok payload
  unfolding manifest_of metas_of
  decode_body-ok payload limits manifest prepared capped utf8 sized =
      decode_body-steps manifest (manifest_of payload.text (metas_of payload))
        (text_bytes payload.text ++ file_bytes payload.files) (file_bytes payload.files)
        payload.text payload.files
        (ground (arith, prepared.few, length-map json_of_meta (map meta_of payload.files)))
        (rw (length-append (text_bytes payload.text) (file_bytes payload.files))
          (total_length-files payload.text payload.files sized))
        (split_text-text_bytes payload.text (file_bytes payload.files) utf8)
        (split_files-file_bytes payload.files) prepared.checked prepared.made

  decode_payload-steps :
      (bytes rest : Text) (n : ℕ) (manifest : ManifestJson)
      → split_u32 bytes ≡ some (n, rest)
      → n ≤ max_manifest_bytes_ceiling
      → n ≤ length rest
      → lib.from_slice (take n rest) ≡ some manifest
      → decode_payload lib bytes ≡ decode_body lib (take n rest) manifest (drop n rest)
  unfolding decode_payload
  decode_payload-steps bytes rest n manifest split capped enough read =
      let small : ltb max_manifest_bytes_ceiling n ≡ false = ground arith in
      let long : ltb (length rest) n ≡ false = ground arith in rw (split, small, long, read) refl

  decode_payload-parts :
      (manifest body : Text) (json : ManifestJson)
      → length manifest ≤ max_manifest_bytes_ceiling
      → lib.from_slice manifest ≡ some json
      → decode_payload lib (to_be_bytes (length manifest) ++ (manifest ++ body))
        ≡ decode_body lib manifest json body
  decode_payload-parts manifest body json capped read =
      rw
        (
          decode_payload-steps (to_be_bytes (length manifest) ++ (manifest ++ body))
              (manifest ++ body) (length manifest) json
              (split_u32-to_be_bytes (length manifest) (manifest ++ body) (ground arith)) capped
              (ground (arith, length-append manifest body))
              (rw (take-length-append manifest body) read),
          take-length-append manifest body,
          drop-length-append manifest body,
        )
        refl

  -- What encode_payload makes of a message, under limits of CreationLimits::new, decodes to the
  -- message, if its text is UTF-8, its text and files hold at most 2^53 - 1 bytes together and
  -- the JSON of its manifest reads back.
  pub decode_payload-encode_payload :
      (payload : Payload) (a b : ℕ) (limits : CreationLimits) (bytes : Text)
      → limits_new a b ≡ some limits
      → TextIsUtf8 payload.text
      → body_len payload ≤ max_declared_length
      → lib.from_slice (lib.to_vec (manifest_of payload.text (metas_of payload)))
        ≡ some (manifest_of payload.text (metas_of payload))
      → encode_payload lib payload limits ≡ ok bytes
      → decode_payload lib bytes ≡ ok payload
  unfolding encode_payload
  decode_payload-encode_payload payload a b limits bytes valid utf8 sized reads h =
      let s1 = bind_ok (prepare lib payload.text (metas_of payload) limits) _ bytes h in
      let manifest = s1.0 in
      let prepared = prepare-IsPrepared payload.text (metas_of payload) limits manifest s1.1.0 in
      let capped = limits_new-le a b limits valid in
      let read =
        subst (λ bytes. lib.from_slice bytes ≡ some (manifest_of payload.text (metas_of payload)))
          prepared.made reads in
      subst (λ bytes. decode_payload lib bytes ≡ ok payload) (ok_injective _ _ s1.1.1)
        (decode_payload-parts manifest (text_bytes payload.text ++ file_bytes payload.files)
            (manifest_of payload.text (metas_of payload)) (ground (arith, prepared.small)) read
          ∙ decode_body-ok payload limits manifest prepared capped.0 utf8 sized)

  measured :
      (manifest : Text) (payload : Payload)
      → 4 + length manifest + body_len payload < 2 ^ 64
      → saturating_sum (4 + length manifest + text_len payload.text) (metas_of payload)
        ≡ length (
            to_be_bytes (length manifest)
            ++ (manifest ++ (text_bytes payload.text ++ file_bytes payload.files)))
  unfolding metas_of to_be_bytes
  measured manifest payload sized =
      let same = text_len-text_bytes payload.text in
      ground (
        arith,
        saturating_sum-files (4 + length manifest + text_len payload.text) payload.files,
        length-append manifest (text_bytes payload.text ++ file_bytes payload.files),
        length-append (text_bytes payload.text) (file_bytes payload.files),
      )

  -- measure_payload answers the length of what encode_payload makes and refuses with the same
  -- error what it refuses, for limits of a manifest below 2^32 bytes and messages of fewer than
  -- 2^64 - 2^32 - 4 bytes.
  pub measure_payload-encode_payload :
      (payload : Payload) (limits : CreationLimits)
      → 4 + 2 ^ 32 + body_len payload < 2 ^ 64
      → limits.max_manifest_bytes < 2 ^ 32
      → measure_payload lib payload.text (metas_of payload) limits
        ≡ (encode_payload lib payload limits >>= λ bytes. ok (length bytes))
  unfolding encode_payload measure_payload
  measure_payload-encode_payload payload limits sized capped =
      elim (Result-cases (prepare lib payload.text (metas_of payload) limits)) [
        | inr (e, eq) ↦ rw eq refl
        | inl (manifest, eq) ↦ rw eq (
            ap ok (
              measured manifest payload (
                ground (
                  arith,
                  (prepare-IsPrepared payload.text (metas_of payload) limits manifest eq).small,
                ))))
      ]
