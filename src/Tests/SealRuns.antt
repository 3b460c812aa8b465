-- ===== src/Tests/SealRuns.antt =====
-- Runs of the encodings and of sealing.
use pinveil.Base.{
  ℕ, ◌≡◌, ◌≤◌, refl, sym, ap, Text, true, [], ◌∷◌, ◌++◌, none, some, ok, ◌>>=◌, All, arith, codes,
  length, take, drop, take-length-append, length-append, text_eq,
}
use pinveil.Core.Bytes.{IsByte, to_be_bytes, split_u32}
use pinveil.Core.Envelope.{
  Codecs, HeaderJson, OuterHeader, json_of, to_json, encode_outer, decode_outer, zeros,
  is_accepted_kdf_iterations,
}
use pinveil.Core.Envelope.Canonical.{decode_outer-canonical}
use pinveil.Core.Envelope.RoundTrip.{Fits, Reads}
use pinveil.Core.Generate.{is_valid_pin}
use pinveil.Core.Payload.{
  Manifests, Payload, ceilings, limits_new, metas_of, encode_payload, decode_payload,
  measure_payload, json_of_meta, meta_of, text_bytes, file_bytes,
}
use pinveil.Core.Payload.Canonical.{decode_payload-canonical}
use pinveil.Core.Payload.RoundTrip.{measure_payload-encode_payload}
use pinveil.Core.Protocol.{
  kdf_algorithm, encryption_algorithm, wrapping_algorithm, protocol_version,
}
use pinveil.Core.Crypto.{Primitives, SealMaterial, draw, seal, open_blob, open_payload}
use pinveil.Core.Crypto.Laws.{Invertible}
use pinveil.Core.Crypto.RoundTrip.{open_blob-seal, open_payload-seal}
use pinveil.Core.Payload.Shape.{TextIsUtf8}

-- Stand-ins for base64 and serde_json that know one header, and one manifest.
abbrev json_for : OuterHeader → HeaderJson
json_for h = record {
  wrapped_content_key = h.wrapped_content_key;
  kdf_salt = h.kdf_salt;
  iv = h.iv;
  kdf_algorithm = kdf_algorithm;
  kdf_iterations = h.kdf_iterations;
  encryption_algorithm = encryption_algorithm;
  wrapping_algorithm = wrapping_algorithm;
  schema_version = protocol_version;
}

abbrev codecs_for : OuterHeader → Codecs
codecs_for h = record {
  Value = ℕ;
  parse_value = λ text. some 0;
  is_object = λ v. true;
  get = λ v key. some 2;
  as_u64 = λ v. some v;
  header_to_vec = λ json. codes "{}";
  header_from_slice = λ text. some (json_for h);
  encode = λ bytes. bytes;
  decode = λ text. some text;
}

Reads-for : (h : OuterHeader) → Reads (codecs_for h) h
unfolding json_of
Reads-for h = record {
  wrapped = refl;
  salt = refl;
  nonce = refl;
  typed = refl;
  loose = 0;
  parsed = refl;
  object = refl;
  version = 2;
  member = refl;
  number = refl;
}

abbrev blank : OuterHeader
blank = record {
  wrapped_content_key = zeros 40;
  kdf_salt = zeros 16;
  iv = zeros 12;
  kdf_iterations = 600_000;
}

blank-Fits : Fits (codecs_for blank) blank
unfolding zeros to_json is_accepted_kdf_iterations
blank-Fits = record {
  wrapped = refl;
  salt = refl;
  nonce = refl;
  iterations = refl;
  short = omega arith;
}

decode_outer-canonical_example :
    (encode_outer (codecs_for blank) blank (zeros 16) ≡ 0 ∷ 0 ∷ 0 ∷ 2 ∷ (codes "{}" ++ zeros 16))
    × (16 ≤ length (zeros 16))
unfolding zeros decode_outer split_u32 text_eq to_json
decode_outer-canonical_example =
    decode_outer-canonical (codecs_for blank) (0 ∷ 0 ∷ 0 ∷ 2 ∷ (codes "{}" ++ zeros 16))
      (record { header = blank; ciphertext = zeros 16 }) small refl
  where
    small : All IsByte (0 ∷ 0 ∷ 0 ∷ 2 ∷ (codes "{}" ++ zeros 16))
    small = ground arith

abbrev picture : Payload
picture = record {
  text = none;
  files = record { name = codes "a.png"; mime_type = codes "image/png"; data_ = 1 ∷ 2 ∷ [] } ∷ [];
}

abbrev manifests : Manifests
manifests = record {
  to_vec = λ m. codes "{}";
  from_slice = λ text. some (record {
    text = none;
    files = record { name = codes "a.png"; mime_type = codes "image/png"; byte_length = 2 } ∷ [];
  });
}

abbrev picture_bytes : Text
picture_bytes = 0 ∷ 0 ∷ 0 ∷ 2 ∷ (codes "{}" ++ 1 ∷ 2 ∷ [])

measure_payload-encode_payload_example :
    measure_payload manifests picture.text (metas_of picture) ceilings
    ≡ (encode_payload manifests picture ceilings >>= λ bytes. ok (length bytes))
unfolding text_bytes file_bytes
measure_payload-encode_payload_example =
    measure_payload-encode_payload manifests picture ceilings (omega arith) (omega arith)

decode_payload-canonical_example : encode_payload manifests picture ceilings ≡ ok picture_bytes
unfolding decode_payload split_u32 text_eq meta_of
decode_payload-canonical_example =
    decode_payload-canonical manifests picture_bytes picture (ground arith) refl

-- Stand-ins for the primitives: a wrapped key is the key and eight zeros, a ciphertext a zero tag
-- and the text.
abbrev primitives : Primitives
primitives = record {
  pbkdf2 = λ input salt iterations. input;
  wrap_key = λ kek key. key ++ zeros 8;
  unwrap_key = λ kek wrapped. some (take 32 wrapped);
  encrypt = λ key iv tied plain. zeros 16 ++ plain;
  decrypt = λ key iv tied text. some (drop 16 text);
}

take-zeros : (key rest : Text) (n : ℕ) → length key ≡ n → take n (key ++ rest) ≡ key
take-zeros key rest n h = rw (sym h) (take-length-append key rest)

primitives-Invertible : Invertible primitives
unfolding zeros
primitives-Invertible = record {
  unwrap_wrap = λ kek key h. ap some (take-zeros key (zeros 8) 32 h);
  length_wrap = λ kek key h. omega (arith, length-append key (zeros 8));
  decrypt_encrypt = λ key iv tied plain. refl;
  length_encrypt = λ key iv tied plain. omega arith;
}

abbrev material : SealMaterial
material = record { kdf_salt = zeros 16; iv = zeros 12; content_key = zeros 32 }

abbrev sealing_header : OuterHeader
sealing_header = record {
  wrapped_content_key = zeros 32 ++ zeros 8;
  kdf_salt = zeros 16;
  iv = zeros 12;
  kdf_iterations = 600_000;
}

abbrev sealed_blob : Text
sealed_blob = 0 ∷ 0 ∷ 0 ∷ 2 ∷ (codes "{}" ++ (zeros 16 ++ picture_bytes))

open_blob-seal_example :
    open_blob primitives (codecs_for sealing_header) sealed_blob (codes "pass") (codes "123456")
    ≡ ok picture_bytes
unfolding zeros draw seal to_json to_be_bytes is_valid_pin is_accepted_kdf_iterations encode_outer
open_blob-seal_example =
    open_blob-seal primitives (codecs_for sealing_header) primitives-Invertible picture_bytes
      (codes "pass") (codes "123456") 600_000 (zeros 60) [] material sealed_blob refl
      (Reads-for sealing_header) (omega arith) refl

open_payload-seal_example :
    open_payload primitives
      (codecs_for sealing_header)
      manifests
      sealed_blob
      (codes "pass")
      (codes "123456")
    ≡ ok picture
unfolding zeros draw seal to_json to_be_bytes is_valid_pin is_accepted_kdf_iterations encode_outer
    limits_new encode_payload TextIsUtf8 json_of_meta meta_of
open_payload-seal_example =
    open_payload-seal primitives (codecs_for sealing_header) primitives-Invertible manifests picture
      256 4096 (record { max_files = 256; max_manifest_bytes = 4096 }) picture_bytes (codes "pass")
      (codes "123456") 600_000 (zeros 60) [] material sealed_blob refl tt (omega arith) refl refl
      (Reads-for sealing_header) (omega arith) refl refl
