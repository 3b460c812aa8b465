-- ===== src/Core/Envelope.antt =====
-- crates/pinveil-core/src/envelope.rs: the outer envelope. serde_json and base64 are third-party
-- code, so their functions on the header are parameters.
pub mod Canonical
pub mod RoundTrip
use pinveil.Base.{
  ℕ, zero, suc, ◌+◌, ◌≡◌, ◌<◌, ◌≤◌, Text, Bool, true, false, not, ◌&&◌, ◌||◌, List, [], ◌∷◌, ◌++◌,
  Option, none, some, Result, ok, err, ok_or, ◌>>=◌, ◌>>◌, refuse_if, leb, ltb, nat_eq, text_eq,
  length, take, drop, All, codes, if◌then◌else◌,
}
use pinveil.Core.Bytes.{IsByte, to_be_bytes, split_u32}
use pinveil.Core.Protocol.{
  protocol_version, kdf_algorithm, encryption_algorithm, wrapping_algorithm, kdf_iterations_min,
  kdf_iterations_max, kdf_salt_len, iv_len, tag_len, wrapped_key_len, max_outer_header_bytes,
}

pub record OuterHeader : Type 0 where
  pub wrapped_content_key : Text
  pub kdf_salt : Text
  pub iv : Text
  pub kdf_iterations : ℕ

pub record OuterEnvelope : Type 0 where
  pub header : OuterHeader
  pub ciphertext : Text

pub data HeaderError : Type 0 where
  truncated header_too_large malformed not_canonical unsupported_version : HeaderError
  unsupported_algorithm kdf_iterations_out_of_range bad_field_size : HeaderError

pub record HeaderJson : Type 0 where
  pub wrapped_content_key : Text
  pub kdf_salt : Text
  pub iv : Text
  pub kdf_algorithm : Text
  pub kdf_iterations : ℕ
  pub encryption_algorithm : Text
  pub wrapping_algorithm : Text
  pub schema_version : ℕ

-- What the code calls of serde_json (a loose value, and the typed header) and of base64's STANDARD.
pub record Codecs : Type 1 where
  pub Value : Type 0
  pub parse_value : Text → Option Value
  pub is_object : Value → Bool
  pub get : Value → Text → Option Value
  pub as_u64 : Value → Option ℕ
  pub header_to_vec : HeaderJson → Text
  pub header_from_slice : Text → Option HeaderJson
  pub encode : Text → Text
  pub decode : Text → Option Text

unfoldable pub is_accepted_kdf_iterations : ℕ → Bool
is_accepted_kdf_iterations n = leb kdf_iterations_min n && leb n kdf_iterations_max

-- `[0; N]`
unfoldable pub zeros : ℕ → Text
zeros zero = []
zeros (suc n) = 0 ∷ zeros n

module _ (lib : Codecs) where
  unfoldable pub json_of : OuterHeader → HeaderJson
  json_of h = record {
    wrapped_content_key = lib.encode h.wrapped_content_key;
    kdf_salt = lib.encode h.kdf_salt;
    iv = lib.encode h.iv;
    kdf_algorithm = kdf_algorithm;
    kdf_iterations = h.kdf_iterations;
    encryption_algorithm = encryption_algorithm;
    wrapping_algorithm = wrapping_algorithm;
    schema_version = protocol_version;
  }

  unfoldable pub to_json : OuterHeader → Text
  unfolding json_of
  to_json h = lib.header_to_vec (json_of h)

  -- The length of a header fits `u32`: the round trip assumes that it is at most 1024.
  unfoldable pub encode_outer : OuterHeader → Text → Text
  encode_outer header ciphertext =
      let json = to_json header in to_be_bytes (length json) ++ (json ++ ciphertext)

  unfoldable pub decode_field : ℕ → Text → Result Text HeaderError
  decode_field n value = do
    bytes ← ok_or (lib.decode value) bad_field_size
    if nat_eq (length bytes) n then ok bytes else err bad_field_size

  -- The version, read on its own first.
  unfoldable pub check_version : Text → Result (Unit {0}) HeaderError
  check_version header_bytes = do
    loose ← ok_or (lib.parse_value header_bytes) malformed
    refuse_if (not (lib.is_object loose)) malformed
    version ← ok_or (lib.get loose (codes "schemaVersion")) malformed
    elim (lib.as_u64 version) [
      | none ↦ err unsupported_version
      | some v ↦ refuse_if (not (nat_eq v protocol_version)) unsupported_version
    ]

  -- The typed header, its labels, ranges and sizes.
  unfoldable pub header_of : HeaderJson → Result OuterHeader HeaderError
  unfolding decode_field is_accepted_kdf_iterations
  header_of json = do
    refuse_if
        (not (text_eq json.kdf_algorithm kdf_algorithm)
          || (not (text_eq json.encryption_algorithm encryption_algorithm)
              || not (text_eq json.wrapping_algorithm wrapping_algorithm)))
        unsupported_algorithm
    refuse_if (not (is_accepted_kdf_iterations json.kdf_iterations)) kdf_iterations_out_of_range
    wrapped ← decode_field wrapped_key_len json.wrapped_content_key
    salt ← decode_field kdf_salt_len json.kdf_salt
    iv ← decode_field iv_len json.iv
    ok (record {
      wrapped_content_key = wrapped;
      kdf_salt = salt;
      iv = iv;
      kdf_iterations = json.kdf_iterations;
    })

  -- Everything after the length prefix, on the two halves of the rest.
  unfoldable pub decode_parts : Text → Text → Result OuterEnvelope HeaderError
  unfolding check_version header_of
  decode_parts header_bytes ciphertext = do
    check_version header_bytes
    json ← ok_or (lib.header_from_slice header_bytes) malformed
    header ← header_of json
    refuse_if (not (text_eq (to_json header) header_bytes)) not_canonical
    refuse_if (ltb (length ciphertext) tag_len) truncated
    ok (record { header = header; ciphertext = ciphertext })

  unfoldable pub decode_outer : Text → Result OuterEnvelope HeaderError
  unfolding decode_parts
  decode_outer blob = do
    prefixed ← ok_or (split_u32 blob) truncated
    let header_len = prefixed.0
    let rest = prefixed.1
    refuse_if (ltb max_outer_header_bytes header_len) header_too_large
    refuse_if (ltb (length rest) header_len) truncated
    decode_parts (take header_len rest) (drop header_len rest)

  unfoldable pub zero_header : ℕ → OuterHeader
  unfolding zeros
  zero_header n = record {
    wrapped_content_key = zeros wrapped_key_len;
    kdf_salt = zeros kdf_salt_len;
    iv = zeros iv_len;
    kdf_iterations = n;
  }

  unfoldable pub blob_len : ℕ → ℕ → ℕ
  unfolding zero_header
  blob_len payload_len kdf_iterations =
      4 + length (to_json (zero_header kdf_iterations)) + payload_len + tag_len
