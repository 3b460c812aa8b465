-- ===== src/Core/Payload.antt =====
-- crates/pinveil-core/src/payload.rs: the inner payload. serde_json's functions on the manifest
-- are a parameter. A Rust string is its bytes.
pub mod Shape
pub mod RoundTrip
pub mod Canonical
use pinveil.Base.{
  ℕ, ◌+◌, ◌-◌, ◌^◌, Text, Bool, true, false, ◌&&◌, ◌||◌, not, min, List, [], ◌∷◌, ◌++◌, map, Option,
  none, some, Result, ok, err, ok_or, ◌>>=◌, ◌>>◌, refuse_if, leb, ltb, nat_eq, text_eq, length,
  take, drop, if◌then◌else◌,
}
use pinveil.Core.Bytes.{to_be_bytes, split_u32, is_utf8}
use pinveil.Core.Protocol.{
  max_files_ceiling, max_manifest_bytes_ceiling, max_name_bytes, max_mime_type_bytes,
}

abbrev pub max_declared_length : ℕ
max_declared_length = 2 ^ 53 - 1

pub record FileEntry : Type 0 where
  pub name : Text
  pub mime_type : Text
  pub data_ : Text

pub record Payload : Type 0 where
  pub text : Option Text
  pub files : List FileEntry

pub record CreationLimits : Type 0 where
  pub max_files : ℕ
  pub max_manifest_bytes : ℕ

abbrev pub ceilings : CreationLimits
ceilings = record { max_files = max_files_ceiling; max_manifest_bytes = max_manifest_bytes_ceiling }

-- `CreationLimits::new`
unfoldable pub limits_new : ℕ → ℕ → Option CreationLimits
limits_new max_files max_manifest_bytes =
    if (leb 1 max_files && leb max_files max_files_ceiling)
      && (leb 1 max_manifest_bytes && leb max_manifest_bytes max_manifest_bytes_ceiling)
    then some (record { max_files = max_files; max_manifest_bytes = max_manifest_bytes })
    else none

pub data PayloadError : Type 0 where
  empty too_many_files manifest_too_large bad_name bad_mime_type : PayloadError
  truncated malformed not_canonical length_mismatch invalid_text : PayloadError

pub record FileJson : Type 0 where
  pub name : Text
  pub mime_type : Text
  pub byte_length : ℕ

-- `text` holds the byte length of a `TextJson`.
pub record ManifestJson : Type 0 where
  pub text : Option ℕ
  pub files : List FileJson

-- serde_json's `to_vec` and `from_slice` on the manifest.
pub record Manifests : Type 0 where
  pub to_vec : ManifestJson → Text
  pub from_slice : Text → Option ManifestJson

pub record FileMeta : Type 0 where
  pub name : Text
  pub mime_type : Text
  pub byte_length : ℕ

unfoldable pub meta_of : FileEntry → FileMeta
meta_of file = record {
  name = file.name;
  mime_type = file.mime_type;
  byte_length = length file.data_;
}

unfoldable pub metas_of : Payload → List FileMeta
metas_of payload = map meta_of payload.files

unfoldable pub json_of_meta : FileMeta → FileJson
json_of_meta file = record {
  name = file.name;
  mime_type = file.mime_type;
  byte_length = file.byte_length;
}

unfoldable pub length_of : Option Text → Option ℕ
length_of none = none
length_of (some text) = some (length text)

unfoldable pub manifest_of : Option Text → List FileMeta → ManifestJson
unfolding length_of
manifest_of text files = record { text = length_of text; files = map json_of_meta files }

unfoldable pub has_nothing : Option Text → List FileMeta → Bool
has_nothing none [] = true
has_nothing (some []) [] = true
has_nothing _ _ = false

unfoldable pub check_files : List FileMeta → Result (Unit {0}) PayloadError
check_files [] = ok tt
check_files (file ∷ files) = do
  refuse_if (not (leb 1 (length file.name) && leb (length file.name) max_name_bytes)) bad_name
  refuse_if (not (leb 1 (length file.mime_type) && leb (length file.mime_type) max_mime_type_bytes))
      bad_mime_type
  check_files files

unfoldable pub check_entries : Option Text → List FileMeta → Result (Unit {0}) PayloadError
unfolding has_nothing check_files
check_entries text files = do refuse_if (has_nothing text files) empty; check_files files

-- `text.map_or(0, |t| t.len())` of the measure; the bytes that `encode_payload` appends.
unfoldable pub text_len : Option Text → ℕ
text_len none = 0
text_len (some text) = length text

unfoldable pub text_bytes : Option Text → Text
text_bytes none = []
text_bytes (some text) = text

unfoldable pub file_bytes : List FileEntry → Text
file_bytes [] = []
file_bytes (file ∷ files) = file.data_ ++ file_bytes files

unfoldable pub saturating_sum : ℕ → List FileMeta → ℕ
saturating_sum sum [] = sum
saturating_sum sum (file ∷ files) = saturating_sum (min (sum + file.byte_length) (2 ^ 64 - 1)) files

unfoldable pub sum_lengths : ℕ → List FileJson → Result ℕ PayloadError
sum_lengths total [] = ok total
sum_lengths total (file ∷ files) = do
  refuse_if (ltb max_declared_length file.byte_length) malformed
  refuse_if (not (ltb (total + file.byte_length) (2 ^ 64))) length_mismatch
  sum_lengths (total + file.byte_length) files

-- The sum of every declared length; that of the text is the first of the chain.
unfoldable pub total_length : ManifestJson → Result ℕ PayloadError
unfolding sum_lengths
total_length manifest = elim manifest.text [
  | none ↦ sum_lengths 0 manifest.files
  | some n ↦ refuse_if (ltb max_declared_length n) malformed >> sum_lengths n manifest.files
]

unfoldable pub split_text : Option ℕ → Text → Result (Option Text × Text) PayloadError
split_text none body = ok (none, body)
split_text (some n) body =
    if is_utf8 (take n body) then ok (some (take n body), drop n body) else err invalid_text

-- `split_at` panics beyond the end; the sum of the lengths is the body's by then.
unfoldable pub split_files : List FileJson → Text → List FileEntry
split_files [] body = []
split_files (file ∷ files) body =
    record { name = file.name; mime_type = file.mime_type; data_ = take file.byte_length body }
    ∷ split_files files (drop file.byte_length body)

module _ (lib : Manifests) where
  unfoldable pub prepare : Option Text → List FileMeta → CreationLimits → Result Text PayloadError
  unfolding check_entries manifest_of
  prepare text files limits = do
    check_entries text files
    refuse_if (ltb limits.max_files (length files)) too_many_files
    let manifest = lib.to_vec (manifest_of text files)
    refuse_if (ltb limits.max_manifest_bytes (length manifest)) manifest_too_large
    ok manifest

  unfoldable pub measure_payload :
      Option Text → List FileMeta → CreationLimits → Result ℕ PayloadError
  unfolding prepare text_len saturating_sum
  measure_payload text files limits = do
    manifest ← prepare text files limits
    ok (saturating_sum (4 + length manifest + text_len text) files)

  unfoldable pub encode_payload : Payload → CreationLimits → Result Text PayloadError
  unfolding prepare metas_of text_bytes file_bytes
  encode_payload payload limits = do
    manifest ← prepare payload.text (metas_of payload) limits
    ok (
        to_be_bytes (length manifest)
        ++ (manifest ++ (text_bytes payload.text ++ file_bytes payload.files)))

  -- From the manifest on: its lengths, the split of the body, and the canonical form.
  unfoldable pub decode_body : Text → ManifestJson → Text → Result Payload PayloadError
  unfolding total_length split_text split_files check_entries metas_of manifest_of
  decode_body manifest_bytes manifest body = do
    refuse_if (ltb max_files_ceiling (length manifest.files)) too_many_files
    total ← total_length manifest
    refuse_if (not (nat_eq total (length body))) length_mismatch
    split ← split_text manifest.text body
    let payload : Payload = record { text = split.0; files = split_files manifest.files split.1 }
    check_entries payload.text (metas_of payload)
    refuse_if
        (not (text_eq (lib.to_vec (manifest_of payload.text (metas_of payload))) manifest_bytes))
        not_canonical
    ok payload

  unfoldable pub decode_payload : Text → Result Payload PayloadError
  unfolding decode_body
  decode_payload bytes = do
    prefixed ← ok_or (split_u32 bytes) truncated
    let manifest_len = prefixed.0
    let rest = prefixed.1
    refuse_if (ltb max_manifest_bytes_ceiling manifest_len) manifest_too_large
    refuse_if (ltb (length rest) manifest_len) truncated
    manifest ← ok_or (lib.from_slice (take manifest_len rest)) malformed
    decode_body (take manifest_len rest) manifest (drop manifest_len rest)
