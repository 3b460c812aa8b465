-- ===== src/Core/Crypto.antt =====
-- crates/pinveil-core/src/crypto.rs: sealing and opening. PBKDF2, AES-KW and AES-GCM are
-- third-party code, so they are parameters.
pub mod Laws
pub mod RoundTrip
use pinveil.Base.{
  ℕ, Text, not, Option, none, some, ◌++◌, Result, ok, err, ok_or, ◌>>=◌, ◌>>◌, refuse_if,
}
use pinveil.Core.Entropy.{Source, EntropyError, fill}
use pinveil.Core.Envelope.{
  Codecs, HeaderError, OuterHeader, OuterEnvelope, decode_outer, encode_outer,
  is_accepted_kdf_iterations,
}
use pinveil.Core.Generate.{is_valid_pin}
use pinveil.Core.Payload.{Manifests, Payload, PayloadError, decode_payload}
use pinveil.Core.Protocol.{content_key_len, iv_len, kdf_salt_len}

-- `pbkdf2_hmac` on the input, the salt and the iterations; `KwAes256` under a key; `Aes256Gcm`
-- under a key, an IV and associated data.
pub record Primitives : Type 0 where
  pub pbkdf2 : Text → Text → ℕ → Text
  pub wrap_key : Text → Text → Text
  pub unwrap_key : Text → Text → Option Text
  pub encrypt : Text → Text → Text → Text → Text
  pub decrypt : Text → Text → Text → Text → Option Text

pub data SealError : Type 0 where
  entropy : EntropyError → SealError
  invalid_pin kdf_iterations_out_of_range : SealError

pub data OpenError : Type 0 where
  header : HeaderError → OpenError
  invalid_pin decrypt : OpenError
  payload : PayloadError → OpenError

pub record SealMaterial : Type 0 where
  pub kdf_salt : Text
  pub iv : Text
  pub content_key : Text

unfoldable pub draw : Source → Result (SealMaterial × Source) EntropyError
unfolding fill
draw src = do
  salt ← fill kdf_salt_len src
  iv ← fill iv_len salt.1
  key ← fill content_key_len iv.1
  ok (record { kdf_salt = salt.0; iv = iv.0; content_key = key.0 }, key.1)

-- `map_err` of an error on its way out.
abbrev pub map_err {ℓ κ μ} :
    {A : Type ℓ} {E : Type κ} {F : Type μ} → (E → F) → Result A E → Result A F
map_err f (ok a) = ok a
map_err f (err e) = err (f e)

module _ (prims : Primitives) (codecs : Codecs) where
  unfoldable pub derive_kek : Text → Text → Text → ℕ → Text
  derive_kek passphrase pin salt iterations = prims.pbkdf2 (passphrase ++ pin) salt iterations

  -- The header of a sealed blob.
  unfoldable pub sealed_header : Text → Text → ℕ → SealMaterial → OuterHeader
  unfolding derive_kek
  sealed_header passphrase pin iterations m = record {
    wrapped_content_key =
        prims.wrap_key (derive_kek passphrase pin m.kdf_salt iterations) m.content_key;
    kdf_salt = m.kdf_salt;
    iv = m.iv;
    kdf_iterations = iterations;
  }

  unfoldable pub seal_with : Text → Text → Text → ℕ → SealMaterial → Text
  unfolding sealed_header
  seal_with payload_bytes passphrase pin iterations m =
      let header = sealed_header passphrase pin iterations m in
      encode_outer codecs header
        (prims.encrypt m.content_key m.iv header.wrapped_content_key payload_bytes)

  unfoldable pub seal : Text → Text → Text → ℕ → Source → Result (Text × Source) SealError
  unfolding draw seal_with
  seal payload_bytes passphrase pin iterations src = do
    refuse_if (not (is_valid_pin pin)) SealError.invalid_pin
    refuse_if (not (is_accepted_kdf_iterations iterations)) kdf_iterations_out_of_range
    drawn ← map_err entropy (draw src)
    ok (seal_with payload_bytes passphrase pin iterations drawn.0, drawn.1)

  -- What follows the checks, on a decoded envelope.
  unfoldable pub decrypt_envelope : OuterEnvelope → Text → Text → Result Text OpenError
  unfolding derive_kek
  decrypt_envelope envelope passphrase pin = do
    let header = envelope.header
    let kek = derive_kek passphrase pin header.kdf_salt header.kdf_iterations
    content_key ← ok_or (prims.unwrap_key kek header.wrapped_content_key) OpenError.decrypt
    ok_or (prims.decrypt content_key header.iv header.wrapped_content_key envelope.ciphertext)
        OpenError.decrypt

  unfoldable pub open_blob : Text → Text → Text → Result Text OpenError
  unfolding decrypt_envelope
  open_blob blob passphrase pin = do
    envelope ← map_err OpenError.header (decode_outer codecs blob)
    refuse_if (not (is_valid_pin pin)) OpenError.invalid_pin
    decrypt_envelope envelope passphrase pin

  unfoldable pub open_payload : Manifests → Text → Text → Text → Result Payload OpenError
  unfolding open_blob
  open_payload manifests blob passphrase pin = do
    plaintext ← open_blob blob passphrase pin
    map_err OpenError.payload (decode_payload manifests plaintext)
