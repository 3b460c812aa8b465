-- ===== src/Core/Crypto/Laws.antt =====
-- crates/pinveil-core/src/crypto.rs: what is relied on of the cryptographic primitives.
use pinveil.Base.{◌+◌, ◌≡◌, Text, some, length}
use pinveil.Core.Crypto.{Primitives}
use pinveil.Core.Protocol.{content_key_len, tag_len, wrapped_key_len}

-- Unwrapping under the same key undoes wrapping, of a key to 40 bytes; decryption under the same
-- key, IV and associated data undoes encryption, which adds a tag.
pub record Invertible (prims : Primitives) : Type 0 where
  pub unwrap_wrap :
      (kek key : Text)
      → length key ≡ content_key_len
      → prims.unwrap_key kek (prims.wrap_key kek key) ≡ some key
  pub length_wrap :
      (kek key : Text)
      → length key ≡ content_key_len
      → length (prims.wrap_key kek key) ≡ wrapped_key_len
  pub decrypt_encrypt :
      (key iv data_ plain : Text)
      → prims.decrypt key iv data_ (prims.encrypt key iv data_ plain) ≡ some plain
  pub length_encrypt :
      (key iv data_ plain : Text)
      → length (prims.encrypt key iv data_ plain) ≡ length plain + tag_len
