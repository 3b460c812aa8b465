-- ===== src/Core/Crypto/RoundTrip.antt =====
-- crates/pinveil-core/src/crypto.rs: what is sealed opens under the same passphrase and PIN.
use pinveil.Base.{
  ℕ, ◌≡◌, ◌≤◌, refl, sym, subst, ◌∙◌, ap, Text, true, not, some, Result, ok, err, length,
  length-take, take, arith, bind_ok, refuse_if_ok, ok_injective,
}
use pinveil.Core.Entropy.{Source, fill}
use pinveil.Core.Envelope.{Codecs, OuterEnvelope, decode_outer, to_json, is_accepted_kdf_iterations}
use pinveil.Core.Envelope.RoundTrip.{Fits, Reads, decode_outer-encode_outer}
use pinveil.Core.Generate.{is_valid_pin}
use pinveil.Core.Payload.{
  Manifests, Payload, CreationLimits, limits_new, manifest_of, metas_of, encode_payload,
  max_declared_length,
}
use pinveil.Core.Payload.Shape.{TextIsUtf8}
use pinveil.Core.Payload.RoundTrip.{body_len, decode_payload-encode_payload}
use pinveil.Core.Protocol.{content_key_len, iv_len, kdf_salt_len, max_outer_header_bytes}
use pinveil.Core.Crypto.{
  Primitives, SealError, SealMaterial, draw, map_err, derive_kek, sealed_header, seal_with, seal,
  decrypt_envelope, open_blob, open_payload,
}
use pinveil.Core.Crypto.Laws.{Invertible}

fill-length :
    (n : ℕ) (src rest : Source) (bytes : Text) → fill n src ≡ ok (bytes, rest) → length bytes ≡ n
unfolding fill
fill-length n src rest bytes h =
    let size = length-take n src in
    let same : bytes ≡ take n src = ground arith in rw same (ground (arith, size, h))

-- The sizes of what is drawn.
record Sized (m : SealMaterial) : Type 0 where
  salt : length m.kdf_salt ≡ kdf_salt_len
  iv : length m.iv ≡ iv_len
  key : length m.content_key ≡ content_key_len

draw-Sized : (src rest : Source) (m : SealMaterial) → draw src ≡ ok (m, rest) → Sized m
unfolding draw
draw-Sized src rest m h =
    let s1 = bind_ok (fill kdf_salt_len src) _ (m, rest) h in
    let s2 = bind_ok (fill iv_len s1.0.1) _ (m, rest) s1.1.1 in
    let s3 = bind_ok (fill content_key_len s2.0.1) _ (m, rest) s2.1.1 in
    subst Sized (ap (λ p. p.0) (ok_injective _ _ s3.1.1)) (record {
      salt = fill-length _ _ _ _ s1.1.0;
      iv = fill-length _ _ _ _ s2.1.0;
      key = fill-length _ _ _ _ s3.1.0;
    })

map_err-ok : {A E F : Type 0} (f : E → F) (r : Result A E) (a : A) → map_err f r ≡ ok a → r ≡ ok a
map_err-ok f (ok x) a h = ap ok (ok_injective x a h)
map_err-ok f (err e) a h = ground arith

module _ (prims : Primitives) (codecs : Codecs) (laws : Invertible prims) where
  -- What a blob that was sealed is made of.
  record IsSealed (plain passphrase pin : Text) (iterations : ℕ) (src : Source) (blob : Text)
      (rest : Source) : Type 0 where
    pub material : SealMaterial
    pub drawn : draw src ≡ ok (material, rest)
    pub valid : is_valid_pin pin ≡ true
    pub accepted : is_accepted_kdf_iterations iterations ≡ true
    pub made : seal_with prims codecs plain passphrase pin iterations material ≡ blob

  seal-IsSealed :
      (plain passphrase pin : Text) (iterations : ℕ) (src rest : Source) (blob : Text)
      → seal prims codecs plain passphrase pin iterations src ≡ ok (blob, rest)
      → IsSealed plain passphrase pin iterations src blob rest
  unfolding seal
  seal-IsSealed plain passphrase pin iterations src rest blob h =
      let s1 = refuse_if_ok (not (is_valid_pin pin)) SealError.invalid_pin _ (blob, rest) h in
      let s2 =
        refuse_if_ok (not (is_accepted_kdf_iterations iterations))
          SealError.kdf_iterations_out_of_range _ (blob, rest) s1.1 in
      let s3 = bind_ok (map_err SealError.entropy (draw src)) _ (blob, rest) s2.1 in
      let both = ok_injective _ _ s3.1.1 in
      record {
        material = s3.0.0;
        drawn = map_err-ok _ (draw src) _ s3.1.0 ∙ ap (λ r. ok (s3.0.0, r)) (ap (λ p. p.1) both);
        valid = ground (arith, s1.0);
        accepted = ground (arith, s2.0);
        made = ap (λ p. p.0) both;
      }

  opened :
      (blob passphrase pin : Text) (env : OuterEnvelope)
      → decode_outer codecs blob ≡ ok env
      → is_valid_pin pin ≡ true
      → open_blob prims codecs blob passphrase pin
        ≡ decrypt_envelope prims codecs env passphrase pin
  unfolding open_blob
  opened blob passphrase pin env decoded valid = rw (decoded, valid) refl

  unfoldable sealed_text : Text → Text → Text → ℕ → SealMaterial → Text
  sealed_text plain passphrase pin iterations m =
      prims.encrypt m.content_key m.iv
        (sealed_header prims codecs passphrase pin iterations m).wrapped_content_key plain

  decrypted :
      (plain passphrase pin : Text) (iterations : ℕ) (m : SealMaterial)
      → Sized m
      → decrypt_envelope prims codecs
          (record {
            header = sealed_header prims codecs passphrase pin iterations m;
            ciphertext = sealed_text plain passphrase pin iterations m;
          })
          passphrase
          pin
        ≡ ok plain
  unfolding decrypt_envelope sealed_header sealed_text
  decrypted plain passphrase pin iterations m sized =
      let kek = derive_kek prims codecs passphrase pin m.kdf_salt iterations in
      rw
        (
          laws.unwrap_wrap kek m.content_key sized.key,
          laws.decrypt_encrypt m.content_key m.iv (prims.wrap_key kek m.content_key) plain,
        )
        refl

  header-Fits :
      (passphrase pin : Text) (iterations : ℕ) (m : SealMaterial)
      → Sized m
      → is_accepted_kdf_iterations iterations ≡ true
      → length (to_json codecs (sealed_header prims codecs passphrase pin iterations m))
        ≤ max_outer_header_bytes
      → Fits codecs (sealed_header prims codecs passphrase pin iterations m)
  unfolding sealed_header
  header-Fits passphrase pin iterations m sized accepted short = record {
    wrapped = laws.length_wrap _ m.content_key sized.key;
    salt = sized.salt;
    nonce = sized.iv;
    iterations = accepted;
    short = short;
  }

  open_blob-seal_with :
      (plain passphrase pin : Text) (iterations : ℕ) (m : SealMaterial)
      → Sized m
      → is_valid_pin pin ≡ true
      → is_accepted_kdf_iterations iterations ≡ true
      → Reads codecs (sealed_header prims codecs passphrase pin iterations m)
      → length (to_json codecs (sealed_header prims codecs passphrase pin iterations m))
        ≤ max_outer_header_bytes
      → open_blob prims codecs
          (seal_with prims codecs plain passphrase pin iterations m)
          passphrase
          pin
        ≡ ok plain
  unfolding seal_with sealed_text
  open_blob-seal_with plain passphrase pin iterations m sized valid accepted reads short =
      let text = sealed_text plain passphrase pin iterations m in
      let header = sealed_header prims codecs passphrase pin iterations m in
      let size = laws.length_encrypt m.content_key m.iv header.wrapped_content_key plain in
      opened _ passphrase pin _
        (decode_outer-encode_outer codecs header
          (header-Fits passphrase pin iterations m sized accepted short) reads text (omega arith))
        valid
      ∙ decrypted plain passphrase pin iterations m sized

  -- A sealed message opens, under the passphrase and the PIN it was sealed with, to the payload
  -- bytes it was sealed from, where the primitives invert and the header's JSON reads back.
  pub open_blob-seal :
      (plain passphrase pin : Text) (iterations : ℕ) (src rest : Source) (m : SealMaterial)
      (blob : Text)
      → draw src ≡ ok (m, rest)
      → Reads codecs (sealed_header prims codecs passphrase pin iterations m)
      → length (to_json codecs (sealed_header prims codecs passphrase pin iterations m))
        ≤ max_outer_header_bytes
      → seal prims codecs plain passphrase pin iterations src ≡ ok (blob, rest)
      → open_blob prims codecs blob passphrase pin ≡ ok plain
  open_blob-seal plain passphrase pin iterations src rest m blob drawn reads short h =
      let sealed = seal-IsSealed plain passphrase pin iterations src rest blob h in
      let same : sealed.material ≡ m =
        ap (λ p. p.0) (ok_injective _ _ (sym sealed.drawn ∙ drawn)) in
      subst (λ blob. open_blob prims codecs blob passphrase pin ≡ ok plain)
        (sym (ap (seal_with prims codecs plain passphrase pin iterations) same) ∙ sealed.made)
        (open_blob-seal_with plain passphrase pin iterations m (draw-Sized src rest m drawn)
          sealed.valid sealed.accepted reads short)

  -- A payload that is encoded within limits of CreationLimits::new and sealed opens, under the
  -- same passphrase and PIN, to the same text and files, where its text is UTF-8, its text and
  -- files hold at most 2^53 - 1 bytes together, the primitives invert, the JSON of the header
  -- and of the manifest reads back and that of the header has at most 1024 bytes.
  pub open_payload-seal :
      (manifests : Manifests) (payload : Payload) (a b : ℕ) (limits : CreationLimits)
      (plain passphrase pin : Text) (iterations : ℕ) (src rest : Source) (m : SealMaterial)
      (blob : Text)
      → limits_new a b ≡ some limits
      → TextIsUtf8 payload.text
      → body_len payload ≤ max_declared_length
      → manifests.from_slice (manifests.to_vec (manifest_of payload.text (metas_of payload)))
        ≡ some (manifest_of payload.text (metas_of payload))
      → draw src ≡ ok (m, rest)
      → Reads codecs (sealed_header prims codecs passphrase pin iterations m)
      → length (to_json codecs (sealed_header prims codecs passphrase pin iterations m))
        ≤ max_outer_header_bytes
      → encode_payload manifests payload limits ≡ ok plain
      → seal prims codecs plain passphrase pin iterations src ≡ ok (blob, rest)
      → open_payload prims codecs manifests blob passphrase pin ≡ ok payload
  unfolding open_payload
  open_payload-seal manifests payload a b limits plain passphrase pin iterations src rest m blob
        valid utf8 sized reads drawn header_reads short encoded sealed =
      rw
        (
          open_blob-seal plain passphrase pin iterations src rest m blob drawn header_reads short
              sealed,
          decode_payload-encode_payload manifests payload a b limits plain valid utf8 sized reads
              encoded,
        )
        refl
