-- ===== src/Store/Sqlite/Opening/Adoption.antt =====
-- crates/pinveil-server/src/sqlite.rs: which database files `prepare` accepts, and under which pepper.
use pinveil.Base.{
  ℕ, ◌*◌, ◌/◌, ◌%◌, ◌<◌, ◌≡◌, ◌≢◌, refl, inl, inr, Text, true, not, Option, none, some, Result, ok,
  err, refuse_if_ok, List, [], ◌∷◌, ◌++◌, length, all, All, codes, if◌then◌else◌, text_eq,
  text_eq_iff, text_equality, Bool-cases, Result-cases, arith,
}
use pinveil.Base.Dict
use pinveil.Store.Sqlite.Opening.{
  SchemaObject, StoreFile, OpenError, incompatible, pepper_mismatch, io, unreadable, other_version,
  other_schema, hex_digit, to_hex, is_ascii_hexdigit, object_eq, objects_eq, Library, Calls,
  pepper_fingerprint, initialized, meta_value, is_version, check_pepper, check_existing,
  prepare_listed, prepare, schema_version,
}

object_eq_sound : (a b : SchemaObject) → object_eq a b ≡ true → a ≡ b
unfolding object_eq
object_eq_sound a b h =
    ground (arith, text_eq_iff a.kind b.kind, text_eq_iff a.name b.name, text_eq_iff a.sql b.sql)

objects_eq_sound : (a b : List SchemaObject) → objects_eq a b ≡ true → a ≡ b
unfolding objects_eq
objects_eq_sound [] [] h = refl
objects_eq_sound [] (b ∷ bs) h = ground arith
objects_eq_sound (a ∷ more) [] h = ground arith
objects_eq_sound (a ∷ more) (b ∷ bs) h =
    ground (arith, object_eq_sound a b, objects_eq_sound more bs)

objects_eq_refl : (a : List SchemaObject) → objects_eq a a ≡ true
unfolding objects_eq object_eq
objects_eq_refl [] = refl
objects_eq_refl (a ∷ more) = ground (
  arith,
  text_eq_iff a.kind a.kind,
  text_eq_iff a.name a.name,
  text_eq_iff a.sql a.sql,
  objects_eq_refl more,
)

module _ (lib : Library) where
  -- An existing store that may be used: a store of this version, with this schema, made with this
  -- pepper.
  pub record IsOurs (pepper : Text) (file : StoreFile) : Type 0 where
    pub version : Dict.get (codes "schema_version") file.settings ≡ some schema_version
    pub schema : file.objects ≡ lib.schema
    pub fingerprint :
        Dict.get (codes "pepper_fingerprint") file.settings ≡ some (pepper_fingerprint lib pepper)

  -- How `prepare` can end.
  pub data Prepared (pepper : Text) (file : StoreFile)
      : Result (Unit {0}) OpenError × StoreFile → Type 0 where
    created : file.objects ≡ [] → Prepared pepper file (ok tt, initialized lib pepper)
    adopted : IsOurs pepper file → Prepared pepper file (ok tt, file)
    refused : (e : OpenError) → Prepared pepper file (err e, file)

  check_pepper_sound :
      (fingerprint : Text) (stored : Option Text)
      → check_pepper lib fingerprint stored ≡ ok tt
      → stored ≡ some fingerprint
  unfolding check_pepper
  check_pepper_sound fingerprint none h = ground arith
  check_pepper_sound fingerprint (some stored) h = ground (arith, text_eq_iff stored fingerprint)

  meta_value_sound :
      (calls : Calls) (file : StoreFile) (key value : Text)
      → meta_value lib calls file key ≡ some value
      → Dict.get key file.settings ≡ some value
  unfolding meta_value
  meta_value_sound calls file key value h = ground arith

  is_version_sound : (v : Option Text) → is_version lib v ≡ true → v ≡ some schema_version
  unfolding is_version
  is_version_sound none h = ground arith
  is_version_sound (some v) h = ground (arith, text_eq_iff v schema_version)

  check_existing-IsOurs :
      (pepper : Text) (calls : Calls) (file : StoreFile)
      → check_existing lib pepper calls file ≡ ok tt
      → IsOurs pepper file
  unfolding check_existing
  check_existing-IsOurs pepper calls file h =
      let version = meta_value lib calls file (codes "schema_version") in
      let a = refuse_if_ok (not (is_version lib version)) (incompatible other_version) _ tt h in
      let b = refuse_if_ok (not calls.rebuilt) io _ tt a.1 in
      let same = objects_eq file.objects lib.schema in
      let c = refuse_if_ok (not same) (incompatible other_schema) _ tt b.1 in
      record {
        version = meta_value_sound calls file (codes "schema_version") schema_version (
            is_version_sound (meta_value lib calls file (codes "schema_version"))
              (ground (arith, a.0)));
        schema = objects_eq_sound file.objects lib.schema (ground (arith, c.0));
        fingerprint =
            meta_value_sound calls file (codes "pepper_fingerprint") (pepper_fingerprint lib pepper)
              (check_pepper_sound _ _ c.1);
      }

  prepare_listed-Prepared :
      (pepper : Text) (calls : Calls) (objects : List SchemaObject) (settings : Dict.Dict Text Text)
      → Prepared pepper
          (record { objects = objects; settings = settings })
          (prepare_listed lib pepper calls (record { objects = objects; settings = settings }))
  unfolding prepare_listed
  prepare_listed-Prepared pepper calls [] settings = elim (Bool-cases calls.created) [
    | inl c ↦ rw c (created refl)
    | inr c ↦ rw c (refused io)
  ]
  prepare_listed-Prepared pepper calls (o ∷ os) settings =
      let file : StoreFile = record { objects = o ∷ os; settings = settings } in
      elim (Result-cases (check_existing lib pepper calls file)) [
        | inl (unit, h) ↦ rw h (adopted (check_existing-IsOurs pepper calls file h))
        | inr (e, h) ↦ rw h (refused e)
      ]

  -- prepare succeeds only on an empty database, which it initializes with the fingerprint of
  -- this pepper, or on a store of this version, schema and pepper, which it leaves as it is;
  -- every refusal leaves the file as it was.
  pub prepare-Prepared :
      (pepper : Text) (calls : Calls) (file : StoreFile)
      → Prepared pepper file (prepare lib pepper calls file)
  unfolding prepare
  prepare-Prepared pepper calls file = elim (Bool-cases calls.listed) [
    | inr h ↦ rw h (refused (incompatible unreadable))
    | inl h ↦ rw h (prepare_listed-Prepared pepper calls file.objects file.settings)
  ]

  -- A digest of 32 bytes.
  pub record IsDigest (digest : Text) : Type 0 where
    pub long : length digest ≡ 32
    pub bytes : All (λ b. b < 256) digest

  length-to_hex : (bs : Text) → length (to_hex bs) ≡ 2 * length bs
  unfolding to_hex
  length-to_hex [] = refl
  length-to_hex (b ∷ bs) = omega (arith, length-to_hex bs)

  hex_digit-hexdigit : (n : ℕ) → n < 16 → is_ascii_hexdigit (hex_digit n) ≡ true
  unfolding hex_digit is_ascii_hexdigit
  hex_digit-hexdigit n h = ground arith

  to_hex-hexdigits : (bs : Text) → All (λ b. b < 256) bs → all is_ascii_hexdigit (to_hex bs) ≡ true
  unfolding to_hex
  to_hex-hexdigits [] h = refl
  to_hex-hexdigits (b ∷ bs) h = rw (
    hex_digit-hexdigit (b / 16) (omega (arith, h.0)),
    hex_digit-hexdigit (b % 16) (omega arith),
    to_hex-hexdigits bs h.1,
  )

  check_pepper_hex :
      (fingerprint stored : Text)
      → length stored ≡ 64
      → all is_ascii_hexdigit stored ≡ true
      → check_pepper lib fingerprint (some stored)
        ≡ (if text_eq stored fingerprint then ok tt else err pepper_mismatch)
  unfolding check_pepper
  check_pepper_hex fingerprint stored long hex = ground arith

  -- Every call of `prepare` succeeds.
  abbrev pub all_calls : Calls
  all_calls = record { listed = true; created = true; read = λ _. true; rebuilt = true }

  abbrev pub verdict : Text → Text → Result (Unit {0}) OpenError
  verdict p q =
      if text_eq (pepper_fingerprint lib p) (pepper_fingerprint lib q)
      then ok tt
      else err pepper_mismatch

  check_existing-initialized :
      (p q : Text)
      → IsDigest (lib.sha256 (codes "pinveil store pepper fingerprint v1" ++ 0 ∷ p))
      → check_existing lib q all_calls (initialized lib p) ≡ verdict p q
  unfolding check_existing initialized meta_value is_version Dict.get text_eq pepper_fingerprint
  check_existing-initialized p q d = rw (objects_eq_refl lib.schema) (
      check_pepper_hex (pepper_fingerprint lib q) (pepper_fingerprint lib p)
        (omega (
          arith,
          d.long,
          length-to_hex (lib.sha256 (codes "pinveil store pepper fingerprint v1" ++ 0 ∷ p)),
        ))
        (to_hex-hexdigits _ d.bytes))

  prepare_listed_full :
      (q : Text) (calls : Calls) (objects : List SchemaObject) (settings : Dict.Dict Text Text)
      → objects ≢ []
      → let file : StoreFile = record { objects = objects; settings = settings } in
        prepare_listed lib q calls file ≡ (check_existing lib q calls file, file)
  unfolding prepare_listed
  prepare_listed_full q calls [] settings full = absurd (full refl)
  prepare_listed_full q calls (o ∷ os) settings full = refl

  -- A store that was created with one pepper opens with another, when every call succeeds,
  -- exactly if both have the same fingerprint; else it is refused as a mismatch, not as damaged,
  -- and in both cases nothing is written, for a digest of 32 bytes and a schema with objects.
  pub prepare-initialized :
      (p q : Text)
      → ((text : Text) → IsDigest (lib.sha256 text))
      → lib.schema ≢ []
      → prepare lib q all_calls (initialized lib p) ≡ (verdict p q, initialized lib p)
  unfolding prepare initialized
  prepare-initialized p q digest schema = rw (
    prepare_listed_full q all_calls lib.schema (initialized lib p).settings schema,
    check_existing-initialized p q (digest _),
  )
