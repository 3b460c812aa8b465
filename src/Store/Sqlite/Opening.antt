-- ===== src/Store/Sqlite/Opening.antt =====
-- crates/pinveil-server/src/sqlite.rs: opening a store, `SqliteStore::open` and `prepare`. SHA-256,
-- the file system and SQLite are parameters and readings: what the calls answered.
pub mod Adoption
use pinveil.Base.{
  ℕ, ◌+◌, ◌-◌, ◌/◌, ◌%◌, ◌<◌, ◌≡◌, refl, ◌⊎◌, inl, inr, Text, Bool, true, false, not, ◌&&◌, ◌||◌,
  Option, none, some, Result, ok, err, ◌>>=◌, ◌>>◌, refuse_if, List, [], ◌∷◌, ◌++◌, map, ltb, leb,
  nat_eq, length, all, All, codes, if◌then◌else◌, text_eq, text_eq_iff, text_equality, Bool-cases,
  arith,
}
use pinveil.Base.Strings.{eq_ignore_ascii_case}
use pinveil.Base.Dict
use pinveil.Base.Dict.{Dict}

abbrev pub schema_version : Text
schema_version = codes "1"

-- A row of `schema_objects`: type, name, and the SQL with its whitespace normalized.
pub record SchemaObject : Type 0 where
  pub kind : Text
  pub name : Text
  pub sql : Text

-- What a database file holds before the messages: its schema and the table `meta`.
pub record StoreFile : Type 0 where
  pub objects : List SchemaObject
  pub settings : Dict Text Text

pub data Reason : Type 0 where
  unreadable other_version other_schema damaged_fingerprint : Reason

pub data OpenError : Type 0 where
  locked : OpenError
  incompatible : Reason → OpenError
  pepper_mismatch : OpenError
  io : OpenError

unfoldable pub hex_digit : ℕ → ℕ
hex_digit n = if ltb n 10 then n + b'0' else n - 10 + b'a'

-- `{b:02x}` of each byte.
unfoldable pub to_hex : Text → Text
unfolding hex_digit
to_hex [] = []
to_hex (b ∷ bs) = hex_digit (b / 16) ∷ hex_digit (b % 16) ∷ to_hex bs

unfoldable pub is_ascii_hexdigit : ℕ → Bool
is_ascii_hexdigit c =
    (leb b'0' c && leb c b'9') || (leb b'a' c && leb c b'f') || (leb b'A' c && leb c b'F')

unfoldable pub object_eq : SchemaObject → SchemaObject → Bool
object_eq a b = text_eq a.kind b.kind && text_eq a.name b.name && text_eq a.sql b.sql

unfoldable pub objects_eq : List SchemaObject → List SchemaObject → Bool
unfolding object_eq
objects_eq [] [] = true
objects_eq [] (b ∷ bs) = false
objects_eq (a ∷ rest_a) [] = false
objects_eq (a ∷ rest_a) (b ∷ bs) = object_eq a b && objects_eq rest_a bs

-- What SQLite and SHA-256 give: the digest, and the objects that the schema's SQL creates.
pub record Library : Type 0 where
  pub sha256 : Text → Text
  pub schema : List SchemaObject

-- Which calls of `prepare` succeed.
pub record Calls : Type 0 where
  pub listed : Bool
  pub created : Bool
  pub read : Text → Bool
  pub rebuilt : Bool

module _ (lib : Library) where
  unfoldable pub pepper_fingerprint : Text → Text
  unfolding to_hex
  pepper_fingerprint pepper =
      to_hex (lib.sha256 (codes "pinveil store pepper fingerprint v1" ++ 0 ∷ pepper))

  -- The batch of one transaction that initializes an empty database.
  unfoldable pub initialized : Text → StoreFile
  unfolding pepper_fingerprint
  initialized pepper = record {
    objects = lib.schema;
    settings =
        (codes "pepper_fingerprint", pepper_fingerprint pepper)
        ∷ (codes "schema_version", schema_version)
        ∷ [];
  }

  unfoldable pub meta_value : Calls → StoreFile → Text → Option Text
  meta_value calls file key = if calls.read key then Dict.get key file.settings else none

  unfoldable pub is_version : Option Text → Bool
  is_version none = false
  is_version (some v) = text_eq v schema_version

  unfoldable pub check_pepper : Text → Option Text → Result (Unit {0}) OpenError
  unfolding is_ascii_hexdigit
  check_pepper fingerprint none = err (incompatible damaged_fingerprint)
  check_pepper fingerprint (some stored) =
      if text_eq stored fingerprint
      then ok tt
      else if nat_eq (length stored) 64 && all is_ascii_hexdigit stored
      then err pepper_mismatch
      else err (incompatible damaged_fingerprint)

  -- An existing store is checked, and nothing is filled in.
  unfoldable pub check_existing : Text → Calls → StoreFile → Result (Unit {0}) OpenError
  unfolding meta_value is_version objects_eq check_pepper pepper_fingerprint
  check_existing pepper calls file = do
    refuse_if (not (is_version (meta_value calls file (codes "schema_version"))))
        (incompatible other_version)
    refuse_if (not calls.rebuilt) io
    refuse_if (not (objects_eq file.objects lib.schema)) (incompatible other_schema)
    check_pepper (pepper_fingerprint pepper) (meta_value calls file (codes "pepper_fingerprint"))

  unfoldable pub prepare_listed : Text → Calls → StoreFile → Result (Unit {0}) OpenError × StoreFile
  unfolding check_existing initialized
  prepare_listed pepper calls file = elim file.objects [
    | [] ↦ if calls.created then (ok tt, initialized pepper) else (err io, file)
    | _ ∷ _ ↦ (check_existing pepper calls file, file)
  ]

  unfoldable pub prepare : Text → Calls → StoreFile → Result (Unit {0}) OpenError × StoreFile
  unfolding prepare_listed
  prepare pepper calls file =
      if calls.listed
      then prepare_listed pepper calls file
      else (err (incompatible unreadable), file)

-- What `open` learns before `prepare`: whether the path resolves, the lock file opens, the lock is
-- free, the database opens, and what the pragmas answer.
pub record Environment : Type 0 where
  pub resolved : Bool
  pub lock_opened : Bool
  pub lock_free : Bool
  pub connected : Bool
  pub busy_timeout_set : Bool
  pub journal_mode : Option Text
  pub batch_ran : Bool
  pub synchronous : Option Text
  pub calls : Calls

abbrev pub pragma : Option Text → Result Text OpenError
pragma none = err io
pragma (some answer) = ok answer

unfoldable pub connect : Environment → Result (Unit {0}) OpenError
unfolding eq_ignore_ascii_case
connect env = do
  refuse_if (not env.resolved) io
  refuse_if (not env.lock_opened) io
  refuse_if (not env.lock_free) locked
  refuse_if (not env.connected) io
  refuse_if (not env.busy_timeout_set) io
  mode ← pragma env.journal_mode
  refuse_if (not (eq_ignore_ascii_case mode (codes "wal"))) io
  refuse_if (not env.batch_ran) io
  level ← pragma env.synchronous
  refuse_if (not (text_eq level (codes "2"))) io
  ok tt

unfoldable pub open_store :
    Library → Text → Environment → StoreFile → Result (Unit {0}) OpenError × StoreFile
unfolding connect prepare
open_store lib pepper env file = elim (connect env) [
  | err e ↦ (err e, file)
  | ok _ ↦ prepare lib pepper env.calls file
]
