-- ===== src/Config/Loading.antt =====
-- crates/pinveil-server/src/config.rs: where settings come from: the defaults, the config file, the
-- environment and the command line. Reading a file and parsing TOML are answers that the sources
-- hold, and Unicode's `to_lowercase` is one of their functions.
pub mod Precedence
use pinveil.Base.{
  ℕ, Text, Bool, true, false, List, [], ◌∷◌, ◌++◌, Option, none, some, Result, ok, err, ◌>>=◌, ◌>>◌,
  refuse_if, codes, nat_eq, any, if◌then◌else◌, text_eq, text_equality,
}
use pinveil.Base.Dict
use pinveil.Base.Dict.{Dict}
use pinveil.Base.Strings.{starts_with, split, trim}

-- The refusals, without their wording.
pub data LoadError : Type 0 where
  needs_value given_twice unknown_argument : LoadError
  unreadable_file invalid_toml not_a_section not_a_scalar not_flat : LoadError
  removed_setting unknown_setting : LoadError

abbrev pub Settings : Type 0
Settings = Dict Text Text

-- Defaults for every key. The key set is also the list of allowed keys.
abbrev pub defaults : Settings
defaults =
    (codes "server.listen", codes "0.0.0.0:8080")
    ∷ (codes "server.trusted_proxies", [])
    ∷ (codes "server.max_concurrent_uploads", codes "16")
    ∷ (codes "messages.min_ttl", codes "1m")
    ∷ (codes "messages.max_ttl", codes "24h")
    ∷ (codes "messages.default_ttl", codes "15m")
    ∷ (codes "messages.ttl_presets", codes "15m,30m,1h")
    ∷ (codes "messages.max_payload_bytes", codes "26214400")
    ∷ (codes "messages.max_files", codes "256")
    ∷ (codes "messages.max_manifest_bytes", codes "262144")
    ∷ (codes "messages.pbkdf2_iterations", codes "600000")
    ∷ (codes "message_id.template", codes "{word:3}-{digits:6}")
    ∷ (codes "message_id.min_bits", codes "32")
    ∷ (codes "store.mode", codes "memory")
    ∷ (codes "store.path", [])
    ∷ (codes "store.max_messages", codes "1000")
    ∷ (codes "store.max_bytes", codes "268435456")
    ∷ (codes "pin.pepper", [])
    ∷ (codes "pin.max_failed_attempts", codes "3")
    ∷ (codes "pin.argon2_iterations", codes "3")
    ∷ (codes "pin.argon2_memory_kib", codes "19456")
    ∷ (codes "pin.argon2_parallelism", codes "1")
    ∷ (codes "pin.max_concurrent_hashes", [])
    ∷ (codes "pin.max_hash_memory_bytes", codes "268435456")
    ∷ (codes "pin.max_queued_hashes", codes "64")
    ∷ (codes "rate_limit.window", codes "1m")
    ∷ (codes "rate_limit.create_per_window", codes "10")
    ∷ (codes "rate_limit.retrieve_per_window", codes "30")
    ∷ (codes "rate_limit.max_tracked_keys", codes "100000")
    ∷ []

abbrev pub removed_keys : List Text
removed_keys = codes "message_id.words" ∷ codes "message_id.digits" ∷ []

-- `toml::Value`; an integer is its decimal text, and `other` is any of the remaining kinds.
mutual
  pub data Value : Type 0 where
    string : Text → Value
    integer : Text → Value
    array : Items → Value
    table : Entries → Value
    other : Value

  pub data Items : Type 0 where
    no_items : Items
    item : Value → Items → Items

  pub data Entries : Type 0 where
    no_entries : Entries
    entry : Text → Value → Entries → Entries

-- `parts.join(",")`
unfoldable pub join : List Text → Text
join [] = []
join (p ∷ []) = p
join (p ∷ q ∷ rest) = p ++ (b',' ∷ join (q ∷ rest))

-- An element of a list.
unfoldable mutual
  pub scalar : Value → Result Text LoadError
  scalar (string s) = ok s
  scalar (integer i) = ok i
  scalar (array items) = scalars items >>= λ parts. ok (join parts)
  scalar (table _) = err not_a_scalar
  scalar other = err not_a_scalar

  pub scalars : Items → Result (List Text) LoadError
  scalars no_items = ok []
  scalars (item (array inner) rest) = err not_flat
  scalars (item (table inner) rest) = err not_flat
  scalars (item (string s) rest) = scalars rest >>= λ parts. ok (s ∷ parts)
  scalars (item (integer i) rest) = scalars rest >>= λ parts. ok (i ∷ parts)
  scalars (item other rest) = err not_a_scalar

abbrev pub Assignments : Type 0
Assignments = List (Text × Text)

-- The keys of one section.
unfoldable pub flatten_section : Text → Entries → Result Assignments LoadError
unfolding scalar
flatten_section section no_entries = ok []
flatten_section section (entry key value rest) = do
  text ← scalar value
  others ← flatten_section section rest
  ok ((section ++ (b'.' ∷ key), text) ∷ others)

unfoldable pub flatten_toml : Entries → Result Assignments LoadError
unfolding flatten_section
flatten_toml no_entries = ok []
flatten_toml (entry section (table entries) rest) = do
  first ← flatten_section section entries
  others ← flatten_toml rest
  ok (first ++ others)
flatten_toml (entry section (string s) rest) = err not_a_section
flatten_toml (entry section (integer i) rest) = err not_a_section
flatten_toml (entry section (array items) rest) = err not_a_section
flatten_toml (entry section other rest) = err not_a_section

pub record Flags : Type 0 where
  pub config : Option Text
  pub listen : Option Text

abbrev pub no_flags : Flags
no_flags = record { config = none; listen = none }

abbrev pub is_some : Option Text → Bool
is_some none = false
is_some (some _) = true

unfoldable pub is_flag : Text → Bool
is_flag arg = if text_eq arg (codes "--listen") then true else text_eq arg (codes "--config")

-- `replace(..).is_some()` on the slot of a flag.
unfoldable pub set_flag : Text → Text → Flags → Result Flags LoadError
set_flag arg value flags =
    if text_eq arg (codes "--listen")
    then (refuse_if (is_some flags.listen) given_twice >> ok (record flags { listen = some value }))
    else if text_eq arg (codes "--config")
    then (refuse_if (is_some flags.config) given_twice >> ok (record flags { config = some value }))
    else err unknown_argument

unfoldable pub parse_flags : List Text → Flags → Result Flags LoadError
unfolding is_flag set_flag
parse_flags [] flags = ok flags
parse_flags (arg ∷ []) flags = if is_flag arg then err needs_value else err unknown_argument
parse_flags (arg ∷ value ∷ rest) flags = do
  flags' ← set_flag arg value flags
  parse_flags rest flags'

unfoldable pub env_value : Text → List (Text × Text) → Option Text
env_value name [] = none
env_value name ((k, v) ∷ env) = if text_eq k name then some v else env_value name env

unfoldable pub set : Text → Text → Settings → Result Settings LoadError
set key value values =
    if any (λ old. text_eq old key) removed_keys
    then err removed_setting
    else (elim (Dict.get key values) [
      | none ↦ err unknown_setting
      | some _ ↦ ok (Dict.insert key value values)
    ])

unfoldable pub set_all : Assignments → Settings → Result Settings LoadError
unfolding set
set_all [] values = ok values
set_all ((key, value) ∷ rest) values = do values' ← set key value values; set_all rest values'

-- `replace("__", ".")`
unfoldable pub dotted : Text → Text
dotted [] = []
dotted (c ∷ []) = c ∷ []
dotted (c ∷ d ∷ cs) =
    let skipped = dotted cs in
    let next = dotted (d ∷ cs) in
    if nat_eq c b'_' then (if nat_eq d b'_' then b'.' ∷ skipped else c ∷ next) else c ∷ next

unfoldable pub has_double : Text → Bool
has_double [] = false
has_double (c ∷ cs) = if starts_with (codes "__") (c ∷ cs) then true else has_double cs

unfoldable pub strip_prefix : Text → Text → Option Text
strip_prefix [] s = some s
strip_prefix (p ∷ ps) [] = none
strip_prefix (p ∷ ps) (c ∷ cs) = if nat_eq p c then strip_prefix ps cs else none

-- Where configuration comes from. `read_file` is the text of the file by its path, already parsed.
pub record Sources : Type 0 where
  pub args : List Text
  pub env : List (Text × Text)
  pub read_file : Text → Option (Option Entries)
  pub to_lowercase : Text → Text

module _ (sources : Sources) where
  -- Only `PINVEIL_SECTION__KEY` names are settings.
  unfoldable pub env_settings : List (Text × Text) → Assignments
  unfolding strip_prefix has_double dotted
  env_settings [] = []
  env_settings ((name, value) ∷ env) =
      let others = env_settings env in
      elim (strip_prefix (codes "PINVEIL_") name) [
        | none ↦ others
        | some rest ↦
            if has_double rest then (dotted (sources.to_lowercase rest), value) ∷ others else others
      ]

  unfoldable pub config_path : Flags → Option Text
  unfolding env_value
  config_path flags = elim flags.config [
    | some path ↦ some path
    | none ↦ env_value (codes "PINVEIL_CONFIG") sources.env
  ]

  unfoldable pub parsed : Option (Option Entries) → Result Assignments LoadError
  unfolding flatten_toml
  parsed none = err unreadable_file
  parsed (some none) = err invalid_toml
  parsed (some (some entries)) = flatten_toml entries

  unfoldable pub file_settings : Flags → Result Assignments LoadError
  unfolding config_path parsed
  file_settings flags = elim (config_path flags) [
    | none ↦ ok []
    | some path ↦ parsed (sources.read_file path)
  ]

  abbrev pub listen_setting : Option Text → Assignments
  listen_setting none = []
  listen_setting (some address) = (codes "server.listen", address) ∷ []

  -- `load`, up to the checks on the values.
  unfoldable pub load : Result Settings LoadError
  unfolding parse_flags file_settings set_all env_settings
  load = do
    flags ← parse_flags sources.args no_flags
    file ← file_settings flags
    values ← set_all file defaults
    values' ← set_all (env_settings sources.env) values
    set_all (listen_setting flags.listen) values'

-- `Values::list`
unfoldable pub kept_items : List Text → List Text
unfolding trim
kept_items [] = []
kept_items (piece ∷ pieces) = elim (trim piece) [
  | [] ↦ kept_items pieces
  | c ∷ cs ↦ (c ∷ cs) ∷ kept_items pieces
]

unfoldable pub list_of : Text → List Text
unfolding split kept_items
list_of raw = kept_items (split b',' raw)
