-- ===== src/Core/ExportNames.antt =====
-- crates/pinveil-core/src/export_names.rs: names that are safe to create on any platform. A name is
-- the list of its characters, as code points; `byte_len` is the length of their UTF-8. Unicode's
-- `to_lowercase` is a parameter.
pub mod Pigeons
pub mod Numbered
pub mod Safe
pub mod Candidates
pub mod Exported
use pinveil.Base.{
  ℕ, zero, suc, ◌+◌, ◌-◌, ◌*◌, ◌/◌, ◌%◌, Text, Bool, true, false, ◌&&◌, ◌||◌, List, [], ◌∷◌, ◌++◌,
  map, Option, none, some, ltb, leb, nat_eq, length, any, codes, if◌then◌else◌, text_eq,
}
use pinveil.Core.Protocol.{max_name_bytes}

abbrev pub windows_invalid : Text
windows_invalid = codes "/\\:*?\"<>|"

-- `char::is_control`: the code points below 0x20 and from 0x7f to 0x9f.
unfoldable pub is_control : ℕ → Bool
is_control c = ltb c 32 || (leb 127 c && ltb c 160)

unfoldable pub is_forbidden : ℕ → Bool
unfolding is_control
is_forbidden c = any (λ d. nat_eq d c) windows_invalid || is_control c

-- `char::len_utf8`
unfoldable pub len_utf8 : ℕ → ℕ
len_utf8 c = if ltb c 0x80 then 1 else if ltb c 0x800 then 2 else if ltb c 0x10000 then 3 else 4

unfoldable pub byte_len : Text → ℕ
unfolding len_utf8
byte_len [] = 0
byte_len (c ∷ cs) = len_utf8 c + byte_len cs

-- The superscripts one, two and three.
abbrev pub device_numbers : Text
device_numbers = codes "123456789" ++ 0xb9 ∷ 0xb2 ∷ 0xb3 ∷ []

abbrev pub windows_devices : List Text
windows_devices =
    codes "con"
    ∷ codes "prn"
    ∷ codes "aux"
    ∷ codes "nul"
    ∷ (map (λ d. codes "com" ++ d ∷ []) device_numbers
        ++ map (λ d. codes "lpt" ++ d ∷ []) device_numbers)

abbrev pub is_trailing : ℕ → Bool
is_trailing c = nat_eq c b'.' || nat_eq c b' '

unfoldable pub cons_kept : Bool → ℕ → Text → Text
cons_kept true c [] = []
cons_kept true c (d ∷ ds) = c ∷ d ∷ ds
cons_kept false c cs = c ∷ cs

-- `trim_end_matches` on the characters of a test.
unfoldable pub trim_matches : (ℕ → Bool) → Text → Text
unfolding cons_kept
trim_matches test [] = []
trim_matches test (c ∷ cs) = cons_kept (test c) c (trim_matches test cs)

unfoldable pub trim_end : Text → Text
unfolding trim_matches
trim_end name = trim_matches is_trailing name

-- The longest prefix of whole characters within a number of bytes.
unfoldable pub fitting : ℕ → Text → Text
unfolding len_utf8
fitting room [] = []
fitting room (c ∷ cs) =
    let rest = fitting (room - len_utf8 c) cs in if leb (len_utf8 c) room then c ∷ rest else []

unfoldable pub truncate : Text → ℕ → Text
unfolding byte_len fitting
truncate text max_bytes = if leb (byte_len text) max_bytes then text else fitting max_bytes text

-- `split('.').next()`
unfoldable pub before_dot : Text → Text
before_dot [] = []
before_dot (c ∷ cs) = if nat_eq c b'.' then [] else c ∷ before_dot cs

unfoldable pub replace_forbidden : ℕ → ℕ
unfolding is_forbidden
replace_forbidden c = if is_forbidden c then b'_' else c

-- A number in decimal, with the number itself as fuel.
unfoldable pub decimal_within : ℕ → ℕ → Text
decimal_within zero n = (n % 10 + b'0') ∷ []
decimal_within (suc fuel) n =
    let more = decimal_within fuel (n / 10) in
    if ltb n 10 then (n + b'0') ∷ [] else more ++ (n % 10 + b'0') ∷ []

unfoldable pub decimal : ℕ → Text
unfolding decimal_within
decimal n = decimal_within n n

-- A name cut at its last dot, if one stands after the first character.
unfoldable pub cons_stem : ℕ → Option (Text × Text) → Option (Text × Text)
cons_stem c none = none
cons_stem c (some (stem, extension)) = some (c ∷ stem, extension)

unfoldable pub last_dot : Text → Option (Text × Text)
unfolding cons_stem
last_dot [] = none
last_dot (c ∷ cs) = elim (last_dot cs) [
  | some cut ↦ cons_stem c (some cut)
  | none ↦ if nat_eq c b'.' then some ([], c ∷ cs) else none
]

-- `Some(dot) if dot > 0`
unfoldable pub cut_extension : Text → Text × Text
unfolding last_dot
cut_extension name = elim (last_dot name) [
  | none ↦ (name, [])
  | some (stem, extension) ↦ elim stem [ [] ↦ (name, []) | c ∷ cs ↦ (c ∷ cs, extension) ]
]

abbrev pub contains : Text → List Text → Bool
contains key used = any (λ u. text_eq u key) used

unfoldable pub suffix_of : ℕ → Text
unfolding decimal
suffix_of n = codes " (" ++ decimal n ++ codes ")"

-- Whether at least one byte of the stem fits beside the extension.
unfoldable pub keeps_extension : Text → ℕ → Bool
unfolding byte_len suffix_of
keeps_extension extension n = ltb (byte_len (suffix_of n) + byte_len extension) max_name_bytes

unfoldable pub numbered : Text → Text → ℕ → Text
unfolding truncate suffix_of byte_len
numbered stem extension n =
    truncate stem (max_name_bytes - byte_len (suffix_of n) - byte_len extension)
    ++ (suffix_of n ++ extension)

unfoldable pub candidate : Text → ℕ → Text
unfolding cut_extension keeps_extension numbered
candidate name n =
    let (stem, extension) = cut_extension name in
    if keeps_extension extension n then numbered stem extension n else numbered name [] n

module _ (to_lowercase : Text → Text) where
  unfoldable pub is_device : Text → Bool
  is_device stem = contains (to_lowercase stem) windows_devices

  unfoldable pub cleaned : Text → Text
  unfolding replace_forbidden trim_end
  cleaned name = trim_end (map replace_forbidden name)

  unfoldable pub escaped : Text → Text
  unfolding is_device before_dot trim_matches
  escaped safe =
      if is_device (trim_matches (λ c. nat_eq c b' ') (before_dot safe)) then b'_' ∷ safe else safe

  unfoldable pub sanitize : Text → ℕ → Text
  unfolding cleaned escaped truncate trim_end decimal
  sanitize name index = elim (cleaned name) [
    | [] ↦ codes "file-" ++ decimal (index + 1)
    | c ∷ cs ↦ trim_end (truncate (escaped (c ∷ cs)) max_name_bytes)
  ]

  -- The loop over the numbers, with fuel.
  unfoldable pub find_free : ℕ → ℕ → Text → List Text → Option Text
  unfolding candidate
  find_free zero n name used = none
  find_free (suc fuel) n name used =
      let rest = find_free fuel (n + 1) name used in
      if contains (to_lowercase (candidate name n)) used then rest else some (candidate name n)

  abbrev pub enough : List Text → ℕ
  enough used = 2 * length used + 1

  unfoldable pub disambiguate : Text → List Text → Option Text
  unfolding find_free
  disambiguate name used =
      if contains (to_lowercase name) used then find_free (enough used) 2 name used else some name

  -- The loop over the names; `none` would mean that the fuel ran out.
  unfoldable pub export_from : ℕ → List Text → List Text → Option (List Text)
  unfolding sanitize disambiguate
  export_from index used [] = some []
  export_from index used (name ∷ names) = elim (disambiguate (sanitize name index) used) [
    | none ↦ none
    | some unique ↦ elim (export_from (index + 1) (to_lowercase unique ∷ used) names) [
      | none ↦ none
      | some rest ↦ some (unique ∷ rest)
    ]
  ]

  unfoldable pub export_names : List Text → Option (List Text)
  unfolding export_from
  export_names names = export_from 0 [] names
