-- ===== src/Cli/Profiles.antt =====
-- crates/pinveil-cli/src/profile.rs: named settings in a file. Reading and printing TOML and the url
-- crate are parameters, and a record says which file operations of a command succeed. A text is the
-- list of its code points, and a map the list of its entries, which `from_str` gives in the order of
-- their keys.
pub mod Valid
pub mod Kept
use pinveil.Base.{
  ℕ, ◌*◌, ◌^◌, Text, Bool, true, false, List, [], ◌∷◌, Option, none, some, Result, ok, err, ◌>>=◌,
  ◌>>◌, refuse_if, ok_or, ltb, codes, if◌then◌else◌, text_eq, text_equality, not,
}
use pinveil.Base.Dict
use pinveil.Base.Dict.{Dict}
use pinveil.Core.Generate.{is_ascii_digit}
use pinveil.Service.{parse_u64}
use pinveil.Cli.Links.{UrlOps, ServerUrl, parse_server}

pub record Profile : Type 0 where
  pub server : Option Text
  pub ttl : Option Text
  pub out : Option Text

pub record Profiles : Type 0 where
  pub default : Option Text
  pub profiles : Dict Text Profile

abbrev pub no_profile : Profile
no_profile = record { server = none; ttl = none; out = none }

abbrev pub no_profiles : Profiles
no_profiles = record { default = none; profiles = [] }

pub data ProfileArgs : Type 0 where
  list : ProfileArgs
  show : Text → ProfileArgs
  set : Text → Option Text → Option Text → Option Text → Bool → ProfileArgs
  remove : Text → ProfileArgs

-- What a command prints.
pub data Output : Type 0 where
  names : List (Text × Bool) → Output
  profile : Option Profile → Output
  saved removed : Text → Output

-- The refusals, without their wording.
pub data ProfileError : Type 0 where
  invalid_file unreadable_file invalid_profile missing_default : ProfileError
  unknown_profile invalid_server invalid_ttl cannot_save : ProfileError

pub data StoredFile : Type 0 where
  not_found unreadable : StoredFile
  contents : Text → StoredFile

pub record Toml : Type 0 where
  pub from_str : Text → Option Profiles
  pub to_string_pretty : Profiles → Option Text

-- Which of the calls in `save` succeed.
pub record Calls : Type 0 where
  pub create_dir_all : Bool
  pub tempfile_in : Bool
  pub write_all : Bool
  pub persist : Bool

unfoldable pub or_kept : Option Text → Option Text → Option Text
or_kept none old = old
or_kept (some new) old = some new

-- `split_at` the first character that is not a digit.
unfoldable pub split_unit : Text → Text × Text
unfolding is_ascii_digit
split_unit [] = ([], [])
split_unit (c ∷ cs) =
    let (digits, unit) = split_unit cs in
    if is_ascii_digit c then (c ∷ digits, unit) else ([], c ∷ cs)

unfoldable pub scale_of : Text → Option ℕ
scale_of [] = some 1
scale_of (c ∷ cs) =
    if text_eq (c ∷ cs) (codes "s")
    then some 1
    else if text_eq (c ∷ cs) (codes "m")
    then some 60
    else if text_eq (c ∷ cs) (codes "h")
    then some 3600
    else if text_eq (c ∷ cs) (codes "d")
    then some 86_400
    else none

unfoldable pub parse_ttl : Text → Result ℕ ProfileError
unfolding split_unit scale_of
parse_ttl text = do
  value ← ok_or (parse_u64 (split_unit text).0) invalid_ttl
  scale ← ok_or (scale_of (split_unit text).1) invalid_ttl
  refuse_if (not (ltb (value * scale) (2 ^ 64))) invalid_ttl
  refuse_if (not (ltb 0 (value * scale))) invalid_ttl
  ok (value * scale)

unfoldable pub mark_default : Option Text → Dict Text Profile → List (Text × Bool)
mark_default default [] = []
mark_default none ((name, p) ∷ rest) = (name, false) ∷ mark_default none rest
mark_default (some d) ((name, p) ∷ rest) = (name, text_eq d name) ∷ mark_default (some d) rest

unfoldable pub select : Option Text → Profiles → Result (Option Profile) ProfileError
select (some name) p = ok_or (Dict.get name p.profiles) unknown_profile >>= λ found. ok (some found)
select none p = elim p.default [ none ↦ ok none | some name ↦ ok (Dict.get name p.profiles) ]

unfoldable pub drop_default : Text → Option Text → Option Text
drop_default name none = none
drop_default name (some d) = if text_eq d name then none else some d

unfoldable pub save :
    Calls → Toml → Profiles → StoredFile → Result (Unit {0}) ProfileError × StoredFile
save calls toml p file =
    if calls.create_dir_all
    then (elim (toml.to_string_pretty p) [
      | none ↦ (err cannot_save, file)
      | some text ↦
          if calls.tempfile_in
          then (if calls.write_all
              then (if calls.persist then (ok tt, contents text) else (err cannot_save, file))
              else (err cannot_save, file))
          else (err cannot_save, file)
    ])
    else (err cannot_save, file)

unfoldable pub load_unchecked : Toml → StoredFile → Result Profiles ProfileError
load_unchecked toml not_found = ok no_profiles
load_unchecked toml unreadable = err unreadable_file
load_unchecked toml (contents text) = ok_or (toml.from_str text) invalid_file

unfoldable pub check_default : Option Text → Dict Text Profile → Result (Unit {0}) ProfileError
check_default none profiles = ok tt
check_default (some name) profiles = elim (Dict.get name profiles) [
  | none ↦ err missing_default
  | some _ ↦ ok tt
]

-- An answer beside a file that stays as it is.
abbrev pub keeping :
    StoredFile → Result Output ProfileError → Result Output ProfileError × StoredFile
keeping file answer = (answer, file)

abbrev pub say :
    Output → Result (Unit {0}) ProfileError × StoredFile → Result Output ProfileError × StoredFile
say output (done, file) = (done >> ok output, file)

module _ {Url : Type 0} (ops : UrlOps Url) where
  unfoldable pub validate_server : Text → Result (Unit {0}) ProfileError
  validate_server server = elim (parse_server ops server true) [
    | ok _ ↦ ok tt
    | err _ ↦ elim (parse_server ops server false) [ ok _ ↦ ok tt | err _ ↦ err invalid_server ]
  ]

  abbrev pub optional :
      (Text → Result (Unit {0}) ProfileError) → Option Text → Result (Unit {0}) ProfileError
  optional check none = ok tt
  optional check (some text) = check text

  unfoldable pub validate : Profile → Result (Unit {0}) ProfileError
  unfolding validate_server parse_ttl
  validate p = do
    optional validate_server p.server
    optional (λ ttl. parse_ttl ttl >>= λ seconds. ok tt) p.ttl
    ok tt

  unfoldable pub check_profiles : Dict Text Profile → Result (Unit {0}) ProfileError
  unfolding validate
  check_profiles [] = ok tt
  check_profiles ((name, p) ∷ rest) = elim (validate p) [
    | err _ ↦ err invalid_profile
    | ok _ ↦ check_profiles rest
  ]

  unfoldable pub validate_all : Profiles → Result (Unit {0}) ProfileError
  unfolding check_profiles check_default
  validate_all p = do check_profiles p.profiles; check_default p.default p.profiles

  unfoldable pub load : Toml → StoredFile → Result Profiles ProfileError
  unfolding load_unchecked validate_all
  load toml file = do p ← load_unchecked toml file; validate_all p; ok p

  -- `entry(name).or_default()` with the values that are given.
  unfoldable pub merged : Option Profile → Option Text → Option Text → Option Text → Profile
  unfolding or_kept
  merged none server ttl out = record {
    server = or_kept server none;
    ttl = or_kept ttl none;
    out = or_kept out none;
  }
  merged (some old) server ttl out = record {
    server = or_kept server old.server;
    ttl = or_kept ttl old.ttl;
    out = or_kept out old.out;
  }

  unfoldable pub with_profile : Text → Profile → Bool → Profiles → Profiles
  with_profile name p default ps = record {
    default = if default then some name else ps.default;
    profiles = Dict.insert name p ps.profiles;
  }

  unfoldable pub without : Text → Profiles → Profiles
  unfolding drop_default
  without name ps = record {
    default = drop_default name ps.default;
    profiles = Dict.remove name ps.profiles;
  }

  module _ (toml : Toml) (calls : Calls) where
    unfoldable pub remove_checked :
        Text → Profiles → StoredFile → Result Output ProfileError × StoredFile
    unfolding validate_all save
    remove_checked name left file = elim (validate_all left) [
      | err e ↦ keeping file (err e)
      | ok _ ↦ say (removed name) (save calls toml left file)
    ]

    unfoldable pub remove_from :
        Text → Profiles → StoredFile → Result Output ProfileError × StoredFile
    unfolding without remove_checked
    remove_from name ps file = elim (Dict.get name ps.profiles) [
      | none ↦ keeping file (err unknown_profile)
      | some _ ↦ remove_checked name (without name ps) file
    ]

    unfoldable pub remove_profile : Text → StoredFile → Result Output ProfileError × StoredFile
    unfolding load_unchecked remove_from
    remove_profile name file = elim (load_unchecked toml file) [
      | err e ↦ keeping file (err e)
      | ok ps ↦ remove_from name ps file
    ]

    unfoldable pub set_profile :
        Text → Profile → Bool → Profiles → StoredFile → Result Output ProfileError × StoredFile
    unfolding validate with_profile save
    set_profile name p default ps file = elim (validate p) [
      | err e ↦ keeping file (err e)
      | ok _ ↦ say (saved name) (save calls toml (with_profile name p default ps) file)
    ]

    unfoldable pub on_loaded :
        (Profiles → Result Output ProfileError × StoredFile)
        → StoredFile
        → Result Output ProfileError × StoredFile
    unfolding load
    on_loaded command file = elim (load toml file) [
      | err e ↦ keeping file (err e)
      | ok ps ↦ command ps
    ]

    unfoldable pub run : ProfileArgs → StoredFile → Result Output ProfileError × StoredFile
    unfolding on_loaded remove_profile mark_default select merged set_profile
    run (remove name) file = remove_profile name file
    run list file =
        on_loaded (λ ps. keeping file (ok (names (mark_default ps.default ps.profiles)))) file
    run (show name) file =
        on_loaded (λ ps. keeping file (select (some name) ps >>= λ found. ok (profile found))) file
    run (set name server ttl out default) file =
        on_loaded
          (λ ps.
            set_profile name (merged (Dict.get name ps.profiles) server ttl out) default ps file)
          file
