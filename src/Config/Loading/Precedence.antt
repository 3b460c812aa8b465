-- ===== src/Config/Loading/Precedence.antt =====
-- crates/pinveil-server/src/config.rs: which value a setting has after `load`.
use pinveil.Base.{
  ◌≡◌, ◌≢◌, ◌∙◌, ap, inl, inr, Text, Bool, false, [], ◌∷◌, Option, none, some, ok, bind_ok, All,
  any, if◌then◌else◌, text_eq, text_eq_iff, text_equality, Bool-cases, Option-cases, arith,
}
use pinveil.Base.Dict
use pinveil.Config.Loading.{
  Settings, defaults, removed_keys, Assignments, Flags, no_flags, parse_flags, set, set_all,
  Sources, env_settings, file_settings, listen_setting, load,
}

abbrev pub or_else : Option Text → Option Text → Option Text
or_else (some v) other = some v
or_else none other = other

-- The last value that a list of settings gives a key.
abbrev pub latest : Text → Assignments → Option Text
latest k [] = none
latest k ((j, v) ∷ rest) = or_else (latest k rest) (if text_eq j k then some v else none)

abbrev pub is_removed : Text → Bool
is_removed key = any (λ old. text_eq old key) removed_keys

-- Every key of a list has a default and was not removed.
abbrev pub Known : Assignments → Type 0
Known settings =
    All (λ (a : Text × Text). (Dict.get a.0 defaults ≢ none) × (is_removed a.0 ≡ false)) settings

set-ok :
    (key value : Text) (values values' : Settings)
    → set key value values ≡ ok values'
    → (is_removed key ≡ false)
      × (Dict.get key values ≢ none)
      × (values' ≡ Dict.insert key value values)
unfolding set
set-ok key value values values' h = elim (Bool-cases (is_removed key)) [
  | inl t ↦ ground (arith, t, h)
  | inr t ↦ elim (Option-cases (Dict.get key values)) [
    | inl absent ↦ ground (arith, t, absent, h)
    | inr (old, present) ↦ (t, (λ e. ground (arith, present, e)), ground (arith, t, present, h))
  ]
]

get-set :
    (key value k : Text) (values values' : Settings)
    → set key value values ≡ ok values'
    → Dict.get k values' ≡ (if text_eq key k then some value else Dict.get k values)
get-set key value k values values' h =
    ap (Dict.get k) (set-ok key value values values' h).2 ∙ Dict.get-insert key k value values

-- Nothing is added to the keys.
set_all-absent :
    (settings : Assignments) (k : Text) (values values' : Settings)
    → set_all settings values ≡ ok values'
    → Dict.get k values ≡ none
    → Dict.get k values' ≡ none
unfolding set_all
set_all-absent [] k values values' h absent = ground (arith, h, absent)
set_all-absent ((key, value) ∷ rest) k values values' h absent =
    let (mid, (first, others)) = bind_ok (set key value values) (set_all rest) values' h in
    set_all-absent rest k mid values' others (unchanged mid first)
  where
    unchanged : (mid : Settings) → set key value values ≡ ok mid → Dict.get k mid ≡ none
    unchanged mid first = ground (
      arith,
      absent,
      get-set key value k values mid first,
      (set-ok key value values mid first).1,
      text_eq_iff key k,
    )

set_all-value :
    (settings : Assignments) (k : Text) (values values' : Settings)
    → set_all settings values ≡ ok values'
    → Dict.get k values' ≡ or_else (latest k settings) (Dict.get k values)
unfolding set_all
set_all-value [] k values values' h = ground (arith, h)
set_all-value ((key, value) ∷ rest) k values values' h =
    let (mid, (first, others)) = bind_ok (set key value values) (set_all rest) values' h in
    set_all-value rest k mid values' others ∙ earlier mid first
  where
    earlier :
        (mid : Settings)
        → set key value values ≡ ok mid
        → or_else (latest k rest) (Dict.get k mid)
          ≡ or_else
              (or_else (latest k rest) (if text_eq key k then some value else none))
              (Dict.get k values)
    earlier mid first = ground (arith, get-set key value k values mid first)

set_all-Known :
    (settings : Assignments) (values values' : Settings)
    → ((k : Text) → Dict.get k defaults ≡ none → Dict.get k values ≡ none)
    → set_all settings values ≡ ok values'
    → Known settings
unfolding set_all
set_all-Known [] values values' less h = tt
set_all-Known ((key, value) ∷ rest) values values' less h =
    let (mid, (first, others)) = bind_ok (set key value values) (set_all rest) values' h in
    let done = set-ok key value values mid first in
    (
      ((λ e. done.1 (less key e)), done.0),
      set_all-Known rest mid values' (λ k e. one_more k mid first (less k e)) others,
    )
  where
    one_more :
        (k : Text) (mid : Settings)
        → set key value values ≡ ok mid
        → Dict.get k values ≡ none
        → Dict.get k mid ≡ none
    one_more k mid first absent = ground (
      arith,
      absent,
      get-set key value k values mid first,
      (set-ok key value values mid first).1,
      text_eq_iff key k,
    )

module _ (sources : Sources) where
  -- What a successful load went through, and the value of every key.
  pub record IsLoaded (values : Settings) : Type 0 where
    pub flags : Flags
    pub file : Assignments
    pub flagged : parse_flags sources.args no_flags ≡ ok flags
    pub filed : file_settings sources flags ≡ ok file
    pub value :
        (k : Text)
        → Dict.get k values
          ≡ or_else (latest k (listen_setting sources flags.listen)) (
              or_else
                (latest k (env_settings sources sources.env))
                (or_else (latest k file) (Dict.get k defaults)))
    pub file_known : Known file
    pub env_known : Known (env_settings sources sources.env)

  -- A configuration that loads gives each key the value of the command line, or else the last
  -- one of the environment, or else the last one of the file, or else its default; every key of
  -- the file and of the environment is one that has a default, and none of the removed ones.
  pub load-IsLoaded : (values : Settings) → load sources ≡ ok values → IsLoaded values
  unfolding load
  load-IsLoaded values h =
      let (flags, (flagged, h₁)) = bind_ok (parse_flags sources.args no_flags) _ values h in
      let (file, (filed, h₂)) = bind_ok (file_settings sources flags) _ values h₁ in
      let (v₁, (first, h₃)) = bind_ok (set_all file defaults) _ values h₂ in
      let (v₂, (second, third)) =
        bind_ok (set_all (env_settings sources sources.env) v₁) _ values h₃ in
      record {
        flags = flags;
        file = file;
        flagged = flagged;
        filed = filed;
        value = λ k.
            set_all-value (listen_setting sources flags.listen) k v₂ values third
            ∙ ap (or_else (latest k (listen_setting sources flags.listen))) (
                set_all-value (env_settings sources sources.env) k v₁ v₂ second
                ∙ ap (or_else (latest k (env_settings sources sources.env)))
                    (set_all-value file k defaults v₁ first));
        file_known = set_all-Known file defaults v₁ (λ k e. e) first;
        env_known =
            set_all-Known (env_settings sources sources.env) v₁ v₂
              (λ k e. set_all-absent file k defaults v₁ first e) second;
      }
