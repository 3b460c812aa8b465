-- ===== src/Cli/Profiles/Kept.antt =====
-- crates/pinveil-cli/src/profile.rs: what a command leaves in the file.
use pinveil.Base.{
  ◌≡◌, refl, ◌∙◌, subst, ◌⊎◌, inl, inr, Text, Bool, Option, some, Result, ok, err, if◌then◌else◌,
  text_eq, text_equality, Option-cases, Result-cases, arith,
}
use pinveil.Base.Dict
use pinveil.Base.Dict.{Dict}
use pinveil.Cli.Links.{UrlOps}
use pinveil.Cli.Profiles.{
  Profile, Profiles, ProfileArgs, list, show, set, remove, Output, saved, removed, ProfileError,
  cannot_save, unknown_profile, StoredFile, contents, Toml, Calls, save, load_unchecked, keeping,
  say, validate, validate_all, load, merged, with_profile, without, remove_checked, remove_from,
  remove_profile, set_profile, on_loaded, run,
}
use pinveil.Cli.Profiles.Valid.{
  save-cases, validate_all-same, validate_all-with_profile, load-valid,
}

-- What is printed reads back: the same default, the same profile for each name, each name once.
pub record ReadsBack (toml : Toml) : Type 0 where
  pub reads :
      (p : Profiles) (text : Text)
      → toml.to_string_pretty p ≡ some text
      → (q : Profiles) × (toml.from_str text ≡ some q)
        × (q.default ≡ p.default)
        × ((k : Text) → Dict.get k q.profiles ≡ Dict.get k p.profiles)
        × Dict.Distinct q.profiles

module _ {Url : Type 0} (ops : UrlOps Url) where
  module _ (toml : Toml) (back : ReadsBack toml) (calls : Calls) where
    -- What a command answers beside the file it leaves: a refusal leaves the file as it was, and a
    -- file that changes loads.
    pub record IsKept (file : StoredFile) (r : Result Output ProfileError × StoredFile)
        : Type 0 where
      pub refused : (e : ProfileError) → r.0 ≡ err e → r.1 ≡ file
      pub loads : (r.1 ≡ file) ⊎ ((ps : Profiles) × (load ops toml r.1 ≡ ok ps))

    keeping-IsKept :
        (file : StoredFile) (answer : Result Output ProfileError)
        → IsKept file (keeping file answer)
    keeping-IsKept file answer = record { refused = λ e h. refl; loads = inl refl }

    contents-loads :
        (p : Profiles) (text : Text)
        → validate_all ops p ≡ ok tt
        → toml.to_string_pretty p ≡ some text
        → (q : Profiles) × (load ops toml (contents text) ≡ ok q)
          × (q.default ≡ p.default)
          × ((k : Text) → Dict.get k q.profiles ≡ Dict.get k p.profiles)
    unfolding load load_unchecked
    contents-loads p text valid printed =
        let (q, read, default, same, distinct) = back.reads p text printed in
        (q, rw (read, validate_all-same ops p q default same distinct valid) refl, default, same)

    save-IsKept :
        (output : Output) (p : Profiles) (file : StoredFile)
        → validate_all ops p ≡ ok tt
        → IsKept file (say output (save calls toml p file))
    save-IsKept output p file valid = elim (save-cases calls toml p file) [
      | inl failed ↦ rw failed (keeping-IsKept file (err cannot_save))
      | inr (text, printed, done) ↦ rw done (record {
        refused = λ e h. ground (arith, h);
        loads =
            let (q, loaded, same_default, same) = contents-loads p text valid printed in
            inr (q, loaded);
      })
    ]

    set_profile-IsKept :
        (name : Text) (p : Profile) (default : Bool) (ps : Profiles) (file : StoredFile)
        → validate_all ops ps ≡ ok tt
        → IsKept file (set_profile ops toml calls name p default ps file)
    unfolding set_profile
    set_profile-IsKept name p default ps file h = elim (Result-cases (validate ops p)) [
      | inl (done, valid) ↦
          rw (set_profile, valid)
            (save-IsKept (saved name) (with_profile ops name p default ps) file
              (validate_all-with_profile ops name p default ps valid h))
      | inr (e, invalid) ↦ rw (set_profile, invalid) (keeping-IsKept file (err e))
    ]

    remove_checked-IsKept :
        (name : Text) (left : Profiles) (file : StoredFile)
        → IsKept file (remove_checked ops toml calls name left file)
    unfolding remove_checked
    remove_checked-IsKept name left file = elim (Result-cases (validate_all ops left)) [
      | inl (done, valid) ↦ rw (remove_checked, valid) (save-IsKept (removed name) left file valid)
      | inr (e, invalid) ↦ rw (remove_checked, invalid) (keeping-IsKept file (err e))
    ]

    remove_profile-IsKept :
        (name : Text) (file : StoredFile) → IsKept file (remove_profile ops toml calls name file)
    unfolding remove_profile remove_from
    remove_profile-IsKept name file = elim (Result-cases (load_unchecked toml file)) [
      | inl (ps, read) ↦ elim (Option-cases (Dict.get name ps.profiles)) [
        | inl absent ↦
            rw (remove_profile, read, remove_from, absent)
              (keeping-IsKept file (err unknown_profile))
        | inr (p, present) ↦
            rw (remove_profile, read, remove_from, present)
              (remove_checked-IsKept name (without ops name ps) file)
      ]
      | inr (e, failed) ↦ rw (remove_profile, failed) (keeping-IsKept file (err e))
    ]

    on_loaded-IsKept :
        (command : Profiles → Result Output ProfileError × StoredFile) (file : StoredFile)
        → ((ps : Profiles) → validate_all ops ps ≡ ok tt → IsKept file (command ps))
        → IsKept file (on_loaded ops toml calls command file)
    unfolding on_loaded
    on_loaded-IsKept command file kept = elim (Result-cases (load ops toml file)) [
      | inl (ps, read) ↦ rw (on_loaded, read) (kept ps (load-valid ops toml file ps read))
      | inr (e, failed) ↦ rw (on_loaded, failed) (keeping-IsKept file (err e))
    ]

    -- A profile command that is refused leaves the file as it was, whichever file operation
    -- failed, and a command that changes the file leaves one that loads, with every profile
    -- valid and a default that exists, where what is printed as TOML reads back.
    pub run-IsKept :
        (args : ProfileArgs) (file : StoredFile) → IsKept file (run ops toml calls args file)
    unfolding run
    run-IsKept list file = on_loaded-IsKept _ file (λ ps valid. keeping-IsKept file _)
    run-IsKept (show name) file = on_loaded-IsKept _ file (λ ps valid. keeping-IsKept file _)
    run-IsKept (set name server ttl out default) file = on_loaded-IsKept _ file (λ ps valid.
        set_profile-IsKept name (merged ops (Dict.get name ps.profiles) server ttl out) default ps
          file valid)
    run-IsKept (remove name) file = remove_profile-IsKept name file

    -- What a `set` that succeeds has changed.
    pub record WasSet (name : Text) (server ttl out : Option Text) (default : Bool)
        (before after : StoredFile) : Type 0 where
      pub old : Profiles
      pub new : Profiles
      pub loaded : load ops toml before ≡ ok old
      pub reloaded : load ops toml after ≡ ok new
      pub values :
          (k : Text)
          → Dict.get k new.profiles ≡ (
              if text_eq name k
              then some (merged ops (Dict.get name old.profiles) server ttl out)
              else Dict.get k old.profiles)
      pub default_name : new.default ≡ (if default then some name else old.default)

    saved-WasSet :
        (name : Text) (server ttl out : Option Text) (default : Bool) (ps : Profiles)
        (file after : StoredFile) (output : Output)
        → load ops toml file ≡ ok ps
        → set_profile ops toml calls name
            (merged ops (Dict.get name ps.profiles) server ttl out)
            default
            ps
            file
          ≡ (ok output, after)
        → WasSet name server ttl out default file after
    unfolding set_profile with_profile
    saved-WasSet name server ttl out default ps file after output read h =
        let p = merged ops (Dict.get name ps.profiles) server ttl out in
        let next = with_profile ops name p default ps in
        elim (Result-cases (validate ops p)) [
          | inr (e, invalid) ↦ ground (arith, h, invalid)
          | inl (done, valid) ↦ elim (save-cases calls toml next file) [
            | inl failed ↦ ground (arith, h, valid, failed)
            | inr (text, printed, stored) ↦
                let (q, loaded, same_default, same) =
                  contents-loads next text
                    (validate_all-with_profile ops name p default ps valid
                      (load-valid ops toml file ps read))
                    printed in
                let e : contents text ≡ after = ground (arith, h, valid, stored) in
                subst (λ f. WasSet name server ttl out default file f) e
                  (record {
                    old = ps;
                    new = q;
                    loaded = read;
                    reloaded = loaded;
                    values = λ k. same k ∙ Dict.get-insert name k p ps.profiles;
                    default_name = same_default;
                  })
          ]
        ]

    -- After a profile set that succeeds, the file loads with the given values of that profile
    -- and its old ones where none was given, every other profile as it was, and the default
    -- changed only if asked for, where what is printed as TOML reads back.
    pub run-WasSet :
        (name : Text) (server ttl out : Option Text) (default : Bool) (file after : StoredFile)
        (output : Output)
        → run ops toml calls (set name server ttl out default) file ≡ (ok output, after)
        → WasSet name server ttl out default file after
    unfolding run on_loaded
    run-WasSet name server ttl out default file after output h =
        elim (Result-cases (load ops toml file)) [
          | inl (ps, read) ↦
              saved-WasSet name server ttl out default ps file after output read
                (ground (arith, h, read))
          | inr (e, failed) ↦ ground (arith, h, failed)
        ]
