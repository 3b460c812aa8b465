-- ===== src/Cli/Profiles/Valid.antt =====
-- crates/pinveil-cli/src/profile.rs: what `validate_all` and `save` give.
use pinveil.Base.{
  ◌≡◌, refl, sym, ◌∙◌, subst, ◌⊎◌, inl, inr, Text, Bool, true, false, [], ◌∷◌, Option, none, some,
  ok, err, bind_ok, ok_injective, text_eq, text_eq_iff, text_eq_refl, text_equality, Bool-cases,
  Option-cases, Result-cases, arith,
}
use pinveil.Base.Dict
use pinveil.Base.Dict.{Dict}
use pinveil.Cli.Links.{UrlOps}
use pinveil.Cli.Profiles.{
  Profile, Profiles, cannot_save, StoredFile, contents, Toml, Calls, save, load_unchecked,
  check_default, validate, check_profiles, validate_all, load, with_profile,
}

pub save-cases :
    (calls : Calls) (toml : Toml) (p : Profiles) (file : StoredFile)
    → (save calls toml p file ≡ (err cannot_save, file))
      ⊎ ((text : Text) × (toml.to_string_pretty p ≡ some text)
          × (save calls toml p file ≡ (ok tt, contents text)))
unfolding save
save-cases calls toml p file = elim (Option-cases (toml.to_string_pretty p)) [
  | inl none_printed ↦ elim (Bool-cases calls.create_dir_all) [
    | inl made ↦ inl (rw (made, none_printed) refl)
    | inr failed ↦ inl (rw failed refl)
  ]
  | inr (text, printed) ↦ elim (Bool-cases calls.create_dir_all) [
    | inl made ↦ elim (Bool-cases calls.tempfile_in) [
      | inl opened ↦ elim (Bool-cases calls.write_all) [
        | inl written ↦ elim (Bool-cases calls.persist) [
          | inl renamed ↦ inr (text, printed, rw (made, printed, opened, written, renamed) refl)
          | inr failed ↦ inl (rw (made, printed, opened, written, failed) refl)
        ]
        | inr failed ↦ inl (rw (made, printed, opened, failed) refl)
      ]
      | inr failed ↦ inl (rw (made, printed, failed) refl)
    ]
    | inr failed ↦ inl (rw failed refl)
  ]
]

module _ {Url : Type 0} (ops : UrlOps Url) where
  check_profiles-remove :
      (k : Text) (m : Dict Text Profile)
      → check_profiles ops m ≡ ok tt
      → check_profiles ops (Dict.remove k m) ≡ ok tt
  unfolding check_profiles Dict.remove
  check_profiles-remove k [] h = refl
  check_profiles-remove k ((j, p) ∷ m) h = elim (Result-cases (validate ops p)) [
    | inl (done, valid) ↦ ground (arith, valid, h, check_profiles-remove k m)
    | inr (e, invalid) ↦ ground (arith, invalid, h)
  ]

  check_profiles-get :
      (m : Dict Text Profile) (k : Text) (p : Profile)
      → check_profiles ops m ≡ ok tt
      → Dict.get k m ≡ some p
      → validate ops p ≡ ok tt
  unfolding check_profiles Dict.get
  check_profiles-get [] k p h found = ground (arith, found)
  check_profiles-get ((j, r) ∷ m) k p h found = elim (Result-cases (validate ops r)) [
    | inl (done, valid) ↦ elim (Bool-cases (text_eq j k)) [
      | inl here ↦
          let e : r ≡ p = ground (arith, here, found) in subst (λ x. validate ops x ≡ ok tt) e valid
      | inr later ↦
          check_profiles-get m k p (ground (arith, valid, h)) (ground (arith, later, found))
    ]
    | inr (e, invalid) ↦ ground (arith, invalid, h)
  ]

  check_profiles-all :
      (m : Dict Text Profile)
      → Dict.Distinct m
      → ((k : Text) (p : Profile) → Dict.get k m ≡ some p → validate ops p ≡ ok tt)
      → check_profiles ops m ≡ ok tt
  unfolding check_profiles Dict.get
  check_profiles-all [] distinct valid = refl
  check_profiles-all ((j, p) ∷ m) distinct valid = ground (
    arith,
    valid j p (ground (arith, text_eq_refl j)),
    check_profiles-all m distinct.1
        (λ k r found. valid k r (ground (arith, distinct.0, found, text_eq_iff j k))),
  )

  check_default-same :
      (o : Option Text) (m n : Dict Text Profile)
      → ((k : Text) → Dict.get k m ≡ Dict.get k n)
      → check_default o m ≡ check_default o n
  unfolding check_default
  check_default-same none m n same = refl
  check_default-same (some k) m n same = ground (arith, same k)

  check_default-insert :
      (o : Option Text) (name : Text) (p : Profile) (m : Dict Text Profile)
      → (o ≡ some name) ⊎ (check_default o m ≡ ok tt)
      → check_default o (Dict.insert name p m) ≡ ok tt
  unfolding check_default
  check_default-insert none name p m h = refl
  check_default-insert (some k) name p m h =
      ground (arith, h, Dict.get-insert name k p m, text_eq_iff name k)

  pub validate_all-same :
      (p q : Profiles)
      → q.default ≡ p.default
      → ((k : Text) → Dict.get k q.profiles ≡ Dict.get k p.profiles)
      → Dict.Distinct q.profiles
      → validate_all ops p ≡ ok tt
      → validate_all ops q ≡ ok tt
  unfolding validate_all check_default
  validate_all-same p q default same distinct h =
      let (done, (checked, present)) = bind_ok (check_profiles ops p.profiles) _ tt h in
      let fine =
        check_profiles-all q.profiles distinct
          (λ k r found. check_profiles-get p.profiles k r checked (sym (same k) ∙ found)) in
      rw (fine, default, check_default-same p.default q.profiles p.profiles same) present

  check_profiles-insert :
      (name : Text) (p : Profile) (m : Dict Text Profile)
      → validate ops p ≡ ok tt
      → check_profiles ops m ≡ ok tt
      → check_profiles ops (Dict.insert name p m) ≡ ok tt
  unfolding check_profiles Dict.insert
  check_profiles-insert name p m valid h = ground (arith, valid, check_profiles-remove name m h)

  pub validate_all-with_profile :
      (name : Text) (p : Profile) (default : Bool) (ps : Profiles)
      → validate ops p ≡ ok tt
      → validate_all ops ps ≡ ok tt
      → validate_all ops (with_profile ops name p default ps) ≡ ok tt
  unfolding validate_all with_profile
  validate_all-with_profile name p true ps valid h =
      let (done, (checked, present)) = bind_ok (check_profiles ops ps.profiles) _ tt h in
      rw (check_profiles-insert name p ps.profiles valid checked)
        (check_default-insert (some name) name p ps.profiles (inl refl))
  validate_all-with_profile name p false ps valid h =
      let (done, (checked, present)) = bind_ok (check_profiles ops ps.profiles) _ tt h in
      rw (check_profiles-insert name p ps.profiles valid checked)
        (check_default-insert ps.default name p ps.profiles (inr present))

  pub load-valid :
      (toml : Toml) (file : StoredFile) (ps : Profiles)
      → load ops toml file ≡ ok ps
      → validate_all ops ps ≡ ok tt
  unfolding load
  load-valid toml file ps h =
      let (read, (found, h₁)) = bind_ok (load_unchecked toml file) _ ps h in
      let (done, (valid, h₂)) = bind_ok (validate_all ops read) _ ps h₁ in
      subst (λ r. validate_all ops r ≡ ok tt) (ok_injective read ps h₂) valid
