-- ===== src/Core/ExportNames/Exported.antt =====
-- crates/pinveil-core/src/export_names.rs: every exported name is safe.
use pinveil.Base.{
  ℕ, zero, suc, ◌+◌, ◌*◌, ◌^◌, ◌<◌, ◌≡◌, ◌⊎◌, refl, inl, inr, Text, false, List, [], ◌∷◌, ◌++◌, map,
  some, nat_eq, length, All, codes, Bool-cases, Option-cases, subst, arith,
}
use pinveil.Core.Protocol.{max_name_bytes}
use pinveil.Core.ExportNames.{
  is_control, is_forbidden, len_utf8, byte_len, is_trailing, trim_matches, trim_end, truncate,
  replace_forbidden, decimal, before_dot, contains, candidate, is_device, cleaned, escaped,
  sanitize, find_free, enough, disambiguate, export_from, export_names,
}
use pinveil.Core.ExportNames.Safe.{
  IsAllowed, IsSafe, IsAllowed-append, byte_len-append, trim-le, trim-IsAllowed, trim_idem,
  truncate-le, truncate-IsAllowed, decimal_within-IsAllowed, decimal_within-trimmed, len-decimal,
}
use pinveil.Core.ExportNames.Candidates.{candidate-IsSafe}

replaced-IsAllowed : (s : Text) → IsAllowed (map replace_forbidden s)
unfolding replace_forbidden
replaced-IsAllowed [] = tt
replaced-IsAllowed (c ∷ cs) = (one c, replaced-IsAllowed cs)
  where
    underscore : is_forbidden b'_' ≡ false
    underscore = unfold is_forbidden is_control in refl

    one : (d : ℕ) → is_forbidden (replace_forbidden d) ≡ false
    one d = ground (arith, underscore)

List-cases : (s : Text) → (s ≡ []) ⊎ ((c : ℕ) × (cs : Text) × (s ≡ c ∷ cs))
List-cases [] = inl refl
List-cases (c ∷ cs) = inr (c, cs, refl)

module _ (to_lowercase : Text → Text) where
  escaped-IsAllowed : (s : Text) → IsAllowed s → IsAllowed (escaped to_lowercase s)
  unfolding escaped is_forbidden is_control
  escaped-IsAllowed s h =
      elim (Bool-cases
        (is_device to_lowercase (trim_matches (λ c. nat_eq c b' ') (before_dot s)))) [
          | inl t ↦ rw t (refl, h)
          | inr t ↦ rw t h
        ]

  cleaned-IsAllowed : (name : Text) → IsAllowed (cleaned to_lowercase name)
  unfolding cleaned trim_end
  cleaned-IsAllowed name =
      trim-IsAllowed is_trailing (map replace_forbidden name) (replaced-IsAllowed name)

  numbered_file : (n : ℕ) → n < 2 ^ 64 → IsSafe (codes "file-" ++ decimal n)
  unfolding decimal is_forbidden is_control
  numbered_file n fits = record {
    short =
        rw (byte_len-append (codes "file-") (decimal n)) (omega (arith, len-decimal n fits, five));
    allowed =
        IsAllowed-append (codes "file-") (decimal n) (refl, (refl, (refl, (refl, (refl, tt)))))
          (decimal_within-IsAllowed n n);
    trimmed = decimal_within-trimmed (codes "file-") n n;
  }
    where
      five : byte_len (codes "file-") ≡ 5
      five = unfold byte_len len_utf8 in refl

  cut_short : (s : Text) → IsAllowed s → IsSafe (trim_end (truncate s max_name_bytes))
  unfolding trim_end
  cut_short s h = record {
    short =
        omega
          (arith, trim-le is_trailing (truncate s max_name_bytes), truncate-le s max_name_bytes);
    allowed =
        trim-IsAllowed is_trailing (truncate s max_name_bytes)
          (truncate-IsAllowed s max_name_bytes h);
    trimmed = trim_idem is_trailing (truncate s max_name_bytes);
  }

  sanitize-IsSafe :
      (name : Text) (index : ℕ) → index + 1 < 2 ^ 64 → IsSafe (sanitize to_lowercase name index)
  unfolding sanitize
  sanitize-IsSafe name index fits = elim (List-cases (cleaned to_lowercase name)) [
    | inl h ↦ rw (h, sanitize) (numbered_file (index + 1) fits)
    | inr (c, cs, h) ↦
        rw (h, sanitize)
          (cut_short (escaped to_lowercase (c ∷ cs))
            (escaped-IsAllowed (c ∷ cs) (subst IsAllowed h (cleaned-IsAllowed name))))
  ]

module _ (to_lowercase : Text → Text) where
  find_free-IsSafe :
      (fuel n : ℕ) (name unique : Text) (used : List Text)
      → n + fuel < 2 ^ 64
      → IsSafe name
      → find_free to_lowercase fuel n name used ≡ some unique
      → IsSafe unique
  unfolding find_free
  find_free-IsSafe zero n name unique used fits safe h = ground arith
  find_free-IsSafe (suc fuel) n name unique used fits safe h =
      elim (Bool-cases (contains (to_lowercase (candidate name n)) used)) [
        | inl t ↦
            find_free-IsSafe fuel (n + 1) name unique used (omega (arith, fits)) safe
              (ground (arith, t, h))
        | inr t ↦
            let e : candidate name n ≡ unique = ground (arith, t, h) in
            subst IsSafe e (candidate-IsSafe name n (omega (arith, fits)) safe)
      ]

  disambiguate-IsSafe :
      (name unique : Text) (used : List Text)
      → 2 * length used + 3 < 2 ^ 64
      → IsSafe name
      → disambiguate to_lowercase name used ≡ some unique
      → IsSafe unique
  unfolding disambiguate
  disambiguate-IsSafe name unique used fits safe h =
      elim (Bool-cases (contains (to_lowercase name) used)) [
        | inl t ↦
            find_free-IsSafe (enough to_lowercase used) 2 name unique used (omega (arith, fits))
              safe (ground (arith, t, h))
        | inr t ↦ let e : name ≡ unique = ground (arith, t, h) in subst IsSafe e safe
      ]

  export_from-IsSafe :
      (index : ℕ) (used names us : List Text)
      → index + length names < 2 ^ 64
      → 2 * (length used + length names) + 3 < 2 ^ 64
      → export_from to_lowercase index used names ≡ some us
      → All IsSafe us
  unfolding export_from
  export_from-IsSafe index used [] us fits room h =
      let e : [] ≡ us = ground arith in subst (λ r. All IsSafe r) e tt
  export_from-IsSafe index used (name ∷ names) us fits room h =
      let safe = sanitize to_lowercase name index in
      elim (Option-cases (disambiguate to_lowercase safe used)) [
        | inl d ↦ ground (arith, d, h)
        | inr (unique, d) ↦
            elim (Option-cases
              (export_from to_lowercase (index + 1) (to_lowercase unique ∷ used) names)) [
                | inl x ↦ ground (arith, d, x, h)
                | inr (rest, x) ↦
                    let e : unique ∷ rest ≡ us = ground (arith, d, x, h) in
                    subst (λ r. All IsSafe r) e
                      (
                        disambiguate-IsSafe safe unique used (omega (arith, room))
                            (sanitize-IsSafe to_lowercase name index (omega (arith, fits))) d,
                        export_from-IsSafe (index + 1) (to_lowercase unique ∷ used) names rest
                            (omega (arith, fits)) (omega (arith, room)) x,
                      )
              ]
      ]

  -- Every exported name, of fewer than 2^62 of them, has at most 255 bytes, no character that a
  -- platform forbids, and no dot or space at its end.
  pub export_names-IsSafe :
      (names us : List Text)
      → length names < 2 ^ 62
      → export_names to_lowercase names ≡ some us
      → All IsSafe us
  unfolding export_names
  export_names-IsSafe names us few h =
      export_from-IsSafe 0 [] names us (omega (arith, few)) (omega (arith, few)) h
