-- ===== src/Tests/ExportRuns.antt =====
-- Runs of the export names, with the lowercase of ASCII.
use pinveil.Base.{
  ℕ, zero, suc, ◌+◌, ◌/◌, ◌%◌, ◌<◌, ◌≡◌, refl, ap, ◌∙◌, inl, inr, Text, List, [], ◌∷◌, ◌++◌, map,
  some, ltb, length, All, codes, Bool-cases, text_eq, arith,
}
use pinveil.Base.Strings.{to_lower, to_ascii_lowercase}
use pinveil.Core.ExportNames.{decimal_within, decimal, suffix_of, export_names}
use pinveil.Core.ExportNames.Pigeons.{Different}
use pinveil.Core.ExportNames.Safe.{IsSafe}
use pinveil.Core.ExportNames.Numbered.{IsLowercase, export_names-Different}
use pinveil.Core.ExportNames.Exported.{export_names-IsSafe}

to_ascii_lowercase-append :
    (s t : Text) → to_ascii_lowercase (s ++ t) ≡ to_ascii_lowercase s ++ to_ascii_lowercase t
unfolding to_ascii_lowercase
to_ascii_lowercase-append [] t = refl
to_ascii_lowercase-append (c ∷ s) t = ground (arith, to_ascii_lowercase-append s t)

to_lower-digit : (d : ℕ) → d < 10 → to_lower (d + b'0') ≡ d + b'0'
unfolding to_lower
to_lower-digit d h = ground (arith, h)

to_ascii_lowercase-decimal_within :
    (fuel n : ℕ) → to_ascii_lowercase (decimal_within fuel n) ≡ decimal_within fuel n
unfolding to_ascii_lowercase decimal_within
to_ascii_lowercase-decimal_within zero n = ap (λ c. c ∷ []) (to_lower-digit (n % 10) (omega arith))
to_ascii_lowercase-decimal_within (suc fuel) n = elim (Bool-cases (ltb n 10)) [
  | inl small ↦ rw small (ap (λ c. c ∷ []) (to_lower-digit n (ground (arith, small))))
  | inr large ↦
      rw (large, to_ascii_lowercase-append (decimal_within fuel (n / 10)) ((n % 10 + b'0') ∷ []))
        (ap (λ s. s ++ to_lower (n % 10 + b'0') ∷ [])
            (to_ascii_lowercase-decimal_within fuel (n / 10))
          ∙ ap (λ c. decimal_within fuel (n / 10) ++ c ∷ [])
              (to_lower-digit (n % 10) (omega arith)))
]

to_ascii_lowercase-suffix_of : (n : ℕ) → to_ascii_lowercase (suffix_of n) ≡ suffix_of n
unfolding suffix_of decimal to_ascii_lowercase to_lower
to_ascii_lowercase-suffix_of n =
    ap (λ s. b' ' ∷ b'(' ∷ s)
      (to_ascii_lowercase-append (decimal_within n n) (b')' ∷ [])
        ∙ ap (λ s. s ++ b')' ∷ []) (to_ascii_lowercase-decimal_within n n))

ascii_lower : IsLowercase to_ascii_lowercase
ascii_lower = record {
  apart = λ stem tail n.
      rw
        (
          to_ascii_lowercase-append stem (suffix_of n ++ tail),
          to_ascii_lowercase-append (suffix_of n) tail,
          to_ascii_lowercase-suffix_of n,
        )
        refl;
}

abbrev names : List Text
names = codes "a.txt" ∷ codes "A.txt" ∷ codes "nul.x. " ∷ codes "b/c" ∷ []

abbrev exported : List Text
exported = codes "a.txt" ∷ codes "A (2).txt" ∷ codes "_nul.x" ∷ codes "b_c" ∷ []

names-exported : export_names to_ascii_lowercase names ≡ some exported
unfolding export_names text_eq to_ascii_lowercase
names-exported = refl

export_names-IsSafe_example : All IsSafe exported
export_names-IsSafe_example =
    export_names-IsSafe to_ascii_lowercase names exported (omega arith) names-exported

export_names-Different_example :
    (us : List Text) × (export_names to_ascii_lowercase names ≡ some us)
    × (length us ≡ length names)
    × Different (map to_ascii_lowercase us)
export_names-Different_example = export_names-Different to_ascii_lowercase ascii_lower names
