-- ===== src/Core/IdTemplate/Loop.antt =====
-- crates/pinveil-core/src/id_template.rs: the loop of `parse`, its end and what it yields.
use pinveil.Base.{
  ℕ, zero, suc, ◌+◌, ◌≡◌, ◌≢◌, ◌≤◌, refl, subst, ap, ◌∙◌, ok_injective, inl, inr, Text, true, List,
  [], ◌∷◌, ◌++◌, Option, none, some, Result, ok, ltb, nat_eq, length, length-drop, take, drop, all,
  all-append, All, Bool-cases, Option-cases, Result-cases, arith, bind_ok,
}
use pinveil.Base.Strings.{find, split_once, starts_with}
use pinveil.Core.Generate.{is_ascii_digit}
use pinveil.Core.IdTemplate.{
  Segment, literal, words, digits, alnum, IdTemplate, TemplateError, max_count, max_template_bytes,
  count_value, parse_count, needs_count, count_or_one, segment_named, placeholder, placeholder_at,
  flush, parse_from, is_id_byte, parse,
}

-- A segment as the loop builds it.
unfoldable pub IsSegment : Segment → Type 0
IsSegment (literal text) = (text ≢ []) × (all is_id_byte text ≡ true)
IsSegment (words n) = (1 ≤ n) × (n ≤ max_count)
IsSegment (digits n) = (1 ≤ n) × (n ≤ max_count)
IsSegment (alnum n upper) = (1 ≤ n) × (n ≤ max_count)

parse_from-ends :
    (fuel i : ℕ) (rest lit : Text) → length rest ≤ fuel → parse_from fuel i rest lit ≢ none
unfolding parse_from
parse_from-ends fuel i [] lit h out = ground arith
parse_from-ends zero i (b ∷ rest) lit h out = ground arith
parse_from-ends (suc fuel) i (b ∷ rest) lit h out = elim (Bool-cases (nat_eq b 123)) [
  | inr t ↦ ground (arith, t, parse_from-ends fuel (i + 1) rest (lit ++ b ∷ []))
  | inl t ↦ elim (Result-cases (placeholder_at i rest)) [
    | inr (e, bad) ↦ ground (arith, t, bad)
    | inl ((segment, close), good) ↦ ground (
      arith,
      t,
      good,
      length-drop (close + 1) rest,
      parse_from-ends fuel (i + 1 + close + 1) (drop (close + 1) rest) [],
    )
  ]
]

-- The loop of the template parser ends: parse answers a template or an error on every text.
pub parse-total :
    (text : Text) (list : _) → (r : Result IdTemplate TemplateError) × (parse text list ≡ some r)
unfolding parse
parse-total text list = elim (Option-cases (parse_from (length text) 0 text [])) [
  | inl eq ↦ absurd (parse_from-ends (length text) 0 text [] (ground arith) eq)
  | inr (r, eq) ↦ elim (Bool-cases (ltb max_template_bytes (length text))) [
    | inl long ↦ rw (eq, long) (_, refl)
    | inr fits ↦ rw (eq, fits) (_, refl)
  ]
]

parse_count-range :
    (text : Text) (offset n : ℕ) → parse_count text offset ≡ ok n → (1 ≤ n) × (n ≤ max_count)
unfolding parse_count count_value starts_with is_ascii_digit
parse_count-range [] offset n h = ground arith
parse_count-range (d ∷ []) offset n h = ground arith
parse_count-range (d ∷ e ∷ []) offset n h = ground arith
parse_count-range (_ ∷ _ ∷ _ ∷ _) offset n h = ground arith

abbrev CountInRange : Option ℕ → Type 0
CountInRange none = Unit
CountInRange (some n) = (1 ≤ n) × (n ≤ max_count)

segment_named-IsSegment :
    (name : Text) (count : Option ℕ) (start : ℕ) (s : Segment)
    → CountInRange count
    → segment_named name count start ≡ ok s
    → IsSegment s
unfolding segment_named IsSegment needs_count count_or_one
segment_named-IsSegment name none start (literal text) range h = ground arith
segment_named-IsSegment name none start (words n) range h = ground arith
segment_named-IsSegment name none start (digits n) range h = ground arith
segment_named-IsSegment name none start (alnum n upper) range h = ground arith
segment_named-IsSegment name (some k) start (literal text) range h = ground arith
segment_named-IsSegment name (some k) start (words n) range h = ground arith
segment_named-IsSegment name (some k) start (digits n) range h = ground arith
segment_named-IsSegment name (some k) start (alnum n upper) range h = ground arith

placeholder-IsSegment :
    (body : Text) (start : ℕ) (s : Segment) → placeholder body start ≡ ok s → IsSegment s
unfolding placeholder
placeholder-IsSegment body start s h = elim (Option-cases (split_once 58 body)) [
  | inl eq ↦ segment_named-IsSegment body none start s tt (rw (placeholder, eq) at h)
  | inr ((name, text), eq) ↦
      let chain =
        bind_ok (parse_count text (start + length name + 1))
          (λ count. segment_named name (some count) start) s (rw (placeholder, eq) at h) in
      segment_named-IsSegment name (some chain.0) start s
        (parse_count-range text (start + length name + 1) chain.0 chain.1.0) chain.1.1
]

placeholder_at-IsSegment :
    (i : ℕ) (rest : Text) (s : Segment) (close : ℕ)
    → placeholder_at i rest ≡ ok (s, close)
    → IsSegment s
unfolding placeholder_at
placeholder_at-IsSegment i rest s close h = elim (Option-cases (find 125 rest)) [
  | inl eq ↦ ground (arith, eq)
  | inr (at, eq) ↦ elim (Option-cases (find 123 (take at rest))) [
    | inr (inner, out) ↦ ground (arith, eq, out)
    | inl out ↦
        let chain =
          bind_ok (placeholder (take at rest) (i + 1)) (λ segment. ok (segment, at)) (s, close)
            (rw (placeholder_at, eq, out) at h) in
        subst IsSegment (ground arith)
          (placeholder-IsSegment (take at rest) (i + 1) chain.0 chain.1.0)
  ]
]

flush-IsSegment :
    (lit : Text) (segments : List Segment)
    → all is_id_byte lit ≡ true
    → All IsSegment segments
    → All IsSegment (flush lit segments)
unfolding flush IsSegment
flush-IsSegment [] segments safe h = h
flush-IsSegment (c ∷ cs) segments safe h = ((ground arith, safe), h)

pub parse_from-IsSegment :
    (fuel i : ℕ) (rest lit : Text) (segments : List Segment)
    → all is_id_byte lit ≡ true
    → parse_from fuel i rest lit ≡ some (ok segments)
    → All IsSegment segments
unfolding parse_from
parse_from-IsSegment fuel i [] lit segments safe h =
    subst (All IsSegment) (ground arith) (flush-IsSegment lit [] safe tt)
parse_from-IsSegment zero i (b ∷ rest) lit segments safe h = ground arith
parse_from-IsSegment (suc fuel) i (b ∷ rest) lit segments safe h =
    elim (Bool-cases (nat_eq b 123)) [
      | inl t ↦ elim (Result-cases (placeholder_at i rest)) [
        | inr (e, bad) ↦ ground (arith, t, bad)
        | inl ((segment, close), good) ↦
            elim (Option-cases (parse_from fuel (i + 1 + close + 1) (drop (close + 1) rest) [])) [
              | inl out ↦ ground (arith, t, good, out)
              | inr (tail, out) ↦
                  let chain =
                    bind_ok tail (λ segments. ok (flush lit (segment ∷ segments))) segments
                      (ground (arith, t, good, out)) in
                  subst (All IsSegment) (ok_injective _ _ chain.1.1) (
                    flush-IsSegment lit (segment ∷ chain.0) safe (
                      placeholder_at-IsSegment i rest segment close good,
                      parse_from-IsSegment fuel (i + 1 + close + 1) (drop (close + 1) rest) []
                          chain.0 refl (out ∙ ap some chain.1.0),
                    ))
            ]
      ]
      | inr t ↦ elim (Bool-cases (is_id_byte b)) [
        | inl good ↦
            parse_from-IsSegment fuel (i + 1) rest (lit ++ b ∷ []) segments
              (ground (arith, good, all-append is_id_byte lit (b ∷ []))) (ground (arith, t, good))
        | inr bad ↦ ground (arith, t, bad)
      ]
    ]
