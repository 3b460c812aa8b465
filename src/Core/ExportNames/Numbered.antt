-- ===== src/Core/ExportNames/Numbered.antt =====
-- crates/pinveil-core/src/export_names.rs: the numbering loop ends, and the exported names differ.
use pinveil.Base.{
  ℕ, zero, suc, ◌+◌, ◌-◌, ◌*◌, ◌/◌, ◌%◌, ◌≤◌, ◌≡◌, ◌≢◌, refl, sym, ap, ◌∙◌, inl, inr, Text, Bool,
  true, false, not, ◌&&◌, List, [], ◌∷◌, ◌++◌, append_assoc, map, none, some, leb, ltb, length,
  drop, All, if◌then◌else◌, text_eq_iff, Bool-cases, Option-cases, arith,
}
use mathlib.Core.List.{reverse, reverse-cons, reverse-append}
use pinveil.Core.Protocol.{max_name_bytes}
use pinveil.Core.ExportNames.{
  decimal_within, decimal, cut_extension, contains, suffix_of, keeps_extension, numbered, truncate,
  byte_len, candidate, find_free, enough, disambiguate, export_from, export_names, sanitize,
}
use pinveil.Core.ExportNames.Pigeons.{from, Different, some_outside}

-- The number that a reversed text of digits starts with.
digits_value : Text → ℕ
digits_value [] = 0
digits_value (c ∷ cs) =
    let rest = digits_value cs in if leb b'0' c && leb c b'9' then c - b'0' + 10 * rest else 0

digits_value-decimal_within :
    (fuel n : ℕ) (rest : Text)
    → n ≤ fuel
    → digits_value (reverse (decimal_within fuel n) ++ b'(' ∷ rest) ≡ n
unfolding digits_value decimal_within
digits_value-decimal_within zero n rest h = ground arith
digits_value-decimal_within (suc fuel) n rest h = elim (Bool-cases (ltb n 10)) [
  | inl small ↦ rw small (ground (arith, small))
  | inr large ↦
      rw (large, reverse-append (decimal_within fuel (n / 10)) ((n % 10 + b'0') ∷ []))
        (ground (arith, large, digits_value-decimal_within fuel (n / 10) rest))
]

-- The number of a name, from the text that follows it.
number_before : Text → Text → ℕ
unfolding digits_value
number_before tail s = digits_value (drop (suc (length (reverse tail))) (reverse s))

reverse-numbered :
    (stem tail : Text) (n : ℕ)
    → reverse (stem ++ (suffix_of n ++ tail))
      ≡ reverse tail ++ b')' ∷ (reverse (decimal n) ++ b'(' ∷ b' ' ∷ reverse stem)
unfolding suffix_of
reverse-numbered stem tail n = simp (reverse-append, reverse-cons, append_assoc)

drop_past : (xs : Text) (c : ℕ) (ys : Text) → drop (suc (length xs)) (xs ++ c ∷ ys) ≡ ys
drop_past [] c ys = refl
drop_past (x ∷ xs) c ys = drop_past xs c ys

number_before-numbered :
    (stem tail : Text) (n : ℕ) → number_before tail (stem ++ (suffix_of n ++ tail)) ≡ n
unfolding number_before decimal
number_before-numbered stem tail n =
    rw (reverse-numbered stem tail n, drop_past (reverse tail) b')' _)
      (digits_value-decimal_within n n (b' ' ∷ reverse stem) (omega arith))

-- Lowercasing maps the parts before and after a number in parentheses on their own: digits, spaces
-- and parentheses have no case, and keep the letters around them apart.
pub record IsLowercase (to_lowercase : Text → Text) : Type 0 where
  pub apart :
      (stem tail : Text) (n : ℕ)
      → to_lowercase (stem ++ (suffix_of n ++ tail))
        ≡ to_lowercase stem ++ (suffix_of n ++ to_lowercase tail)

module _ (to_lowercase : Text → Text) (lower : IsLowercase to_lowercase) where
  key : Text → ℕ → Text
  key name n = to_lowercase (candidate name n)

  key-number :
      (stem tail : Text) (n : ℕ)
      → number_before (to_lowercase tail) (to_lowercase (numbered stem tail n)) ≡ n
  unfolding numbered
  key-number stem tail n =
      rw
        (lower.apart (truncate stem (max_name_bytes - byte_len (suffix_of n) - byte_len tail)) tail
          n)
        (number_before-numbered _ (to_lowercase tail) n)

  same_number :
      (stem tail : Text) (n m : ℕ)
      → to_lowercase (numbered stem tail n) ≡ to_lowercase (numbered stem tail m)
      → n ≡ m
  same_number stem tail n m h =
      sym (key-number stem tail n)
      ∙ ap (number_before (to_lowercase tail)) h
      ∙ key-number stem tail m

  keeps : Text → ℕ → Bool
  keeps name n = keeps_extension (cut_extension name).1 n

  kept_key :
      (name : Text) (n : ℕ)
      → keeps name n ≡ true
      → candidate name n ≡ numbered (cut_extension name).0 (cut_extension name).1 n
  unfolding candidate keeps
  kept_key name n h = rw h

  dropped_key :
      (name : Text) (n : ℕ) → not (keeps name n) ≡ true → candidate name n ≡ numbered name [] n
  unfolding candidate keeps
  dropped_key name n h = elim (Bool-cases (keeps_extension (cut_extension name).1 n)) [
    | inl t ↦ ground (arith, t)
    | inr t ↦ rw t
  ]

  find_free-none :
      (fuel n : ℕ) (name : Text) (used : List Text)
      → find_free to_lowercase fuel n name used ≡ none
      → All (λ m. contains (key name m) used ≡ true) (from n fuel)
  unfolding find_free key
  find_free-none zero n name used h = tt
  find_free-none (suc fuel) n name used h =
      elim (Bool-cases (contains (to_lowercase (candidate name n)) used)) [
        | inl t ↦ (t, find_free-none fuel (n + 1) name used (ground (arith, t)))
        | inr t ↦ ground (arith, t)
      ]

  find_free_ends :
      (name : Text) (used : List Text)
      → find_free to_lowercase (enough to_lowercase used) 2 name used ≢ none
  unfolding key
  find_free_ends name used h =
      some_outside (key name) (keeps name) used 2
        (λ n m p q e.
          same_number (cut_extension name).0 (cut_extension name).1 n m
            (sym (ap to_lowercase (kept_key name n p)) ∙ e ∙ ap to_lowercase (kept_key name m q)))
        (λ n m p q e. same_number name [] n m (
          sym (ap to_lowercase (dropped_key name n p))
          ∙ e
          ∙ ap to_lowercase (dropped_key name m q)))
        (find_free-none (enough to_lowercase used) 2 name used h)

  find_free_fresh :
      (fuel n : ℕ) (name unique : Text) (used : List Text)
      → find_free to_lowercase fuel n name used ≡ some unique
      → contains (to_lowercase unique) used ≡ false
  unfolding find_free
  find_free_fresh zero n name unique used h = ground arith
  find_free_fresh (suc fuel) n name unique used h =
      elim (Bool-cases (contains (to_lowercase (candidate name n)) used)) [
        | inl t ↦ find_free_fresh fuel (n + 1) name unique used (ground (arith, t))
        | inr t ↦ let e : candidate name n ≡ unique = ground (arith, t, h) in rw (← e) t
      ]

  -- A free name is found, and it is free.
  disambiguate_total :
      (name : Text) (used : List Text)
      → (unique : Text) × (disambiguate to_lowercase name used ≡ some unique)
        × (contains (to_lowercase unique) used ≡ false)
  unfolding disambiguate
  disambiguate_total name used = elim (Bool-cases (contains (to_lowercase name) used)) [
    | inr t ↦ (name, rw t, t)
    | inl t ↦ elim (Option-cases (find_free to_lowercase (enough to_lowercase used) 2 name used)) [
      | inl h ↦ absurd (find_free_ends name used h)
      | inr (unique, h) ↦
          (unique, rw t h, find_free_fresh (enough to_lowercase used) 2 name unique used h)
    ]
  ]

  -- Names whose lowercase is not in a list.
  abbrev pub Unused : List Text → List Text → Type 0
  Unused used us = All (λ u. contains (to_lowercase u) used ≡ false) us

  later-Unused :
      (k : Text) (used us : List Text)
      → Unused (k ∷ used) us
      → All (λ j. k ≢ j) (map to_lowercase us) × Unused used us
  later-Unused k used [] h = (tt, tt)
  later-Unused k used (u ∷ us) h =
      let rest = later-Unused k used us h.1 in
      (
        ((λ e. ground (arith, h.0, text_eq_iff k (to_lowercase u), e)), rest.0),
        (ground (arith, h.0), rest.1),
      )

  export_from_total :
      (index : ℕ) (used names : List Text)
      → (us : List Text) × (export_from to_lowercase index used names ≡ some us)
        × (length us ≡ length names)
        × Different (map to_lowercase us)
        × Unused used us
  unfolding export_from
  export_from_total index used [] = ([], refl, refl, tt, tt)
  export_from_total index used (name ∷ names) =
      let (unique, found, free) = disambiguate_total (sanitize to_lowercase name index) used in
      let (us, made, long, apart, unused) =
        export_from_total (index + 1) (to_lowercase unique ∷ used) names in
      let (differ, others) = later-Unused (to_lowercase unique) used us unused in
      (
        unique ∷ us,
        rw (found, export_from, made),
        omega (arith, long),
        (differ, apart),
        (free, others),
      )

  -- The numbering always ends with a free name: every list of names is exported, one name for
  -- each, and no two exported names are the same in lowercase, for a lowercase that keeps a
  -- number in parentheses and the parts around it apart.
  pub export_names-Different :
      (names : List Text)
      → (us : List Text) × (export_names to_lowercase names ≡ some us)
        × (length us ≡ length names)
        × Different (map to_lowercase us)
  unfolding export_names
  export_names-Different names =
      let (us, made, long, apart, unused) = export_from_total 0 [] names in (us, made, long, apart)
