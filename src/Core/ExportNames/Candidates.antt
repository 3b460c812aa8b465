-- ===== src/Core/ExportNames/Candidates.antt =====
-- crates/pinveil-core/src/export_names.rs: a numbered name is as safe as the name it is made of.
use pinveil.Base.{
  ℕ, ◌+◌, ◌-◌, ◌^◌, ◌≤◌, ◌<◌, ◌≡◌, ◌⊎◌, refl, sym, ap, ◌∙◌, inl, inr, Text, [], ◌∷◌, ◌++◌,
  append_assoc, append-nil, some, ltb, nat_eq, codes, Bool-cases, Option-cases, subst, arith,
}
use pinveil.Core.Protocol.{max_name_bytes}
use pinveil.Core.ExportNames.{
  byte_len, is_trailing, trim_matches, trim_end, truncate, decimal, last_dot, cut_extension,
  suffix_of, keeps_extension, numbered, candidate,
}
use pinveil.Core.ExportNames.Safe.{
  IsAllowed, IsSafe, IsAllowed-append, byte_len-append, trim-append, suffix_trimmed, truncate-le,
  truncate-IsAllowed, len-suffix_of, suffix-IsAllowed,
}

-- The extension is the end of the name.
last_dot-append :
    (name stem extension : Text)
    → last_dot name ≡ some (stem, extension)
    → (stem ++ extension ≡ name) × ((rest : Text) × (extension ≡ b'.' ∷ rest))
unfolding last_dot
last_dot-append [] stem extension h = ground arith
last_dot-append (c ∷ cs) stem extension h = elim (Option-cases (last_dot cs)) [
  | inl none_left ↦ elim (Bool-cases (nat_eq c b'.')) [
    | inl dot ↦ (ground (arith, dot, none_left), (cs, ground (arith, dot, none_left)))
    | inr other ↦ ground (arith, other, none_left)
  ]
  | inr (cut, found) ↦
      let parts = cut_again cut found in
      let earlier = last_dot-append cs cut.0 cut.1 found in
      (rw (parts.0, parts.1) (ap (λ r. c ∷ r) earlier.0), (earlier.1.0, parts.1 ∙ earlier.1.1))
]
  where
    cut_again :
        (cut : Text × Text) → last_dot cs ≡ some cut → (stem ≡ c ∷ cut.0) × (extension ≡ cut.1)
    cut_again (a, b) found = (ground (arith, found), ground (arith, found))

-- What may follow a number: nothing, or an extension that needs no trimming.
record IsTail (tail : Text) : Type 0 where
  allowed : IsAllowed tail
  ended : (tail ≡ []) ⊎ ((d : ℕ) × (t : Text) × (tail ≡ d ∷ t) × (trim_end (d ∷ t) ≡ d ∷ t))

closed : (before : Text) → trim_end (before ++ b')' ∷ []) ≡ before ++ b')' ∷ []
unfolding trim_end
closed before = trim-append is_trailing before b')' [] (unfold trim_matches in refl)

suffix-trimmed :
    (before tail : Text) (n : ℕ)
    → IsTail tail
    → trim_end (before ++ (suffix_of n ++ tail)) ≡ before ++ (suffix_of n ++ tail)
unfolding suffix_of
suffix-trimmed before tail n t = elim t.ended [
  | inl bare ↦
      let front : Text = codes " (" ++ decimal n in
      let path : before ++ (suffix_of n ++ tail) ≡ (before ++ front) ++ b')' ∷ [] =
        ap (λ r. before ++ (suffix_of n ++ r)) bare
        ∙ ap (λ r. before ++ r) (append-nil (suffix_of n))
        ∙ sym (append_assoc before front (b')' ∷ [])) in
      subst (λ r. trim_end r ≡ r) (sym path) (closed (before ++ front))
  | inr (d, rest, e, kept) ↦
      let path : before ++ (suffix_of n ++ tail) ≡ (before ++ suffix_of n) ++ d ∷ rest =
        ap (λ r. before ++ (suffix_of n ++ r)) e
        ∙ sym (append_assoc before (suffix_of n) (d ∷ rest)) in
      subst (λ r. trim_end r ≡ r) (sym path) (extended d rest kept)
]
  where
    extended :
        (d : ℕ) (rest : Text)
        → trim_end (d ∷ rest) ≡ d ∷ rest
        → trim_end ((before ++ suffix_of n) ++ d ∷ rest) ≡ (before ++ suffix_of n) ++ d ∷ rest
    extended d rest kept =
        unfold trim_end in trim-append is_trailing (before ++ suffix_of n) d rest kept

numbered-IsSafe :
    (stem tail : Text) (n : ℕ)
    → IsAllowed stem
    → IsTail tail
    → byte_len (suffix_of n) + byte_len tail ≤ max_name_bytes
    → IsSafe (numbered stem tail n)
unfolding numbered
numbered-IsSafe stem tail n h t fits =
    let room = max_name_bytes - byte_len (suffix_of n) - byte_len tail in
    record {
      short =
          rw
            (
              byte_len-append (truncate stem room) (suffix_of n ++ tail),
              byte_len-append (suffix_of n) tail,
            )
            (omega (arith, truncate-le stem room, fits));
      allowed =
          IsAllowed-append (truncate stem room) (suffix_of n ++ tail)
            (truncate-IsAllowed stem room h)
            (IsAllowed-append (suffix_of n) tail (suffix-IsAllowed n) t.allowed);
      trimmed = suffix-trimmed (truncate stem room) tail n t;
    }

IsAllowed-parts : (s t : Text) → IsAllowed (s ++ t) → IsAllowed s × IsAllowed t
IsAllowed-parts [] t h = (tt, h)
IsAllowed-parts (c ∷ s) t h = let rest = IsAllowed-parts s t h.1 in ((h.0, rest.0), rest.1)

extension-IsTail :
    (name stem extension : Text)
    → IsSafe name
    → (stem ++ extension ≡ name) × ((rest : Text) × (extension ≡ b'.' ∷ rest))
    → IsAllowed stem × IsTail extension
unfolding trim_end
extension-IsTail name stem extension safe (whole, (rest, e)) =
    let parts = IsAllowed-parts stem extension (subst IsAllowed (sym whole) safe.allowed) in
    let ends : stem ++ b'.' ∷ rest ≡ name = ap (λ r. stem ++ r) (sym e) ∙ whole in
    let kept : trim_end (stem ++ b'.' ∷ rest) ≡ stem ++ b'.' ∷ rest =
      subst (λ r. trim_end r ≡ r) (sym ends) safe.trimmed in
    (
      parts.0,
      record {
        allowed = parts.1;
        ended = inr (b'.', rest, e, suffix_trimmed is_trailing stem b'.' rest kept);
      },
    )

whole_name : (name : Text) → IsSafe name → IsAllowed name × IsTail []
whole_name name safe = (safe.allowed, record { allowed = tt; ended = inl refl })

cut_extension-IsTail :
    (name : Text) → IsSafe name → IsAllowed (cut_extension name).0 × IsTail (cut_extension name).1
unfolding cut_extension
cut_extension-IsTail name safe = elim (Option-cases (last_dot name)) [
  | inl h ↦ rw (h, cut_extension) (whole_name name safe)
  | inr (([], extension), h) ↦ rw (h, cut_extension) (whole_name name safe)
  | inr ((c ∷ cs, extension), h) ↦
      rw (h, cut_extension)
        (extension-IsTail name (c ∷ cs) extension safe (last_dot-append name (c ∷ cs) extension h))
]

pub candidate-IsSafe : (name : Text) (n : ℕ) → n < 2 ^ 64 → IsSafe name → IsSafe (candidate name n)
unfolding candidate keeps_extension
candidate-IsSafe name n fits safe =
    elim (Bool-cases
      (ltb (byte_len (suffix_of n) + byte_len (cut_extension name).1) max_name_bytes)) [
        | inl t ↦ rw t (
            numbered-IsSafe (cut_extension name).0 (cut_extension name).1 n
              (cut_extension-IsTail name safe).0 (cut_extension-IsTail name safe).1
              (ground (arith, t)))
        | inr t ↦ rw t (
            numbered-IsSafe name [] n safe.allowed (whole_name name safe).1
              (unfold byte_len in omega (arith, len-suffix_of n fits)))
      ]
