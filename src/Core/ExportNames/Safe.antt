-- ===== src/Core/ExportNames/Safe.antt =====
-- crates/pinveil-core/src/export_names.rs: what every exported name is like.
use pinveil.Base.{
  ℕ, zero, suc, ◌+◌, ◌-◌, ◌*◌, ◌/◌, ◌%◌, ◌^◌, ◌≤◌, ◌<◌, ◌≡◌, refl, ap, inl, inr, Text, Bool, true,
  false, [], ◌∷◌, ◌++◌, append_assoc, leb, ltb, All, codes, Bool-cases, arith,
}
use native.Mathlib.Nat.{pow-suc}
use pinveil.Core.Protocol.{max_name_bytes}
use pinveil.Core.ExportNames.{
  is_control, is_forbidden, len_utf8, byte_len, is_trailing, cons_kept, trim_matches, trim_end,
  fitting, truncate, decimal_within, decimal, suffix_of,
}

abbrev pub IsAllowed : Text → Type 0
IsAllowed s = All (λ c. is_forbidden c ≡ false) s

-- A name of at most 255 bytes, without a character that a platform forbids, and without a dot or
-- space at its end.
pub record IsSafe (s : Text) : Type 0 where
  pub short : byte_len s ≤ max_name_bytes
  pub allowed : All (λ c. is_forbidden c ≡ false) s
  pub trimmed : trim_end s ≡ s

pub IsAllowed-append : (s t : Text) → IsAllowed s → IsAllowed t → IsAllowed (s ++ t)
IsAllowed-append [] t h k = k
IsAllowed-append (c ∷ s) t h k = (h.0, IsAllowed-append s t h.1 k)

pub byte_len-append : (s t : Text) → byte_len (s ++ t) ≡ byte_len s + byte_len t
unfolding byte_len
byte_len-append [] t = omega arith
byte_len-append (c ∷ s) t = omega (arith, byte_len-append s t)

-- Trimming.
pub trim-le : (test : ℕ → Bool) (s : Text) → byte_len (trim_matches test s) ≤ byte_len s
unfolding trim_matches byte_len
trim-le test [] = omega arith
trim-le test (c ∷ cs) = kept-le (test c) (trim_matches test cs) (trim-le test cs)
  where
    kept-le :
        (b : Bool) (t : Text)
        → byte_len t ≤ byte_len cs
        → byte_len (cons_kept b c t) ≤ len_utf8 c + byte_len cs
    kept-le true [] h = omega arith
    kept-le true (d ∷ ds) h = omega (arith, h)
    kept-le false t h = omega (arith, h)

pub trim-IsAllowed : (test : ℕ → Bool) (s : Text) → IsAllowed s → IsAllowed (trim_matches test s)
unfolding trim_matches
trim-IsAllowed test [] h = tt
trim-IsAllowed test (c ∷ cs) h = kept (test c) (trim_matches test cs) (trim-IsAllowed test cs h.1)
  where
    kept : (b : Bool) (t : Text) → IsAllowed t → IsAllowed (cons_kept b c t)
    kept true [] k = tt
    kept true (d ∷ ds) k = (h.0, k)
    kept false t k = (h.0, k)

pub trim_idem :
    (test : ℕ → Bool) (s : Text) → trim_matches test (trim_matches test s) ≡ trim_matches test s
unfolding trim_matches
trim_idem test [] = refl
trim_idem test (c ∷ cs) = elim (Bool-cases (test c)) [
  | inl t ↦ rw t (kept (trim_matches test cs) (trim_idem test cs) t)
  | inr t ↦ rw (t, trim_matches, t) (ap (λ r. c ∷ r) (trim_idem test cs))
]
  where
    kept :
        (r : Text)
        → trim_matches test r ≡ r
        → test c ≡ true
        → trim_matches test (cons_kept true c r) ≡ cons_kept true c r
    kept [] h t = refl
    kept (d ∷ ds) h t = rw (t, h)

kept_cons : (b : Bool) (c d : ℕ) (t : Text) → cons_kept b c (d ∷ t) ≡ c ∷ d ∷ t
unfolding cons_kept
kept_cons true c d t = refl
kept_cons false c d t = refl

-- A text that ends in a trimmed text is trimmed.
pub trim-append :
    (test : ℕ → Bool) (s : Text) (d : ℕ) (t : Text)
    → trim_matches test (d ∷ t) ≡ d ∷ t
    → trim_matches test (s ++ d ∷ t) ≡ s ++ d ∷ t
unfolding trim_matches
trim-append test [] d t h = h
trim-append test (c ∷ []) d t h = rw h (kept_cons (test c) c d t)
trim-append test (c ∷ e ∷ s) d t h = rw (trim-append test (e ∷ s) d t h) (kept_cons (test c) c e _)

pub suffix_trimmed :
    (test : ℕ → Bool) (s : Text) (d : ℕ) (t : Text)
    → trim_matches test (s ++ d ∷ t) ≡ s ++ d ∷ t
    → trim_matches test (d ∷ t) ≡ d ∷ t
unfolding trim_matches
suffix_trimmed test [] d t h = h
suffix_trimmed test (c ∷ s) d t h =
    suffix_trimmed test s d t (uncons (test c) (trim_matches test (s ++ d ∷ t)) h)
  where
    uncons : (b : Bool) (r : Text) → cons_kept b c r ≡ c ∷ (s ++ d ∷ t) → r ≡ s ++ d ∷ t
    uncons true [] k = ground arith
    uncons true (e ∷ es) k = ground arith
    uncons false r k = ground arith

-- Cutting to a number of bytes.
fitting-le : (room : ℕ) (s : Text) → byte_len (fitting room s) ≤ room
unfolding fitting byte_len
fitting-le room [] = omega arith
fitting-le room (c ∷ cs) = ground (arith, fitting-le (room - len_utf8 c) cs)

fitting-IsAllowed : (room : ℕ) (s : Text) → IsAllowed s → IsAllowed (fitting room s)
unfolding fitting
fitting-IsAllowed room [] h = tt
fitting-IsAllowed room (c ∷ cs) h = elim (Bool-cases (leb (len_utf8 c) room)) [
  | inl t ↦ rw t (h.0, fitting-IsAllowed (room - len_utf8 c) cs h.1)
  | inr t ↦ rw t tt
]

pub truncate-le : (s : Text) (room : ℕ) → byte_len (truncate s room) ≤ room
unfolding truncate
truncate-le s room = ground (arith, fitting-le room s)

pub truncate-IsAllowed : (s : Text) (room : ℕ) → IsAllowed s → IsAllowed (truncate s room)
unfolding truncate
truncate-IsAllowed s room h = elim (Bool-cases (leb (byte_len s) room)) [
  | inl t ↦ rw t h
  | inr t ↦ rw t (fitting-IsAllowed room s h)
]

-- Numbers in decimal.
digit_allowed : (d : ℕ) → d < 10 → is_forbidden (d + b'0') ≡ false
unfolding is_forbidden is_control
digit_allowed d h = ground arith

digit_last : (s : Text) (d : ℕ) → d < 10 → trim_end (s ++ (d + b'0') ∷ []) ≡ s ++ (d + b'0') ∷ []
unfolding trim_end
digit_last s d h = trim-append is_trailing s (d + b'0') [] (unfold trim_matches in ground arith)

pub decimal_within-IsAllowed : (fuel n : ℕ) → IsAllowed (decimal_within fuel n)
unfolding decimal_within
decimal_within-IsAllowed zero n = (digit_allowed (n % 10) (omega arith), tt)
decimal_within-IsAllowed (suc fuel) n = elim (Bool-cases (ltb n 10)) [
  | inl t ↦ rw t (digit_allowed n (ground arith), tt)
  | inr t ↦ rw t (
      IsAllowed-append (decimal_within fuel (n / 10)) ((n % 10 + b'0') ∷ [])
        (decimal_within-IsAllowed fuel (n / 10)) (digit_allowed (n % 10) (omega arith), tt))
]

-- Whatever stands before a number, it is no text to trim.
pub decimal_within-trimmed :
    (before : Text) (fuel n : ℕ)
    → trim_end (before ++ decimal_within fuel n) ≡ before ++ decimal_within fuel n
unfolding decimal_within
decimal_within-trimmed before zero n = digit_last before (n % 10) (omega arith)
decimal_within-trimmed before (suc fuel) n = elim (Bool-cases (ltb n 10)) [
  | inl t ↦ rw t (digit_last before n (ground arith))
  | inr t ↦
      rw (t, ← append_assoc before (decimal_within fuel (n / 10)) ((n % 10 + b'0') ∷ []))
        (digit_last (before ++ decimal_within fuel (n / 10)) (n % 10) (omega arith))
]

len-digit : (d : ℕ) → d < 10 → len_utf8 (d + b'0') ≡ 1
unfolding len_utf8
len-digit d h = ground arith

len-decimal_within : (k fuel n : ℕ) → n < 10 * 10 ^ k → byte_len (decimal_within fuel n) ≤ k + 1
unfolding decimal_within byte_len
len-decimal_within k zero n h = omega (arith, len-digit (n % 10))
len-decimal_within zero (suc fuel) n h =
    let small : ltb n 10 ≡ true = ground (arith, h) in
    rw small (omega (arith, len-digit n (omega (arith, h))))
len-decimal_within (suc k) (suc fuel) n h = elim (Bool-cases (ltb n 10)) [
  | inl t ↦ rw t (ground (arith, len-digit n))
  | inr t ↦
      rw (t, byte_len-append (decimal_within fuel (n / 10)) ((n % 10 + b'0') ∷ []))
        (omega (
          arith,
          len-digit (n % 10) (omega arith),
          len-decimal_within k fuel (n / 10) (omega (arith, h, pow-suc 10 k)),
        ))
]

-- A number of 64 bits has at most 20 digits.
pub len-decimal : (n : ℕ) → n < 2 ^ 64 → byte_len (decimal n) ≤ 20
unfolding decimal
len-decimal n h = len-decimal_within 19 n n (omega arith)

pub len-suffix_of : (n : ℕ) → n < 2 ^ 64 → byte_len (suffix_of n) ≤ 23
unfolding suffix_of
len-suffix_of n h =
    rw
      (
        byte_len-append (codes " (") (decimal n ++ codes ")"),
        byte_len-append (decimal n) (codes ")"),
      )
      (omega (arith, len-decimal n h, parentheses))
  where
    parentheses : byte_len (codes " (") + byte_len (codes ")") ≡ 3
    parentheses = unfold byte_len len_utf8 in refl

pub suffix-IsAllowed : (n : ℕ) → IsAllowed (suffix_of n)
unfolding suffix_of decimal is_forbidden is_control
suffix-IsAllowed n = (
  refl,
  (refl, IsAllowed-append (decimal n) (codes ")") (decimal_within-IsAllowed n n) (refl, tt)),
)
