-- ===== src/Core/Wordlist/Words.antt =====
-- crates/pinveil-core/src/wordlist.rs: the shape of the words that are accepted.
use pinveil.Base.{
  ℕ, ◌+◌, ◌≡◌, ◌≢◌, refl, inl, inr, Text, Bool, true, ◌&&◌, ◌||◌, List, [], ◌∷◌, some, ok, ok_or,
  nat_eq, text_eq, text_eq_iff, all, any, All, Bool-cases, Option-cases, arith, bind_ok,
  refuse_if_ok, ok_or_ok, ok_injective, subst,
}
use pinveil.Base.Strings.{split, split_once, cons_piece}
use pinveil.Core.Wordlist.{
  malformed_line, duplicate, is_dice_code, is_lowercase, is_part, is_word, entry_of, parse_lines,
}

-- A byte of a word.
unfoldable pub is_word_byte : ℕ → Bool
is_word_byte b = is_lowercase b || nat_eq b 45

split-is_word_byte :
    (word : Text) → all (all is_lowercase) (split 45 word) ≡ true → all is_word_byte word ≡ true
unfolding split is_word_byte
split-is_word_byte [] h = refl
split-is_word_byte (c ∷ cs) h = elim (Bool-cases (nat_eq c 45)) [
  | inl t ↦ ground (arith, t, split-is_word_byte cs)
  | inr t ↦ piece c cs (split 45 cs) (ground (arith, t)) (split-is_word_byte cs)
]
  where
    piece :
        (c : ℕ) (cs : Text) (ps : List Text)
        → all (all is_lowercase) (cons_piece c ps) ≡ true
        → (all (all is_lowercase) ps ≡ true → all is_word_byte cs ≡ true)
        → all is_word_byte (c ∷ cs) ≡ true
    piece c cs [] h rest = ground (arith, rest)
    piece c cs (p ∷ ps) h rest = ground (arith, rest)

all-is_part : (parts : List Text) → all is_part parts ≡ true → all (all is_lowercase) parts ≡ true
unfolding is_part
all-is_part [] h = refl
all-is_part (p ∷ ps) h = ground (arith, all-is_part ps)

-- A word is not empty and has lowercase letters and hyphens only.
abbrev pub IsWord : Text → Type 0
IsWord word = (word ≢ []) × (all is_word_byte word ≡ true)

is_word-IsWord : (word : Text) → is_word word ≡ true → IsWord word
unfolding is_word
is_word-IsWord word h =
    let parts : all is_part (split 45 word) ≡ true = ground arith in
    (
      λ empty. ground (arith, (text_eq_iff word []).1 empty),
      split-is_word_byte word (all-is_part (split 45 word) parts),
    )

entry_of-IsWord : (line code word : Text) → entry_of line ≡ some (code, word) → IsWord word
unfolding entry_of
entry_of-IsWord line code word h = elim (Option-cases (split_once 9 line)) [
  | inl eq ↦ ground (arith, eq)
  | inr ((c, w), eq) ↦ elim (Bool-cases (is_dice_code c && is_word w)) [
    | inr bad ↦ ground (arith, eq, bad)
    | inl good ↦ subst IsWord (ground (arith, eq, good)) (is_word-IsWord w (ground (arith, good)))
  ]
]

pub parse_lines-IsWord :
    (number : ℕ) (codes words lines result : List Text)
    → parse_lines number codes words lines ≡ ok result
    → All IsWord result
unfolding parse_lines
parse_lines-IsWord number codes words [] result h = subst (All IsWord) (ok_injective _ _ h) tt
parse_lines-IsWord number codes words (line ∷ lines) result h =
    let s1 = bind_ok (ok_or (entry_of line) (malformed_line number)) _ result h in
    let s2 =
      refuse_if_ok (any (text_eq s1.0.0) codes || any (text_eq s1.0.1) words) (duplicate number) _
        result s1.1.1 in
    let s3 =
      bind_ok (parse_lines (number + 1) (s1.0.0 ∷ codes) (s1.0.1 ∷ words) lines) _ result s2.1 in
    subst (All IsWord) (ok_injective _ _ s3.1.1) (
      entry_of-IsWord line s1.0.0 s1.0.1 (ok_or_ok _ _ _ s1.1.0),
      parse_lines-IsWord (number + 1) (s1.0.0 ∷ codes) (s1.0.1 ∷ words) lines s3.0 s3.1.0,
    )
