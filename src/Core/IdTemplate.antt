-- ===== src/Core/IdTemplate.antt =====
-- crates/pinveil-core/src/id_template.rs: templates of message ids.
pub mod Loop
pub mod Ids
pub mod Generated
use pinveil.Base.{
  ℕ, zero, suc, ◌+◌, ◌-◌, ◌*◌, Text, Bool, true, false, ◌&&◌, ◌||◌, not, List, [], ◌∷◌, ◌++◌,
  Option, none, some, Result, ok, err, ◌>>=◌, ◌>>◌, refuse_if, leb, ltb, nat_eq, text_eq, length,
  get_elem?, take, drop, all, any, codes, if◌then◌else◌,
}
use pinveil.Base.Strings.{find, split_once, starts_with}
use pinveil.Core.Entropy.{Source, EntropyError, uniform_below}
use pinveil.Core.Wordlist.{Wordlist, max_word_len}
use pinveil.Core.Generate.{is_ascii_digit, DrawError, failed, panicked, random_words, join}

abbrev pub max_template_bytes : ℕ
max_template_bytes = 256

abbrev pub max_id_len : ℕ
max_id_len = 128

abbrev pub max_count : ℕ
max_count = 64

abbrev pub digits_alphabet : Text
digits_alphabet = codes "0123456789"

abbrev pub lower_alnum : Text
lower_alnum = codes "abcdefghijklmnopqrstuvwxyz0123456789"

abbrev pub mixed_alnum : Text
mixed_alnum = codes "ABCDEFGHIJKLMNOPQRSTUVWXYZabcdefghijklmnopqrstuvwxyz0123456789"

unfoldable pub is_id_byte : ℕ → Bool
unfolding is_ascii_digit
is_id_byte b =
    ((leb 65 b && leb b 90) || ((leb 97 b && leb b 122) || is_ascii_digit b))
    || (nat_eq b 45 || (nat_eq b 46 || (nat_eq b 95 || nat_eq b 126)))

unfoldable pub is_valid_id : Text → Bool
unfolding is_id_byte
is_valid_id id =
    not (text_eq id [])
    && (not (text_eq id (codes ".")) && (not (text_eq id (codes "..")) && all is_id_byte id))

pub data Segment : Type 0 where
  literal : Text → Segment
  words : ℕ → Segment
  digits : ℕ → Segment
  alnum : ℕ → Bool → Segment

pub record IdTemplate : Type 0 where
  pub source : Text
  pub segments : List Segment
  pub max_len : ℕ
  pub wordlist : Wordlist

-- The messages of a refusal, without their wording.
pub data Reason : Type 0 where
  too_many_bytes never_closed nested no_matching not_allowed : Reason
  no_placeholder id_too_long needs_a_count unknown_placeholder bad_count : Reason

pub record TemplateError : Type 0 where
  pub offset : Option ℕ
  pub reason : Reason

abbrev pub fail_at {ℓ} : {A : Type ℓ} → ℕ → Reason → Result A TemplateError
fail_at offset reason = err (record { offset = some offset; reason = reason })

abbrev pub fail_whole {ℓ} : {A : Type ℓ} → Reason → Result A TemplateError
fail_whole reason = err (record { offset = none; reason = reason })

-- `text.parse::<u8>()` on one or two digits; any other text is refused whatever it parses to.
unfoldable pub count_value : Text → ℕ
count_value (d ∷ []) = d - 48
count_value (d ∷ e ∷ []) = (d - 48) * 10 + (e - 48)
count_value _ = 0

unfoldable pub parse_count : Text → ℕ → Result ℕ TemplateError
unfolding is_ascii_digit count_value
parse_count text offset =
    if ((leb 1 (length text) && leb (length text) 2)
        && (all is_ascii_digit text && not (starts_with (codes "0") text)))
      && leb (count_value text) max_count
    then ok (count_value text)
    else fail_at offset bad_count

unfoldable pub needs_count : Option ℕ → ℕ → Result ℕ TemplateError
needs_count none start = fail_at start needs_a_count
needs_count (some n) start = ok n

unfoldable pub count_or_one : Option ℕ → ℕ
count_or_one none = 1
count_or_one (some n) = n

unfoldable pub segment_named : Text → Option ℕ → ℕ → Result Segment TemplateError
unfolding needs_count count_or_one
segment_named name count start =
    if text_eq name (codes "word")
    then ok (words (count_or_one count))
    else if text_eq name (codes "digits")
    then (needs_count count start >>= λ n. ok (digits n))
    else if text_eq name (codes "alnum")
    then (needs_count count start >>= λ n. ok (alnum n false))
    else if text_eq name (codes "Alnum")
    then (needs_count count start >>= λ n. ok (alnum n true))
    else fail_at start unknown_placeholder

unfoldable pub placeholder : Text → ℕ → Result Segment TemplateError
unfolding parse_count segment_named
placeholder body start = elim (split_once 58 body) [
  | none ↦ segment_named body none start
  | some (name, text) ↦ do
    count ← parse_count text (start + length name + 1)
    segment_named name (some count) start
]

-- `if !literal.is_empty() { segments.push(..) }`, before the segments that follow.
unfoldable pub flush : Text → List Segment → List Segment
flush [] segments = segments
flush (c ∷ cs) segments = literal (c ∷ cs) ∷ segments

-- The placeholder that a `{` at byte `i` opens, with the offset of its end in the rest.
unfoldable pub placeholder_at : ℕ → Text → Result (Segment × ℕ) TemplateError
unfolding placeholder
placeholder_at i rest = elim (find 125 rest) [
  | none ↦ fail_at i never_closed
  | some close ↦ elim (find 123 (take close rest)) [
    | some inner ↦ fail_at (i + 1 + inner) nested
    | none ↦ placeholder (take close rest) (i + 1) >>= λ segment. ok (segment, close)
  ]
]

-- The loop at byte `i`, on the rest of the text and the literal read so far. Each round takes a
-- byte at least off the rest; `none` is a loop that is out of fuel.
unfoldable pub parse_from : ℕ → ℕ → Text → Text → Option (Result (List Segment) TemplateError)
unfolding placeholder_at flush is_id_byte
parse_from fuel i [] lit = some (ok (flush lit []))
parse_from zero i (b ∷ rest) lit = none
parse_from (suc fuel) i (b ∷ rest) lit = elim (nat_eq b 123) [
  | true ↦ elim (placeholder_at i rest) [
    | err e ↦ some (err e)
    | ok (segment, close) ↦ elim (parse_from fuel (i + 1 + close + 1) (drop (close + 1) rest) []) [
      | none ↦ none
      | some tail ↦ some (tail >>= λ segments. ok (flush lit (segment ∷ segments)))
    ]
  ]
  | false ↦ elim (nat_eq b 125) [
    | true ↦ some (fail_at i no_matching)
    | false ↦ elim (is_id_byte b) [
      | true ↦ parse_from fuel (i + 1) rest (lit ++ b ∷ [])
      | false ↦ some (fail_at i not_allowed)
    ]
  ]
]

unfoldable pub is_placeholder : Segment → Bool
is_placeholder (literal _) = false
is_placeholder _ = true

unfoldable pub segment_len : ℕ → Segment → ℕ
segment_len longest_word (literal text) = length text
segment_len longest_word (words n) = n * (longest_word + 1) - 1
segment_len longest_word (digits n) = n
segment_len longest_word (alnum n upper) = n

unfoldable pub total_len : ℕ → List Segment → ℕ
unfolding segment_len
total_len longest_word [] = 0
total_len longest_word (s ∷ ss) = segment_len longest_word s + total_len longest_word ss

-- What follows the loop: at least one placeholder, and the worst case.
unfoldable pub validate : Text → Wordlist → List Segment → Result IdTemplate TemplateError
unfolding is_placeholder total_len
validate text list segments =
    if not (any is_placeholder segments)
    then fail_whole no_placeholder
    else (if ltb max_id_len (total_len (max_word_len list) segments)
        then fail_whole id_too_long
        else ok (record {
          source = text;
          segments = segments;
          max_len = total_len (max_word_len list) segments;
          wordlist = list;
        }))

unfoldable pub parse : Text → Wordlist → Option (Result IdTemplate TemplateError)
unfolding parse_from validate
parse text list =
    if ltb max_template_bytes (length text)
    then some (fail_whole too_many_bytes)
    else (elim (parse_from (length text) 0 text []) [
      | none ↦ none
      | some parsed ↦ some (parsed >>= validate text list)
    ])

unfoldable pub push_chars : ℕ → Text → Source → Result (Text × Source) DrawError
push_chars zero alphabet src = ok ([], src)
push_chars (suc count) alphabet src = elim (uniform_below src (length alphabet)) [
  | err e ↦ err (failed e)
  | ok (index, src') ↦ elim (get_elem? alphabet index) [
    | none ↦ err panicked
    | some c ↦ push_chars count alphabet src' >>= λ p. ok (c ∷ p.0, p.1)
  ]
]

unfoldable pub alphabet_of : Bool → Text
alphabet_of true = mixed_alnum
alphabet_of false = lower_alnum

unfoldable pub generate_segment : Wordlist → Segment → Source → Result (Text × Source) DrawError
unfolding push_chars alphabet_of
generate_segment list (literal text) src = ok (text, src)
generate_segment list (words n) src =
    random_words list src n >>= λ p. ok (join (codes "-") p.0, p.1)
generate_segment list (digits n) src = push_chars n digits_alphabet src
generate_segment list (alnum n upper) src = push_chars n (alphabet_of upper) src

unfoldable pub generate_all : Wordlist → List Segment → Source → Result (Text × Source) DrawError
unfolding generate_segment
generate_all list [] src = ok ([], src)
generate_all list (s ∷ ss) src = do
  (part, src') ← generate_segment list s src
  (rest, src'') ← generate_all list ss src'
  ok (part ++ rest, src'')

unfoldable pub generate : IdTemplate → Source → Result (Text × Source) DrawError
unfolding generate_all
generate template src = generate_all template.wordlist template.segments src
