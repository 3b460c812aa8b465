-- ===== src/Core/Wordlist.antt =====
-- crates/pinveil-core/src/wordlist.rs: the wordlist and its checks. The number of entries is an
-- argument of the checks, and `parse` passes the constant.
pub mod Words
pub mod PrefixFree
use pinveil.Base.{
  ℕ, ◌+◌, Text, Bool, true, false, ◌&&◌, ◌||◌, not, List, [], ◌∷◌, Option, none, some, Result, ok,
  err, ok_or, ◌>>=◌, ◌>>◌, refuse_if, leb, ltb, nat_eq, text_eq, get_elem?, length, all, any, max,
  if◌then◌else◌,
}
use pinveil.Base.Strings.{split, split_once, starts_with}

pub record Wordlist : Type 0 where
  pub words : List Text

abbrev pub wordlist_len : ℕ
wordlist_len = 7776

pub data WordlistError : Type 0 where
  wrong_count malformed_line duplicate not_prefix_free : ℕ → WordlistError

unfoldable pub is_dice_byte : ℕ → Bool
is_dice_byte b = leb 49 b && leb b 54

unfoldable pub is_dice_code : Text → Bool
unfolding is_dice_byte
is_dice_code code = nat_eq (length code) 5 && all is_dice_byte code

unfoldable pub is_lowercase : ℕ → Bool
is_lowercase b = leb 97 b && leb b 122

unfoldable pub is_part : Text → Bool
unfolding is_lowercase
is_part part = not (text_eq part []) && all is_lowercase part

unfoldable pub is_word : Text → Bool
unfolding is_part
is_word word = not (text_eq word []) && all is_part (split 45 word)

-- `strip_suffix('\n').unwrap_or(text)`
unfoldable pub strip_newline : Text → Text
strip_newline [] = []
strip_newline (c ∷ []) = if nat_eq c 10 then [] else c ∷ []
strip_newline (c ∷ d ∷ cs) = c ∷ strip_newline (d ∷ cs)

-- `code<TAB>word` with both halves of the right shape.
unfoldable pub entry_of : Text → Option (Text × Text)
unfolding is_dice_code is_word
entry_of line = elim (split_once 9 line) [
  | none ↦ none
  | some (code, word) ↦ if is_dice_code code && is_word word then some (code, word) else none
]

-- The lines from `number` on, with the codes and the words seen before.
unfoldable pub parse_lines :
    ℕ → List Text → List Text → List Text → Result (List Text) WordlistError
unfolding entry_of
parse_lines number codes words [] = ok []
parse_lines number codes words (line ∷ lines) = do
  entry ← ok_or (entry_of line) (malformed_line number)
  refuse_if (any (text_eq entry.0) codes || any (text_eq entry.1) words) (duplicate number)
  rest ← parse_lines (number + 1) (entry.0 ∷ codes) (entry.1 ∷ words) lines
  ok (entry.1 ∷ rest)

-- The order of `str`: by bytes, a prefix first.
unfoldable pub text_le : Text → Text → Bool
text_le [] t = true
text_le (a ∷ s) [] = false
text_le (a ∷ s) (b ∷ t) = ltb a b || (nat_eq a b && text_le s t)

-- The words with their indexes, from `index` on; `order` sorts them by word.
unfoldable pub indexed : ℕ → List Text → List (ℕ × Text)
indexed index [] = []
indexed index (w ∷ ws) = (index, w) ∷ indexed (index + 1) ws

unfoldable pub insert_ordered : ℕ × Text → List (ℕ × Text) → List (ℕ × Text)
unfolding text_le
insert_ordered p [] = p ∷ []
insert_ordered p (q ∷ qs) =
    let rest = insert_ordered p qs in if text_le p.1 q.1 then p ∷ q ∷ qs else q ∷ rest

unfoldable pub order : List (ℕ × Text) → List (ℕ × Text)
unfolding insert_ordered
order [] = []
order (p ∷ ps) = insert_ordered p (order ps)

-- The index of the first word that starts with the word sorted before it.
unfoldable pub find_prefixed : List (ℕ × Text) → Option ℕ
find_prefixed [] = none
find_prefixed (p ∷ []) = none
find_prefixed (p ∷ q ∷ qs) =
    let rest = find_prefixed (q ∷ qs) in if starts_with p.1 q.1 then some q.0 else rest

unfoldable pub check_prefixes : List Text → Result (Unit {0}) WordlistError
unfolding indexed order find_prefixed
check_prefixes words = elim (find_prefixed (order (indexed 0 words))) [
  | some index ↦ err (not_prefix_free (index + 1))
  | none ↦ ok tt
]

unfoldable pub parse_of : ℕ → Text → Result Wordlist WordlistError
unfolding strip_newline parse_lines check_prefixes
parse_of expected text = do
  words ← parse_lines 1 [] [] (split 10 (strip_newline text))
  refuse_if (not (nat_eq (length words) expected)) (wrong_count (length words))
  check_prefixes words
  ok (record { words = words })

unfoldable pub parse : Text → Result Wordlist WordlistError
unfolding parse_of
parse = parse_of wordlist_len

unfoldable pub longest : List Text → ℕ
longest [] = 0
longest (w ∷ ws) = max (length w) (longest ws)

unfoldable pub max_word_len : Wordlist → ℕ
unfolding longest
max_word_len list = longest list.words

-- `words[index]`; `none` is the panic of an index out of range.
unfoldable pub word : Wordlist → ℕ → Option Text
word list index = get_elem? list.words index
