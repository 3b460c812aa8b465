-- ===== src/Core/Generate.antt =====
-- crates/pinveil-core/src/generate.rs: PINs and passphrases.
pub mod Pins
use pinveil.Base.{
  ℕ, zero, suc, ◌+◌, ◌-◌, ◌*◌, ◌/◌, ◌%◌, ◌^◌, Text, Bool, true, false, ◌&&◌, List, [], ◌∷◌, ◌++◌,
  Option, none, some, Result, ok, err, ◌>>=◌, leb, nat_eq, length, all, codes,
}
use pinveil.Core.Entropy.{Source, EntropyError, entropy_error, uniform_below}
use pinveil.Core.Wordlist.{Wordlist, wordlist_len, word}

abbrev pub pin_digits : ℕ
pin_digits = 6

abbrev pub pin_space : ℕ
pin_space = 1_000_000

abbrev pub passphrase_words : ℕ
passphrase_words = 4

unfoldable pub is_ascii_digit : ℕ → Bool
is_ascii_digit b = leb 48 b && leb b 57

unfoldable pub is_valid_pin : Text → Bool
unfolding is_ascii_digit
is_valid_pin pin = nat_eq (length pin) pin_digits && all is_ascii_digit pin

-- `format!("{value:06}")` at a value below a million.
unfoldable pub format06 : ℕ → Text
format06 v =
    (48 + v / 100_000 % 10)
    ∷ (48 + v / 10_000 % 10)
    ∷ (48 + v / 1_000 % 10)
    ∷ (48 + v / 100 % 10)
    ∷ (48 + v / 10 % 10)
    ∷ (48 + v % 10)
    ∷ []

unfoldable pub pin : Source → Result (Text × Source) EntropyError
unfolding format06
pin src = do (value, src') ← uniform_below src pin_space; ok (format06 value, src')

-- `.map(|i| wordlist.word(i))` for one draw; an index out of range is a panic.
pub data DrawError : Type 0 where
  failed : EntropyError → DrawError
  panicked : DrawError

unfoldable pub draw_word : Wordlist → Source → Result (Text × Source) DrawError
unfolding word
draw_word list src = elim (uniform_below src wordlist_len) [
  | err e ↦ err (failed e)
  | ok (i, src') ↦ elim (word list i) [ none ↦ err panicked | some w ↦ ok (w, src') ]
]

unfoldable pub random_words : Wordlist → Source → ℕ → Result (List Text × Source) DrawError
unfolding draw_word
random_words list src zero = ok ([], src)
random_words list src (suc count) = do
  (w, src') ← draw_word list src
  (ws, src'') ← random_words list src' count
  ok (w ∷ ws, src'')

-- `[&str]::join`
unfoldable pub join : Text → List Text → Text
join sep [] = []
join sep (w ∷ []) = w
join sep (w ∷ x ∷ ws) = w ++ (sep ++ join sep (x ∷ ws))

unfoldable pub passphrase : Wordlist → Source → Result (Text × Source) DrawError
unfolding random_words join
passphrase list src = do
  (words, src') ← random_words list src passphrase_words
  ok (join (codes "-") words, src')
