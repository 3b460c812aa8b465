-- ===== src/Core/Generate/Pins.antt =====
-- crates/pinveil-core/src/generate.rs: what the generators produce.
use pinveil.Base.{
  ℕ, zero, suc, ◌+◌, ◌-◌, ◌*◌, ◌<◌, ◌≡◌, refl, inl, inr, Text, true, List, [], ◌∷◌, some, Result,
  ok, err, ◌>>=◌, Result-cases, length, get_elem?, arith, ap, All, ◌⊎◌,
}
use pinveil.Core.Entropy.{Source, EntropyError, uniform_below}
use pinveil.Core.Entropy.Uniform.{uniform_below-lt}
use pinveil.Core.Wordlist.{Wordlist, wordlist_len, word}
use pinveil.Core.Generate.{
  is_valid_pin, format06, pin, pin_space, draw_word, random_words, DrawError, failed,
}

-- The number that six digits stand for.
abbrev pub digits_value : ℕ → Text → ℕ
digits_value acc [] = acc
digits_value acc (d ∷ ds) = digits_value (acc * 10 + (d - 48)) ds

-- Every PIN that is generated has the accepted shape, and the six digits are those of the value
-- drawn, so that different values are different PINs.
pub format06_valid :
    (v : ℕ) → v < pin_space → (is_valid_pin (format06 v) ≡ true) × (digits_value 0 (format06 v) ≡ v)
unfolding format06 is_valid_pin
format06_valid v h = (ground arith, omega arith)

-- A generated PIN is the six digits of a value below a million, which the digits read back, and
-- has the shape that is_valid_pin accepts.
pub pin_valid :
    (src rest : Source) (p : Text)
    → pin src ≡ ok (p, rest)
    → (v : ℕ) × (v < pin_space)
      × (p ≡ format06 v)
      × (is_valid_pin p ≡ true)
      × (digits_value 0 p ≡ v)
unfolding pin
pin_valid src rest p h = elim (Result-cases (uniform_below src pin_space)) [
  | inr (e, out) ↦ absurd (ground arith)
  | inl ((v, src'), drawn) ↦
      let lt = uniform_below-lt src pin_space v src' (omega arith) drawn in
      let shape = format06_valid v lt in
      let same : p ≡ format06 v = ground arith in (v, lt, same, rw same shape.0, rw same shape.1)
]

word-total : (ws : List Text) (i : ℕ) → i < length ws → (w : Text) × (get_elem? ws i ≡ some w)
word-total [] i h = absurd (omega arith)
word-total (w ∷ ws) zero h = (w, refl)
word-total (w ∷ ws) (suc i) h = word-total ws i (omega arith)

-- A word of the list.
abbrev pub IsListed : Wordlist → Text → Type 0
IsListed list w = (i : ℕ) × (get_elem? list.words i ≡ some w)

draw_word_total :
    (list : Wordlist) (src : Source)
    → length list.words ≡ wordlist_len
    → ((e : EntropyError) × (draw_word list src ≡ err (failed e)))
      ⊎ ((w : Text) × (src' : Source) × (i : ℕ) × (get_elem? list.words i ≡ some w)
          × (draw_word list src ≡ ok (w, src')))
unfolding draw_word word
draw_word_total list src full = elim (Result-cases (uniform_below src wordlist_len)) [
  | inr (e, out) ↦ inl (e, rw (out, draw_word))
  | inl ((i, src'), drawn) ↦
      let lt = uniform_below-lt src wordlist_len i src' (omega arith) drawn in
      let (w, found) = word-total list.words i (omega arith) in
      inr (w, src', i, found, rw (drawn, draw_word, found))
]

-- What a draw of `count` words gives: that many words of the list, or the entropy source's error.
pub data Drawn (list : Wordlist) (count : ℕ) : Result (List Text × Source) DrawError → Type 0 where
  no_entropy : (e : EntropyError) → Drawn list count (err (failed e))
  words :
      (ws : List Text) (src : Source)
      → length ws ≡ count
      → All (IsListed list) ws
      → Drawn list count (ok (ws, src))

-- Over a list of 7776 words a draw of a number of words answers that many words of the list or
-- the error of the entropy source, and never looks up out of range.
pub random_words-Drawn :
    (list : Wordlist) (src : Source) (count : ℕ)
    → length list.words ≡ wordlist_len
    → Drawn list count (random_words list src count)
unfolding random_words
random_words-Drawn list src zero full = words [] src refl tt
random_words-Drawn list src (suc count) full = elim (draw_word_total list src full) [
  | inl (e, out) ↦ rw out (no_entropy e)
  | inr (w, src', i, found, drawn) ↦
      rw drawn (more w i found _ (random_words-Drawn list src' count full))
]
  where
    more :
        (w : Text) (i : ℕ)
        → get_elem? list.words i ≡ some w
        → (r : Result (List Text × Source) DrawError) → Drawn list count r
        → Drawn list (suc count) (r >>= λ p. ok (w ∷ p.0, p.1))
    more w i found _ (no_entropy e) = no_entropy e
    more w i found _ (words ws src'' len listed) =
        words (w ∷ ws) src'' (ap suc len) ((i, found), listed)
