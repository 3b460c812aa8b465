-- ===== src/Tests/CoreRuns.antt =====
-- Runs of the protocol's encodings and generators.
use pinveil.Base.{
  ℕ, zero, suc, ◌+◌, ◌/◌, ◌%◌, ◌^◌, ◌*◌, ◌≡◌, ◌≤◌, ◌<◌, ◌↔◌, refl, ap, Text, true, List, [], ◌∷◌,
  some, Result, All, arith, codes, length, text_eq,
}
use pinveil.Base.Strings.{split, split_once, starts_with, find}
use pinveil.Core.Entropy.{Source, accepts, uniform_below}
use pinveil.Core.Entropy.Uniform.{accepts_iff}
use pinveil.Core.Generate.{pin, format06, is_valid_pin, pin_space}
use pinveil.Core.Generate.Pins.{pin_valid, digits_value}
use pinveil.Core.Wordlist.{Wordlist, parse_of}
use pinveil.Core.Wordlist.{is_lowercase}
use pinveil.Core.Wordlist.Words.{IsWord, is_word_byte}
use pinveil.Core.Wordlist.PrefixFree.{Free, Pairwise, parse_of-Free}
use pinveil.Core.IdTemplate
use pinveil.Core.IdTemplate.{IdTemplate, TemplateError, is_valid_id, generate}
use pinveil.Core.IdTemplate.Loop.{parse-total}
use pinveil.Core.IdTemplate.Ids.{Outcome}
use pinveil.Core.IdTemplate.Generated.{generate-valid}

accepts_iff_example :
    ((accepts 7776 7777 ≡ true) × (7777 % 7776 ≡ 1))
    ↔ ((7777 / 7776 < 2 ^ 32 / 7776) × (7777 ≡ 7776 * (7777 / 7776) + 1))
accepts_iff_example = accepts_iff 7776 1 7777 (omega arith) (omega arith)

abbrev digits_source : Source
digits_source = 0 ∷ 0 ∷ 0 ∷ 42 ∷ []

pin_valid_example :
    (v : ℕ) × (v < pin_space)
    × (codes "000042" ≡ format06 v)
    × (is_valid_pin (codes "000042") ≡ true)
    × (digits_value 0 (codes "000042") ≡ v)
unfolding pin uniform_below
pin_valid_example = pin_valid digits_source [] (codes "000042") refl

abbrev repeated : ℕ → List Text
repeated zero = []
repeated (suc n) = codes "ab" ∷ repeated n

length-repeated : (n : ℕ) → length (repeated n) ≡ n
length-repeated zero = refl
length-repeated (suc n) = ap suc (length-repeated n)

repeated-IsWord : (n : ℕ) → All IsWord (repeated n)
unfolding is_word_byte is_lowercase
repeated-IsWord zero = tt
repeated-IsWord (suc n) = ((λ e. ground (arith, e), refl), repeated-IsWord n)

abbrev long_list : Wordlist
long_list = record { words = repeated 7776 }

parse_of-Free_example :
    (length (codes "ab" ∷ codes "t-x" ∷ []) ≡ 2)
    × (All IsWord (codes "ab" ∷ codes "t-x" ∷ []) × Pairwise Free (codes "ab" ∷ codes "t-x" ∷ []))
unfolding parse_of split split_once starts_with text_eq
parse_of-Free_example =
    parse_of-Free 2 (codes "11111\tab\n66666\tt-x\n")
      (record { words = codes "ab" ∷ codes "t-x" ∷ [] }) refl

parse-total_example :
    (r : Result IdTemplate TemplateError) × (IdTemplate.parse (codes "m-{digits:3}") long_list
      ≡ some r)
parse-total_example = parse-total (codes "m-{digits:3}") long_list

abbrev template : IdTemplate
template = record {
  source = codes "m-{digits:3}";
  segments = IdTemplate.literal (codes "m-") ∷ IdTemplate.digits 3 ∷ [];
  max_len = 5;
  wordlist = long_list;
}

generate-valid_example :
    (template.max_len ≤ 128)
    × Outcome
        (λ id. (is_valid_id id ≡ true) × (length id ≤ template.max_len))
        (generate template digits_source)
unfolding IdTemplate.parse find split_once starts_with text_eq
generate-valid_example =
    generate-valid (codes "m-{digits:3}") long_list template digits_source
      (length-repeated 7776, repeated-IsWord 7776) refl
