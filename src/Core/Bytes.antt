-- ===== src/Core/Bytes.antt =====
-- Bytes: big-endian `u32`, and the UTF-8 check of `String::from_utf8`.
use pinveil.Base.{
  ℕ, ◌/◌, ◌%◌, ◌^◌, ◌<◌, ◌≡◌, Text, Bool, true, false, ◌&&◌, List, [], ◌∷◌, ◌++◌, Option, none,
  some, All, leb, ltb, nat_eq, if◌then◌else◌, arith,
}
use pinveil.Core.Entropy.{from_be_bytes}

abbrev pub IsByte : ℕ → Type 0
IsByte b = b < 256

unfoldable pub to_be_bytes : ℕ → Text
to_be_bytes n = (n / 16_777_216 % 256) ∷ (n / 65_536 % 256) ∷ (n / 256 % 256) ∷ (n % 256) ∷ []

-- `split_first_chunk::<4>` with `u32::from_be_bytes` on the chunk.
unfoldable pub split_u32 : Text → Option (ℕ × Text)
split_u32 (a ∷ b ∷ c ∷ d ∷ rest) = some (from_be_bytes a b c d, rest)
split_u32 _ = none

pub split_u32-to_be_bytes :
    (n : ℕ) (rest : Text) → n < 2 ^ 32 → split_u32 (to_be_bytes n ++ rest) ≡ some (n, rest)
unfolding split_u32 to_be_bytes
split_u32-to_be_bytes n rest h = ground arith

pub to_be_bytes-split_u32 :
    (bytes rest : Text) (n : ℕ)
    → All IsByte bytes
    → split_u32 bytes ≡ some (n, rest)
    → to_be_bytes n ++ rest ≡ bytes
unfolding split_u32 to_be_bytes
to_be_bytes-split_u32 (a ∷ b ∷ c ∷ d ∷ bytes) rest n small h = ground (arith, small)
to_be_bytes-split_u32 [] rest n small h = ground arith
to_be_bytes-split_u32 (_ ∷ []) rest n small h = ground arith
to_be_bytes-split_u32 (_ ∷ _ ∷ []) rest n small h = ground arith
to_be_bytes-split_u32 (_ ∷ _ ∷ _ ∷ []) rest n small h = ground arith

-- The ranges of the bytes that must follow a first byte; `none` for a byte that starts nothing.
unfoldable pub continuation : ℕ → Option (List (ℕ × ℕ))
continuation b =
    if ltb b 128
    then some []
    else if leb 0xc2 b && leb b 0xdf
    then some ((0x80, 0xbf) ∷ [])
    else if nat_eq b 0xe0
    then some ((0xa0, 0xbf) ∷ (0x80, 0xbf) ∷ [])
    else if nat_eq b 0xed
    then some ((0x80, 0x9f) ∷ (0x80, 0xbf) ∷ [])
    else if leb 0xe1 b && leb b 0xef
    then some ((0x80, 0xbf) ∷ (0x80, 0xbf) ∷ [])
    else if nat_eq b 0xf0
    then some ((0x90, 0xbf) ∷ (0x80, 0xbf) ∷ (0x80, 0xbf) ∷ [])
    else if leb 0xf1 b && leb b 0xf3
    then some ((0x80, 0xbf) ∷ (0x80, 0xbf) ∷ (0x80, 0xbf) ∷ [])
    else if nat_eq b 0xf4
    then some ((0x80, 0x8f) ∷ (0x80, 0xbf) ∷ (0x80, 0xbf) ∷ [])
    else none

unfoldable pub utf8_from : List (ℕ × ℕ) → Text → Bool
unfolding continuation
utf8_from [] [] = true
utf8_from (_ ∷ _) [] = false
utf8_from ((lo, hi) ∷ ranges) (b ∷ bytes) = (leb lo b && leb b hi) && utf8_from ranges bytes
utf8_from [] (b ∷ bytes) = elim (continuation b) [
  | none ↦ false
  | some ranges ↦ utf8_from ranges bytes
]

abbrev pub is_utf8 : Text → Bool
is_utf8 = utf8_from []
