-- ===== src/Base/Strings.antt =====
-- Rust's string operations on the bytes of ASCII text.
use pinveil.Base.Tests.{leb, nat_eq, if◌then◌else◌}
use pinveil.Base.Equality.{Text, text_eq}
use Prim.Native.Nat.{ℕ, suc, ◌+◌}
use mathlib.Core.Bool.{Bool, true, false, ◌&&◌, ◌||◌}
use mathlib.Core.List.{List, [], ◌∷◌, map, reverse}
use mathlib.Core.Option.{Option, none, some}

-- `split(sep)`: one more piece than separators.
unfoldable pub cons_piece : ℕ → List Text → List Text
cons_piece c [] = (c ∷ []) ∷ []
cons_piece c (p ∷ ps) = (c ∷ p) ∷ ps

unfoldable pub split : ℕ → Text → List Text
unfolding cons_piece
split sep [] = [] ∷ []
split sep (c ∷ cs) =
    let rest = split sep cs in if nat_eq c sep then [] ∷ rest else cons_piece c rest

-- `split_once(sep)`: the text before the first separator, and after it.
cons_first : ℕ → Option (Text × Text) → Option (Text × Text)
cons_first c none = none
cons_first c (some (a, b)) = some (c ∷ a, b)

unfoldable pub split_once : ℕ → Text → Option (Text × Text)
unfolding cons_first
split_once sep [] = none
split_once sep (c ∷ cs) =
    let rest = split_once sep cs in if nat_eq c sep then some ([], cs) else cons_first c rest

-- The offset of the first `c`, as `find(c)`.
shift : Option ℕ → Option ℕ
shift none = none
shift (some i) = some (suc i)

unfoldable pub find : ℕ → Text → Option ℕ
unfolding shift
find c [] = none
find c (d ∷ ds) = let rest = find c ds in if nat_eq d c then some 0 else shift rest

unfoldable pub is_whitespace : ℕ → Bool
is_whitespace c = nat_eq c 32 || (leb 9 c && leb c 13)

unfoldable pub trim_start : Text → Text
unfolding is_whitespace
trim_start [] = []
trim_start (c ∷ cs) = if is_whitespace c then trim_start cs else c ∷ cs

unfoldable pub trim : Text → Text
unfolding trim_start
trim s = reverse (trim_start (reverse (trim_start s)))

unfoldable pub starts_with : Text → Text → Bool
starts_with [] s = true
starts_with (p ∷ ps) [] = false
starts_with (p ∷ ps) (c ∷ cs) = nat_eq p c && starts_with ps cs

unfoldable pub to_lower : ℕ → ℕ
to_lower c = if leb b'A' c && leb c b'Z' then c + 32 else c

unfoldable pub to_ascii_lowercase : Text → Text
unfolding to_lower
to_ascii_lowercase s = map to_lower s

unfoldable pub eq_ignore_ascii_case : Text → Text → Bool
unfolding to_ascii_lowercase
eq_ignore_ascii_case a b = text_eq (to_ascii_lowercase a) (to_ascii_lowercase b)
