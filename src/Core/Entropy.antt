-- ===== src/Core/Entropy.antt =====
-- crates/pinveil-core/src/entropy.rs: an entropy source, seen as the bytes that it will still
-- deliver before it fails, and the rejection sampler that draws from it.
pub mod Uniform
use pinveil.Base.{
  ℕ, ◌+◌, ◌-◌, ◌*◌, ◌%◌, ◌^◌, Bool, List, [], ◌∷◌, Result, ok, err, ltb, leb, length, take, drop,
  if◌then◌else◌,
}

abbrev pub Source : Type 0
Source = List ℕ

pub data EntropyError : Type 0 where
  entropy_error : EntropyError

-- `fill` on a buffer of `n` bytes.
unfoldable pub fill : ℕ → Source → Result (List ℕ × Source) EntropyError
fill n src = if leb n (length src) then ok (take n src, drop n src) else err entropy_error

-- `u32::from_be_bytes`
abbrev pub from_be_bytes : ℕ → ℕ → ℕ → ℕ → ℕ
from_be_bytes a b c d = ((a * 256 + b) * 256 + c) * 256 + d

-- The test of one draw: below the largest multiple of `n`.
unfoldable pub accepts : ℕ → ℕ → Bool
accepts n value = ltb value (2 ^ 32 - 2 ^ 32 % n)

-- The loop reads four bytes a round, so it ends with the source. `n` is positive: the code
-- asserts it, and every caller passes a constant.
unfoldable pub uniform_below : Source → ℕ → Result (ℕ × Source) EntropyError
unfolding accepts
uniform_below (a ∷ b ∷ c ∷ d ∷ src) n =
    let retry = uniform_below src n in
    let value = from_be_bytes a b c d in if accepts n value then ok (value % n, src) else retry
uniform_below _ n = err entropy_error
