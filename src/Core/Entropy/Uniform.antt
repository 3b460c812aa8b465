-- ===== src/Core/Entropy/Uniform.antt =====
-- crates/pinveil-core/src/entropy.rs: the sampler is in range and has no modulo bias.
use pinveil.Base.{
  ℕ, ◌+◌, ◌*◌, ◌/◌, ◌%◌, ◌^◌, ◌<◌, ◌≡◌, ◌↔◌, inl, inr, true, [], ◌∷◌, ok, lt→ltb, Bool-cases, arith,
}
use native.Mathlib.Nat.{div-add-mod}
use pinveil.Core.Entropy.{Source, accepts, uniform_below, from_be_bytes}

-- A drawn value is below the bound.
pub uniform_below-lt :
    (src : Source) (n : ℕ) (v : ℕ) (rest : Source)
    → 0 < n
    → uniform_below src n ≡ ok (v, rest)
    → v < n
unfolding uniform_below
uniform_below-lt (a ∷ b ∷ c ∷ d ∷ src) n v rest pos h =
    elim (Bool-cases (accepts n (from_be_bytes a b c d))) [
      | inl t ↦ ground (arith, t)
      | inr t ↦ uniform_below-lt src n v rest pos (ground (arith, t))
    ]
uniform_below-lt [] n v rest pos h = ground arith
uniform_below-lt (_ ∷ []) n v rest pos h = ground arith
uniform_below-lt (_ ∷ _ ∷ []) n v rest pos h = ground arith
uniform_below-lt (_ ∷ _ ∷ _ ∷ []) n v rest pos h = ground arith

-- `a` blocks of `n` and a rest end below `q` blocks exactly when `a` is below `q`.
block_lt : (n a b q : ℕ) → b < n → a < q → n * a + b < n * q
block_lt n a b q small h = grind arith

lt_block : (n a b q : ℕ) → n * a + b < n * q → a < q
lt_block n a b q h = grind arith

-- For every positive bound n and residue r below it, the accepted draws with residue r are
-- exactly one in each of the 2^32 / n full blocks of n values.
pub accepts_iff :
    (n r v : ℕ)
    → 0 < n
    → r < n
    → ((accepts n v ≡ true) × (v % n ≡ r)) ↔ ((v / n < 2 ^ 32 / n) × (v ≡ n * (v / n) + r))
unfolding accepts
accepts_iff n r v pos lt = (to_block, of_block)
  where
    to_block : (accepts n v ≡ true) × (v % n ≡ r) → (v / n < 2 ^ 32 / n) × (v ≡ n * (v / n) + r)
    to_block h =
        let whole = div-add-mod v n in
        let range = div-add-mod (2 ^ 32) n in
        (lt_block n (v / n) r (2 ^ 32 / n) (ground arith), omega arith)

    of_block : (v / n < 2 ^ 32 / n) × (v ≡ n * (v / n) + r) → (accepts n v ≡ true) × (v % n ≡ r)
    of_block h =
        let whole = div-add-mod v n in
        let range = div-add-mod (2 ^ 32) n in
        let below = block_lt n (v / n) r (2 ^ 32 / n) lt h.0 in
        (lt→ltb v _ (omega arith), omega arith)
