-- ===== src/Base/Equality.antt =====
-- Equality tests as an interface, and byte strings: a Rust string is the list of its UTF-8 bytes.
use Prim.Native.Nat.{ℕ}
use Prim.Native.Char.{code}
use Prim.Native.String.{String}
use mathlib.Core.Path.{◌≡◌, refl}
use mathlib.Core.Logic.{◌↔◌}
use mathlib.Core.Bool.{Bool, true, false, ◌&&◌}
use mathlib.Core.List.{List, [], ◌∷◌}
use native.Mathlib.Omega.{arith}
use pinveil.Base.Tests.{nat_eq, nat_eq_iff}

-- A test that decides equality.
pub record Eq {κ} (K : Type κ) : Type κ where
  pub agree : K → K → Bool
  pub agree_iff : (j k : K) → (agree j k ≡ true) ↔ (j ≡ k)

module _ {κ} {K : Type κ} ⦃test : Eq K⦄ where
  infix 50 ◌==◌
  abbrev pub ◌==◌ : K → K → Bool
  j == k = test.agree j k

abbrev pub Text : Type 0
Text = List ℕ

unfoldable pub text_eq : Text → Text → Bool
text_eq [] [] = true
text_eq (a ∷ s) (b ∷ t) = nat_eq a b && text_eq s t
text_eq _ _ = false

pub text_eq_iff : (s t : Text) → (text_eq s t ≡ true) ↔ (s ≡ t)
unfolding text_eq
text_eq_iff [] [] = ground arith
text_eq_iff [] (b ∷ t) = ground arith
text_eq_iff (a ∷ s) [] = ground arith
text_eq_iff (a ∷ s) (b ∷ t) = ground (arith, text_eq_iff s t)

pub text_eq_refl : (s : Text) → text_eq s s ≡ true
text_eq_refl s = (text_eq_iff s s).1 refl

instance abbrev pub nat_equality : Eq ℕ
nat_equality = record { agree = nat_eq; agree_iff = nat_eq_iff }

instance abbrev pub text_equality : Eq Text
text_equality = record { agree = text_eq; agree_iff = text_eq_iff }

-- A literal of the source as bytes (the source's literals that the model reads are ASCII).
abbrev pub codes : String → Text
codes String.[] = []
codes (String.◌∷◌ c s) = code c ∷ codes s
