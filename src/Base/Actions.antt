-- ===== src/Base/Actions.antt =====
-- Methods that change a state and may fail. What was written before a failure stays written, so the
-- state comes back beside an error too.
use mathlib.Core.Bool.{Bool, true, false}
use pinveil.Base.Results.{Result, ok, err}

abbrev pub Action {ℓ κ μ} : Type ℓ → Type κ → Type μ → Type (ℓ ⊔ κ ⊔ μ)
Action S E A = S → Result A E × S

module _ {ℓ κ μ} {S : Type ℓ} {E : Type κ} {A : Type μ} where
  abbrev pub pure : A → Action S E A
  pure a s = (ok a, s)

  abbrev pub fail : E → Action S E A
  fail e s = (err e, s)

  abbrev pub lift : Result A E → Action S E A
  lift r s = (r, s)

module _ {ℓ κ μ ν} {S : Type ℓ} {E : Type κ} {A : Type μ} {B : Type ν} where
  abbrev pub continue : Result A E → (A → Action S E B) → Action S E B
  continue (ok a) f s = f a s
  continue (err e) f s = (err e, s)

  infixl 5 ◌>>=◌
  abbrev pub ◌>>=◌ : Action S E A → (A → Action S E B) → Action S E B
  ◌>>=◌ m f s = continue (m s).0 f (m s).1

module _ {ℓ κ ν} {S : Type ℓ} {E : Type κ} {B : Type ν} where
  infixl 5 ◌>>◌
  abbrev pub ◌>>◌ : Action S E (Unit {0}) → Action S E B → Action S E B
  m >> n = m >>= λ _. n

-- `if test { return Err(e) }`
abbrev pub refuse_when {ℓ κ} : {S : Type ℓ} {E : Type κ} → Bool → E → Action S E (Unit {0})
refuse_when true e s = (err e, s)
refuse_when false e s = (ok tt, s)

-- `.map_err(f)`
abbrev pub map_err {ℓ κ μ ν} :
    {S : Type ℓ} {E : Type κ} {F : Type μ} {A : Type ν} → (E → F) → Action S E A → Action S F A
map_err {S} {E} {F} {A} f m s = (convert (m s).0, (m s).1)
  where
    convert : Result A E → Result A F
    convert (ok a) = ok a
    convert (err e) = err (f e)
