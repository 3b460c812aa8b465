-- ===== src/Base/Results.antt =====
-- Rust's `Result`, with `?` as the bind of a `do` block.
use mathlib.Core.Path.{◌≡◌, refl}
use mathlib.Core.Bool.{Bool, true, false}
use mathlib.Core.Logic.{◌⊎◌, inl, inr}
use native.Mathlib.Omega.{arith}
use mathlib.Core.Option.{Option, none, some}

pub data Result {ℓ κ} (A : Type ℓ) (E : Type κ) : Type (ℓ ⊔ κ) where
  ok : A → Result A E
  err : E → Result A E

infixl 5 ◌>>=◌ ◌>>◌
abbrev pub ◌>>=◌ {ℓ κ μ} :
    {A : Type ℓ} {B : Type κ} {E : Type μ} → Result A E → (A → Result B E) → Result B E
ok a >>= f = f a
err e >>= f = err e

abbrev pub ◌>>◌ {κ μ} : {B : Type κ} {E : Type μ} → Result (Unit {0}) E → Result B E → Result B E
m >> k = m >>= λ _. k

-- `if test { return Err(e) }` before the rest of a function.
abbrev pub refuse_if {μ} : {E : Type μ} → Bool → E → Result (Unit {0}) E
refuse_if true e = err e
refuse_if false e = ok tt

-- `.ok_or(e)`
abbrev pub ok_or {ℓ κ} : {A : Type ℓ} {E : Type κ} → Option A → E → Result A E
ok_or none e = err e
ok_or (some a) e = ok a

pub Result-cases {ℓ κ} :
    {A : Type ℓ} {E : Type κ} (r : Result A E) → ((a : A) × (r ≡ ok a)) ⊎ ((e : E) × (r ≡ err e))
Result-cases (ok a) = inl (a, refl)
Result-cases (err e) = inr (e, refl)

-- What a chain that succeeds went through.
pub bind_ok {ℓ κ μ} :
    {A : Type ℓ} {B : Type κ} {E : Type μ} (r : Result A E) (f : A → Result B E) (y : B)
    → (r >>= f) ≡ ok y
    → (x : A) × ((r ≡ ok x) × (f x ≡ ok y))
bind_ok (ok x) f y h = (x, (refl, h))
bind_ok (err e) f y h = ground arith

pub refuse_if_ok {κ μ} :
    {B : Type κ} {E : Type μ} (t : Bool) (e : E) (r : Result B E) (y : B)
    → (refuse_if t e >> r) ≡ ok y
    → (t ≡ false) × (r ≡ ok y)
refuse_if_ok true e r y h = ground arith
refuse_if_ok false e r y h = (refl, h)

pub ok_or_ok {ℓ μ} :
    {A : Type ℓ} {E : Type μ} (o : Option A) (e : E) (x : A) → ok_or o e ≡ ok x → o ≡ some x
ok_or_ok none e x h = ground arith
ok_or_ok (some a) e x h = ground arith

pub ok_injective {ℓ κ} :
    {A : Type ℓ} {E : Type κ} (a b : A) → ◌≡◌ {A = Result A E} (ok a) (ok b) → a ≡ b
ok_injective a b h = ground arith
