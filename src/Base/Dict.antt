-- ===== src/Base/Dict.antt =====
-- `HashMap`: an association list with one entry for each key, read and written through its key.
-- The order of the entries stands for the order of the map's iteration, on which nothing depends.
use mathlib.Core.Path.{◌≡◌, refl, ap, ◌∙◌}
use mathlib.Core.Logic.{inl, inr}
use mathlib.Core.Bool.{true, false}
use mathlib.Core.List.{List, [], ◌∷◌}
use mathlib.Core.Option.{Option, none, some}
use Prim.Native.Nat.{ℕ, ◌+◌, ◌≤◌}
use native.Mathlib.Omega.{arith}
use pinveil.Base.Tests.{if◌then◌else◌, Bool-cases}
use pinveil.Base.Lists.{length}
use pinveil.Base.Equality.{Eq, ◌==◌}

abbrev pub Dict {ℓ κ} : Type ℓ → Type κ → Type (ℓ ⊔ κ)
Dict K V = List (K × V)

module _ {ℓ κ} {K : Type ℓ} {V : Type κ} where
  -- The sum of a weight over the entries.
  abbrev pub weigh : (V → ℕ) → Dict K V → ℕ
  weigh w [] = 0
  weigh w ((k, v) ∷ m) = w v + weigh w m

  abbrev pub AllV {μ} : (V → Type μ) → Dict K V → Type μ
  AllV P [] = Unit
  AllV P ((k, v) ∷ m) = P v × AllV P m

module _ {ℓ κ} {K : Type ℓ} {V : Type κ} ⦃e : Eq K⦄ where
  unfoldable pub get : K → Dict K V → Option V
  get k [] = none
  get k ((j, v) ∷ m) = if j == k then some v else get k m

  unfoldable pub remove : K → Dict K V → Dict K V
  remove k [] = []
  remove k ((j, v) ∷ m) = if j == k then remove k m else (j, v) ∷ remove k m

  unfoldable pub insert : K → V → Dict K V → Dict K V
  unfolding remove
  insert k v m = (k, v) ∷ remove k m

  -- No key has two entries.
  abbrev pub Distinct : Dict K V → Type κ
  Distinct [] = Unit
  Distinct ((k, v) ∷ m) = (get k m ≡ none) × Distinct m

  pub get-remove :
      (k j : K) (m : Dict K V) → get j (remove k m) ≡ (if k == j then none else get j m)
  unfolding get remove
  get-remove k j [] = ground arith
  get-remove k j ((i, v) ∷ m) =
      ground (arith, e.agree_iff i k, e.agree_iff k j, e.agree_iff i j, get-remove k j m)

  pub get-insert :
      (k j : K) (v : V) (m : Dict K V) → get j (insert k v m) ≡ (if k == j then some v else get j m)
  unfolding get insert
  get-insert k j v m = ground (arith, get-remove k j m)

  pub get-remove_self : (k : K) (m : Dict K V) → get k (remove k m) ≡ none
  get-remove_self k m = ground (arith, get-remove k k m, e.agree_iff k k)

  pub remove_absent : (k : K) (m : Dict K V) → get k m ≡ none → remove k m ≡ m
  unfolding get remove
  remove_absent k [] h = refl
  remove_absent k ((j, v) ∷ m) h = ground (arith, remove_absent k m)

  pub remove-Distinct : (k : K) (m : Dict K V) → Distinct m → Distinct (remove k m)
  unfolding remove
  remove-Distinct k [] d = tt
  remove-Distinct k ((j, v) ∷ m) d =
      ground (arith, get-remove k j m, remove-Distinct k m d.1, e.agree_iff j k, e.agree_iff k j)

  pub insert-Distinct : (k : K) (v : V) (m : Dict K V) → Distinct m → Distinct (insert k v m)
  unfolding insert
  insert-Distinct k v m d = (get-remove_self k m, remove-Distinct k m d)

  -- What a removal takes away from a sum over the entries.
  pub weigh-remove :
      (w : V → ℕ) (k : K) (m : Dict K V) (v : V)
      → Distinct m
      → get k m ≡ some v
      → weigh w (remove k m) + w v ≡ weigh w m
  unfolding get remove
  weigh-remove w k [] v d h = ground arith
  weigh-remove w k ((j, u) ∷ m) v d h =
      ground (arith, weigh-remove w k m v d.1, remove_absent k m, e.agree_iff j k)

  pub length-remove-le : (k : K) (m : Dict K V) → length (remove k m) ≤ length m
  unfolding remove
  length-remove-le k [] = omega arith
  length-remove-le k ((j, v) ∷ m) = ground (arith, length-remove-le k m)

  pub length-remove :
      (k : K) (m : Dict K V) (v : V) → get k m ≡ some v → length (remove k m) + 1 ≤ length m
  unfolding get remove
  length-remove k [] v h = ground arith
  length-remove k ((j, u) ∷ m) v h = ground (arith, length-remove k m v, length-remove-le k m)

  pub length-remove-Distinct :
      (k : K) (m : Dict K V) (v : V)
      → Distinct m
      → get k m ≡ some v
      → length (remove k m) + 1 ≡ length m
  unfolding get remove
  length-remove-Distinct k [] v d h = ground arith
  length-remove-Distinct k ((j, u) ∷ m) v d h =
      ground (arith, length-remove-Distinct k m v d.1, remove_absent k m, e.agree_iff j k)

  pub remove_comm : (k j : K) (m : Dict K V) → remove k (remove j m) ≡ remove j (remove k m)
  unfolding remove
  remove_comm k j [] = refl
  remove_comm k j ((i, v) ∷ m) = ground (arith, remove_comm k j m)

  pub remove_idem : (k : K) (m : Dict K V) → remove k (remove k m) ≡ remove k m
  unfolding remove
  remove_idem k [] = refl
  remove_idem k ((i, v) ∷ m) = ground (arith, remove_idem k m)

  pub remove-insert_same :
      (k j : K) (v : V) (m : Dict K V) → (k == j) ≡ true → remove j (insert k v m) ≡ remove j m
  unfolding insert remove
  remove-insert_same k j v m same =
      rw same (ap (λ x. remove j (remove x m)) ((e.agree_iff k j).0 same) ∙ remove_idem j m)

  pub remove-insert_ne :
      (k j : K) (v : V) (m : Dict K V)
      → (k == j) ≡ false
      → remove j (insert k v m) ≡ insert k v (remove j m)
  unfolding insert remove
  remove-insert_ne k j v m other = rw (other, remove_comm j k m)

  pub remove-AllV {μ} : (P : V → Type μ) (k : K) (m : Dict K V) → AllV P m → AllV P (remove k m)
  unfolding remove
  remove-AllV P k [] a = a
  remove-AllV P k ((j, v) ∷ m) a = elim (Bool-cases (j == k)) [
    | inl h ↦ rw h (remove-AllV P k m a.1)
    | inr h ↦ rw h (a.0, remove-AllV P k m a.1)
  ]

  pub AllV-get {μ} :
      (P : V → Type μ) (k : K) (m : Dict K V) (v : V) → AllV P m → get k m ≡ some v → P v
  unfolding get
  AllV-get P k [] v a h = ground arith
  AllV-get P k ((j, u) ∷ m) v a h = elim (Bool-cases (j == k)) [
    | inl t ↦ rw (← u-eq t) a.0
    | inr t ↦ AllV-get P k m v a.1 (ground arith)
  ]
    where
      u-eq : (j == k) ≡ true → u ≡ v
      u-eq t = ground arith
