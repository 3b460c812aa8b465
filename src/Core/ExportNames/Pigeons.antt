-- ===== src/Core/ExportNames/Pigeons.antt =====
-- crates/pinveil-core/src/export_names.rs: a set of names cannot hold more different keys than it has
-- names, so the numbering loop ends.
use pinveil.Base.{
  ℕ, zero, suc, ◌+◌, ◌*◌, ◌≤◌, ◌<◌, ◌≡◌, ◌≢◌, refl, inl, inr, Text, Bool, true, not, List, [], ◌∷◌,
  map, length, All, if◌then◌else◌, text_eq, text_eq_iff, Bool-cases, arith,
}
use pinveil.Core.ExportNames.{contains}

remove_one : Text → List Text → List Text
remove_one k [] = []
remove_one k (u ∷ us) = if text_eq u k then us else u ∷ remove_one k us

length-remove_one :
    (k : Text) (us : List Text) → contains k us ≡ true → length (remove_one k us) + 1 ≡ length us
unfolding remove_one
length-remove_one k [] h = ground arith
length-remove_one k (u ∷ us) h = ground (arith, length-remove_one k us)

contains-remove_one :
    (k j : Text) (us : List Text)
    → k ≢ j
    → contains j us ≡ true
    → contains j (remove_one k us) ≡ true
unfolding remove_one
contains-remove_one k j [] ne h = h
contains-remove_one k j (u ∷ us) ne h =
    ground (arith, contains-remove_one k j us ne, text_eq_iff u k, text_eq_iff u j)

-- Every key of a list differs from the ones after it.
abbrev pub Different : List Text → Type 0
Different [] = Unit
Different (k ∷ ks) = All (λ j. k ≢ j) ks × Different ks

all_contained :
    (k : Text) (ks us : List Text)
    → All (λ j. k ≢ j) ks
    → All (λ j. contains j us ≡ true) ks
    → All (λ j. contains j (remove_one k us) ≡ true) ks
all_contained k [] us d h = tt
all_contained k (j ∷ ks) us d h =
    (contains-remove_one k j us d.0 h.0, all_contained k ks us d.1 h.1)

-- Different keys that a list contains are no more than the list is long.
pub length-le_of_contains :
    (ks us : List Text) → Different ks → All (λ k. contains k us ≡ true) ks → length ks ≤ length us
length-le_of_contains [] us d h = omega arith
length-le_of_contains (k ∷ ks) us d h = omega (
  arith,
  length-remove_one k us h.0,
  length-le_of_contains ks (remove_one k us) d.1 (all_contained k ks us d.0 h.1),
)

-- The numbers from one on, those of them that pass a test, and their keys.
abbrev pub from : ℕ → ℕ → List ℕ
from n zero = []
from n (suc k) = n ∷ from (n + 1) k

abbrev pub kept : (ℕ → Bool) → List ℕ → List ℕ
kept test [] = []
kept test (n ∷ ns) = if test n then n ∷ kept test ns else kept test ns

pub length-kept :
    (test : ℕ → Bool) (ns : List ℕ)
    → length (kept test ns) + length (kept (λ n. not (test n)) ns) ≡ length ns
length-kept test [] = refl
length-kept test (n ∷ ns) = ground (arith, length-kept test ns)

length-from : (n k : ℕ) → length (from n k) ≡ k
length-from n zero = refl
length-from n (suc k) = omega (arith, length-from (n + 1) k)

module _ (key : ℕ → Text) (test : ℕ → Bool)
    (injective : (n m : ℕ) → test n ≡ true → test m ≡ true → key n ≡ key m → n ≡ m) where
  later_differ :
      (n m k : ℕ) → n < m → test n ≡ true → All (λ j. key n ≢ j) (map key (kept test (from m k)))
  later_differ n m zero lt t = tt
  later_differ n m (suc k) lt t = elim (Bool-cases (test m)) [
    | inl s ↦ rw s (
      (λ e. absurd (omega (arith, injective n m t s e))),
      later_differ n (m + 1) k (omega arith) t,
    )
    | inr s ↦ rw s (later_differ n (m + 1) k (omega arith) t)
  ]

  keys_differ : (n k : ℕ) → Different (map key (kept test (from n k)))
  keys_differ n zero = tt
  keys_differ n (suc k) = elim (Bool-cases (test n)) [
    | inl t ↦ rw t (later_differ n (n + 1) k (omega arith) t, keys_differ (n + 1) k)
    | inr t ↦ rw t (keys_differ (n + 1) k)
  ]

  contained_keys :
      (us : List Text) (n k : ℕ)
      → All (λ m. contains (key m) us ≡ true) (from n k)
      → All (λ j. contains j us ≡ true) (map key (kept test (from n k)))
  contained_keys us n zero h = tt
  contained_keys us n (suc k) h = elim (Bool-cases (test n)) [
    | inl t ↦ rw t (h.0, contained_keys us (n + 1) k h.1)
    | inr t ↦ rw t (contained_keys us (n + 1) k h.1)
  ]

  length-map_key : (ns : List ℕ) → length (map key ns) ≡ length ns
  length-map_key [] = refl
  length-map_key (n ∷ ns) = omega (arith, length-map_key ns)

  kept-le :
      (us : List Text) (n k : ℕ)
      → All (λ m. contains (key m) us ≡ true) (from n k)
      → length (kept test (from n k)) ≤ length us
  kept-le us n k h = omega (
    arith,
    length-map_key (kept test (from n k)),
    length-le_of_contains (map key (kept test (from n k))) us (keys_differ n k)
        (contained_keys us n k h),
  )

-- Of 2 u + 1 numbers, whose keys differ within each half of a test, one has a key outside a list of
-- u names.
pub some_outside :
    (key : ℕ → Text) (test : ℕ → Bool) (us : List Text) (n : ℕ)
    → ((n m : ℕ) → test n ≡ true → test m ≡ true → key n ≡ key m → n ≡ m)
    → ((n m : ℕ) → not (test n) ≡ true → not (test m) ≡ true → key n ≡ key m → n ≡ m)
    → ¬ All (λ m. contains (key m) us ≡ true) (from n (2 * length us + 1))
some_outside key test us n here there h = omega (
  arith,
  kept-le key test here us n (2 * length us + 1) h,
  kept-le key (λ m. not (test m)) there us n (2 * length us + 1) h,
  length-kept test (from n (2 * length us + 1)),
  length-from n (2 * length us + 1),
)
