-- ===== src/Core/IdTemplate/Ids.antt =====
-- crates/pinveil-core/src/id_template.rs: the parts of a generated id.
use pinveil.Base.{
  ℕ, zero, suc, ◌+◌, ◌*◌, ◌≡◌, ◌<◌, ◌≤◌, refl, ap, subst, inl, inr, Text, Bool, true, ◌||◌, not,
  List, [], ◌∷◌, ◌++◌, some, Result, ok, err, ◌>>=◌, nat_eq, length, length-append, get_elem?, all,
  any, all-append, All, max, Result-cases, arith, codes,
}
use pinveil.Core.Entropy.{Source, EntropyError, uniform_below}
use pinveil.Core.Entropy.Uniform.{uniform_below-lt}
use pinveil.Core.Wordlist.{longest, is_lowercase}
use pinveil.Core.Wordlist.Words.{IsWord, is_word_byte}
use pinveil.Core.Generate.{DrawError, failed, join}
use pinveil.Core.IdTemplate.{is_id_byte, push_chars}

-- A byte that is not a dot.
unfoldable pub not_dot : ℕ → Bool
not_dot b = not (nat_eq b 46)

pub any-append :
    {A : Type 0} (p : A → Bool) (xs ys : List A) → any p (xs ++ ys) ≡ (any p xs || any p ys)
any-append p [] ys = refl
any-append p (x ∷ xs) ys = ground (arith, any-append p xs ys)

all-implies :
    (p q : ℕ → Bool) (xs : Text)
    → ((x : ℕ) → p x ≡ true → q x ≡ true)
    → all p xs ≡ true
    → all q xs ≡ true
all-implies p q [] f h = refl
all-implies p q (x ∷ xs) f h = ground (arith, f x, all-implies p q xs f)

-- Bytes of an id, one of them not a dot.
abbrev pub IsIdText : Text → Type 0
IsIdText text = (all is_id_byte text ≡ true) × (any not_dot text ≡ true)

IsWord-IsIdText : (word : Text) → IsWord word → IsIdText word
unfolding is_word_byte not_dot is_id_byte is_lowercase
IsWord-IsIdText [] (filled, h) = absurd (filled refl)
IsWord-IsIdText (c ∷ cs) (filled, h) =
    (all-implies is_word_byte is_id_byte (c ∷ cs) (λ x hx. ground arith) h, ground (arith, h))

-- `n` words of at most `longest` bytes and the hyphens between them.
pub join-IsIdText :
    (longest_word : ℕ) (ws : List Text)
    → 1 ≤ length ws
    → All (λ w. IsIdText w × (length w ≤ longest_word)) ws
    → IsIdText (join (codes "-") ws)
      × (length (join (codes "-") ws) + 1 ≤ length ws * (longest_word + 1))
unfolding join is_id_byte
join-IsIdText longest_word [] some_word h = absurd (omega arith)
join-IsIdText longest_word (w ∷ []) some_word ((id, short), _) = (id, omega arith)
join-IsIdText longest_word (w ∷ x ∷ ws) some_word ((id, short), h) =
    let rest = join (codes "-") (x ∷ ws) in
    let (ids, shorts) = join-IsIdText longest_word (x ∷ ws) (omega arith) h in
    (
      (
        ground (arith, id, ids, all-append is_id_byte w (45 ∷ rest)),
        ground (arith, id, any-append not_dot w (45 ∷ rest)),
      ),
      grind (arith, shorts, short, length-append w (45 ∷ rest)),
    )

pub listed-longest :
    (ws : List Text) (i : ℕ) (w : Text)
    → All IsWord ws
    → get_elem? ws i ≡ some w
    → IsIdText w × (length w ≤ longest ws)
unfolding longest
listed-longest [] i w all_words h = ground arith
listed-longest (v ∷ vs) zero w (word, all_words) h =
    subst (λ w. IsIdText w × (length w ≤ max (length v) (longest vs))) (ground arith)
      (IsWord-IsIdText v word, omega arith)
listed-longest (v ∷ vs) (suc i) w (word, all_words) h =
    let (id, short) = listed-longest vs i w all_words h in (id, omega arith)

-- What a generator gives: a text with a property, or the entropy source's error; no panic.
pub data Outcome (P : Text → Type 0) : Result (Text × Source) DrawError → Type 0 where
  exhausted : (e : EntropyError) → Outcome P (err (failed e))
  generated : (text : Text) (src : Source) → P text → Outcome P (ok (text, src))

-- An alphabet of id bytes without the dot.
abbrev pub IsAlphabet : Text → Type 0
IsAlphabet alphabet =
    (1 ≤ length alphabet)
    × ((i c : ℕ) → get_elem? alphabet i ≡ some c → (is_id_byte c ≡ true) × (not_dot c ≡ true))

abbrev pub IsChars : ℕ → Text → Type 0
IsChars n text = (length text ≡ n) × ((all is_id_byte text ≡ true) × (all not_dot text ≡ true))

get_elem?-total : (xs : Text) (i : ℕ) → i < length xs → (x : ℕ) × (get_elem? xs i ≡ some x)
get_elem?-total [] i h = absurd (omega arith)
get_elem?-total (x ∷ xs) zero h = (x, refl)
get_elem?-total (x ∷ xs) (suc i) h = get_elem?-total xs i (omega arith)

more-IsChars :
    (n c : ℕ) (r : Result (Text × Source) DrawError)
    → (is_id_byte c ≡ true) × (not_dot c ≡ true)
    → Outcome (IsChars n) r
    → Outcome (IsChars (suc n)) (r >>= λ p. ok (c ∷ p.0, p.1))
more-IsChars n c _ good (exhausted e) = exhausted e
more-IsChars n c _ good (generated text src (len, (ids, plain))) =
    generated (c ∷ text) src (ap suc len, (ground (arith, good), ground (arith, good)))

pub push_chars-Outcome :
    (n : ℕ) (alphabet : Text) (src : Source)
    → IsAlphabet alphabet
    → Outcome (IsChars n) (push_chars n alphabet src)
unfolding push_chars
push_chars-Outcome zero alphabet src good = generated [] src (refl, (refl, refl))
push_chars-Outcome (suc n) alphabet src (filled, good) =
    elim (Result-cases (uniform_below src (length alphabet))) [
      | inr (e, eq) ↦ rw (push_chars, eq) (exhausted e)
      | inl ((i, src'), eq) ↦
          let lt = uniform_below-lt src (length alphabet) i src' (omega arith) eq in
          let (c, found) = get_elem?-total alphabet i lt in
          rw (push_chars, eq, found)
            (more-IsChars n c _ (good i c found)
              (push_chars-Outcome n alphabet src' (filled, good)))
    ]
