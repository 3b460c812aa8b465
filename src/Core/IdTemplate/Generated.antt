-- ===== src/Core/IdTemplate/Generated.antt =====
-- crates/pinveil-core/src/id_template.rs: every id that a parsed template generates.
use pinveil.Base.{
  ℕ, zero, suc, ◌+◌, ◌-◌, ◌*◌, ◌≡◌, ◌≢◌, ◌≤◌, refl, sym, ◌∙◌, ap, subst, inl, inr, Text, Bool, true,
  false, ◌&&◌, ◌||◌, List, [], ◌∷◌, ◌++◌, some, Result, ok, ◌>>=◌, text_eq, text_eq_iff, length,
  length-append, get_elem?, all, any, all-append, All, Bool-cases, Option-cases, arith, bind_ok,
  codes,
}
use pinveil.Core.Entropy.{Source}
use pinveil.Core.Wordlist.{Wordlist, wordlist_len, max_word_len}
use pinveil.Core.Wordlist.Words.{IsWord}
use pinveil.Core.Generate.{DrawError, join}
use pinveil.Core.Generate.Pins.{IsListed, Drawn, no_entropy, words, random_words-Drawn}
use pinveil.Core.IdTemplate.{
  Segment, literal, digits, alnum, IdTemplate, max_id_len, digits_alphabet, lower_alnum,
  mixed_alnum, is_id_byte, is_valid_id, is_placeholder, segment_len, total_len, validate,
  parse_from, parse, alphabet_of, generate_segment, generate_all, generate,
}
use pinveil.Core.IdTemplate.Loop.{IsSegment, parse_from-IsSegment}
use pinveil.Core.IdTemplate.Ids.{
  not_dot, any-append, IsIdText, IsChars, IsAlphabet, Outcome, exhausted, generated, join-IsIdText,
  listed-longest, push_chars-Outcome,
}

unfoldable is_plain : ℕ → Bool
is_plain c = is_id_byte c && not_dot c

all-get_elem? :
    (p : ℕ → Bool) (xs : Text) (i x : ℕ) → all p xs ≡ true → get_elem? xs i ≡ some x → p x ≡ true
all-get_elem? p [] i x h found = ground arith
all-get_elem? p (y ∷ xs) zero x h found =
    let same : y ≡ x = ground arith in subst (λ z. p z ≡ true) same (ground arith)
all-get_elem? p (y ∷ xs) (suc i) x h found = all-get_elem? p xs i x (ground arith) found

plain-IsAlphabet :
    (alphabet : Text) → 1 ≤ length alphabet → all is_plain alphabet ≡ true → IsAlphabet alphabet
unfolding is_plain
plain-IsAlphabet alphabet filled h =
    (filled, λ i c found. ground (arith, all-get_elem? is_plain alphabet i c h found))

digits-IsAlphabet : IsAlphabet digits_alphabet
unfolding is_plain is_id_byte not_dot
digits-IsAlphabet = plain-IsAlphabet digits_alphabet (omega arith) refl

alphabet_of-IsAlphabet : (upper : Bool) → IsAlphabet (alphabet_of upper)
unfolding is_plain is_id_byte not_dot alphabet_of
alphabet_of-IsAlphabet true = plain-IsAlphabet mixed_alnum (omega arith) refl
alphabet_of-IsAlphabet false = plain-IsAlphabet lower_alnum (omega arith) refl

-- A part of an id of at most `n` bytes, for a placeholder one that is not all dots.
abbrev IsPartOf : ℕ → Bool → Text → Type 0
IsPartOf n placeholder text =
    (length text ≤ n)
    × ((all is_id_byte text ≡ true) × (placeholder ≡ true → any not_dot text ≡ true))

-- A list that `Wordlist::parse` accepted.
abbrev pub IsFull : Wordlist → Type 0
IsFull list = (length list.words ≡ wordlist_len) × All IsWord list.words

Outcome-map :
    {P Q : Text → Type 0} (r : Result (Text × Source) DrawError)
    → ((text : Text) → P text → Q text)
    → Outcome P r
    → Outcome Q r
Outcome-map _ f (exhausted e) = exhausted e
Outcome-map _ f (generated text src h) = generated text src (f text h)

chars-IsPartOf : (n : ℕ) (text : Text) → 1 ≤ n → IsChars n text → IsPartOf n true text
chars-IsPartOf n [] filled (len, (ids, plain)) = absurd (omega arith)
chars-IsPartOf n (c ∷ cs) filled (len, (ids, plain)) = (omega arith, (ids, λ _. ground arith))

listed-All :
    (list : Wordlist) (ws : List Text)
    → IsFull list
    → All (IsListed list) ws
    → All (λ w. IsIdText w × (length w ≤ max_word_len list)) ws
unfolding max_word_len
listed-All list [] full h = tt
listed-All list (w ∷ ws) full ((i, found), h) =
    (listed-longest list.words i w full.1 found, listed-All list ws full h)

words-Outcome :
    (list : Wordlist) (n : ℕ) (r : Result (List Text × Source) DrawError)
    → IsFull list
    → 1 ≤ n
    → Drawn list n r
    → Outcome
        (IsPartOf (n * (max_word_len list + 1) - 1) true)
        (r >>= λ p. ok (join (codes "-") p.0, p.1))
words-Outcome list n _ full filled (no_entropy e) = exhausted e
words-Outcome list n _ full filled (words ws src len listed) =
    let (id, short) =
      join-IsIdText (max_word_len list) ws (omega arith) (listed-All list ws full listed) in
    generated (join (codes "-") ws) src (
      subst (λ k. length (join (codes "-") ws) ≤ k * (max_word_len list + 1) - 1) len (omega arith),
      (id.0, λ _. id.1),
    )

generate_segment-Outcome :
    (list : Wordlist) (s : Segment) (src : Source)
    → IsFull list
    → IsSegment s
    → Outcome
        (IsPartOf (segment_len (max_word_len list) s) (is_placeholder s))
        (generate_segment list s src)
unfolding generate_segment segment_len is_placeholder IsSegment
generate_segment-Outcome list (literal text) src full good =
    generated text src (ground arith, (good.1, λ h. ground (arith, h)))
generate_segment-Outcome list (Segment.words n) src full good =
    words-Outcome list n _ full good.0 (random_words-Drawn list src n full.0)
generate_segment-Outcome list (digits n) src full good =
    Outcome-map _ (λ text h. chars-IsPartOf n text good.0 h)
      (push_chars-Outcome n digits_alphabet src digits-IsAlphabet)
generate_segment-Outcome list (alnum n upper) src full good =
    Outcome-map _ (λ text h. chars-IsPartOf n text good.0 h)
      (push_chars-Outcome n (alphabet_of upper) src (alphabet_of-IsAlphabet upper))

append-IsPartOf :
    (n m : ℕ) (a b : Bool) (text : Text) (r : Result (Text × Source) DrawError)
    → IsPartOf n a text
    → Outcome (IsPartOf m b) r
    → Outcome (IsPartOf (n + m) (a || b)) (r >>= λ p. ok (text ++ p.0, p.1))
append-IsPartOf n m a b text _ left (exhausted e) = exhausted e
append-IsPartOf n m a b text _ (short, (ids, plain)) (generated rest src (short', (ids', plain'))) =
    generated (text ++ rest) src (
      ground (arith, length-append text rest),
      (
        ground (arith, all-append is_id_byte text rest),
        λ h. ground (arith, h, plain, plain', any-append not_dot text rest),
      ),
    )

append_outcomes :
    (n m : ℕ) (a b : Bool) (r : Result (Text × Source) DrawError)
    (next : Source → Result (Text × Source) DrawError)
    → Outcome (IsPartOf n a) r
    → ((src : Source) → Outcome (IsPartOf m b) (next src))
    → Outcome (IsPartOf (n + m) (a || b)) (r >>= λ p. (next p.1 >>= λ q. ok (p.0 ++ q.0, q.1)))
append_outcomes n m a b _ next (exhausted e) rest = exhausted e
append_outcomes n m a b _ next (generated text src part) rest =
    append-IsPartOf n m a b text (next src) part (rest src)

generate_all-Outcome :
    (list : Wordlist) (segments : List Segment) (src : Source)
    → IsFull list
    → All IsSegment segments
    → Outcome
        (IsPartOf (total_len (max_word_len list) segments) (any is_placeholder segments))
        (generate_all list segments src)
unfolding generate_all total_len
generate_all-Outcome list [] src full good =
    generated [] src (omega arith, (refl, λ h. ground (arith, h)))
generate_all-Outcome list (s ∷ ss) src full (good, goods) =
    append_outcomes _ _ _ _ (generate_segment list s src) (generate_all list ss)
      (generate_segment-Outcome list s src full good)
      (λ src'. generate_all-Outcome list ss src' full goods)

IsIdText-filled : (id : Text) → IsIdText id → (id ≢ []) × ((id ≢ codes ".") × (id ≢ codes ".."))
unfolding not_dot
IsIdText-filled id (ids, plain) = (
  λ e. ground (arith, subst (λ t. any not_dot t ≡ true) e plain),
  (
    λ e. ground (arith, subst (λ t. any not_dot t ≡ true) e plain),
    λ e. ground (arith, subst (λ t. any not_dot t ≡ true) e plain),
  ),
)

IsIdText-valid : (id : Text) → IsIdText id → is_valid_id id ≡ true
unfolding is_valid_id
IsIdText-valid id (ids, plain) =
    let (empty, (dot, dots)) = IsIdText-filled id (ids, plain) in
    let e : text_eq id [] ≡ false = text_eq_false id [] empty in
    let d : text_eq id (codes ".") ≡ false = text_eq_false id (codes ".") dot in
    let dd : text_eq id (codes "..") ≡ false = text_eq_false id (codes "..") dots in
    rw (e, d, dd) ids
  where
    text_eq_false : (s t : Text) → s ≢ t → text_eq s t ≡ false
    text_eq_false s t differ = elim (Bool-cases (text_eq s t)) [
      | inl same ↦ absurd (differ ((text_eq_iff s t).0 same))
      | inr h ↦ h
    ]

-- What `validate` accepts has a placeholder and is short enough, whatever is drawn.
record IsValidated (text : Text) (list : Wordlist) (segments : List Segment) (t : IdTemplate)
    : Type 0 where
  some_placeholder : any is_placeholder segments ≡ true
  short : total_len (max_word_len list) segments ≤ max_id_len
  made : t ≡ record {
    source = text;
    segments = segments;
    max_len = total_len (max_word_len list) segments;
    wordlist = list;
  }

validate-IsValidated :
    (text : Text) (list : Wordlist) (segments : List Segment) (t : IdTemplate)
    → validate text list segments ≡ ok t
    → IsValidated text list segments t
unfolding validate
validate-IsValidated text list segments t h = record {
  some_placeholder = ground arith;
  short = ground arith;
  made = ground arith;
}

validated_valid :
    (text : Text) (list : Wordlist) (segments : List Segment) (t : IdTemplate) (src : Source)
    → IsFull list
    → All IsSegment segments
    → IsValidated text list segments t
    → (t.max_len ≤ max_id_len)
      × Outcome (λ id. (is_valid_id id ≡ true) × (length id ≤ t.max_len)) (generate t src)
unfolding generate
validated_valid text list segments t src full good v =
    subst
      (λ t.
        (t.max_len ≤ max_id_len)
        × Outcome (λ id. (is_valid_id id ≡ true) × (length id ≤ t.max_len)) (generate t src))
      (sym v.made)
      (
        v.short,
        Outcome-map _
            (λ id part. (IsIdText-valid id (part.1.0, part.1.1 v.some_placeholder), part.0))
            (generate_all-Outcome list segments src full good),
      )

-- A template parsed over an accepted wordlist has a longest id of at most 128 bytes and
-- generates only valid ids that are not longer than that; it fails only by the entropy source.
pub generate-valid :
    (text : Text) (list : Wordlist) (t : IdTemplate) (src : Source)
    → IsFull list
    → parse text list ≡ some (ok t)
    → (t.max_len ≤ max_id_len)
      × Outcome (λ id. (is_valid_id id ≡ true) × (length id ≤ t.max_len)) (generate t src)
unfolding parse
generate-valid text list t src full h = elim (Option-cases (parse_from (length text) 0 text [])) [
  | inl out ↦ ground (arith, out)
  | inr (parsed, out) ↦
      let chain = bind_ok parsed (validate text list) t (ground (arith, out)) in
      let good =
        parse_from-IsSegment (length text) 0 text [] chain.0 refl (out ∙ ap some chain.1.0) in
      validated_valid text list chain.0 t src full good
        (validate-IsValidated text list chain.0 t chain.1.1)
]
