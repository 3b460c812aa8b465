-- ===== src/Core/Wordlist/PrefixFree.antt =====
-- crates/pinveil-core/src/wordlist.rs: the sorted pass finds every prefix.
use pinveil.Base.{
  ℕ, ◌+◌, ◌≡◌, refl, inl, inr, Text, true, false, not, List, [], ◌∷◌, none, ok, nat_eq, length, All,
  Bool-cases, Option-cases, arith, bind_ok, refuse_if_ok, ok_injective, subst,
}
use pinveil.Base.Strings.{split, starts_with}
use pinveil.Core.Wordlist.{
  Wordlist, wrong_count, text_le, indexed, insert_ordered, order, find_prefixed, check_prefixes,
  parse_lines, strip_newline, parse_of,
}
use pinveil.Core.Wordlist.Words.{IsWord, parse_lines-IsWord}

between :
    (a b c : Text)
    → text_le a b ≡ true
    → text_le b c ≡ true
    → starts_with a c ≡ true
    → starts_with a b ≡ true
unfolding text_le starts_with
between [] b c ab bc ac = refl
between (x ∷ a) [] c ab bc ac = ground arith
between (x ∷ a) (y ∷ b) [] ab bc ac = ground arith
between (x ∷ a) (y ∷ b) (z ∷ c) ab bc ac = ground (arith, between a b c)

text_le_total : (a b : Text) → text_le a b ≡ false → text_le b a ≡ true
unfolding text_le
text_le_total [] b h = ground arith
text_le_total (x ∷ a) [] h = refl
text_le_total (x ∷ a) (y ∷ b) h = ground (arith, text_le_total a b)

text_le_trans : (a b c : Text) → text_le a b ≡ true → text_le b c ≡ true → text_le a c ≡ true
unfolding text_le
text_le_trans [] b c ab bc = refl
text_le_trans (x ∷ a) [] c ab bc = ground arith
text_le_trans (x ∷ a) (y ∷ b) [] ab bc = ground arith
text_le_trans (x ∷ a) (y ∷ b) (z ∷ c) ab bc = ground (arith, text_le_trans a b c)

-- A prefix that is not below is the text itself.
prefix_above : (a b : Text) → text_le a b ≡ true → starts_with b a ≡ true → starts_with a b ≡ true
unfolding text_le starts_with
prefix_above [] b ab ba = refl
prefix_above (x ∷ a) [] ab ba = ground arith
prefix_above (x ∷ a) (y ∷ b) ab ba = ground (arith, prefix_above a b)

-- Neither text starts with the other.
abbrev pub Free : Text → Text → Type 0
Free a b = (starts_with a b ≡ false) × (starts_with b a ≡ false)

module _ {ℓ} {A : Type ℓ} (R : A → A → Type 0) where
  abbrev pub Pairwise : List A → Type 0
  Pairwise [] = Unit
  Pairwise (x ∷ xs) = All (R x) xs × Pairwise xs

abbrev Above : ℕ × Text → ℕ × Text → Type 0
Above p q = text_le p.1 q.1 ≡ true

abbrev FreePair : ℕ × Text → ℕ × Text → Type 0
FreePair p q = Free p.1 q.1

module _ (P : ℕ × Text → Type 0) where
  All-insert_ordered :
      (p : ℕ × Text) (qs : List (ℕ × Text)) → P p → All P qs → All P (insert_ordered p qs)
  unfolding insert_ordered
  All-insert_ordered p [] h hs = (h, tt)
  All-insert_ordered p (q ∷ qs) h (hq, hs) = elim (Bool-cases (text_le p.1 q.1)) [
    | inl t ↦ rw t (h, (hq, hs))
    | inr t ↦ rw t (hq, All-insert_ordered p qs h hs)
  ]

  insert_ordered-All :
      (p : ℕ × Text) (qs : List (ℕ × Text)) → All P (insert_ordered p qs) → P p × All P qs
  unfolding insert_ordered
  insert_ordered-All p [] (h, _) = (h, tt)
  insert_ordered-All p (q ∷ qs) hs = elim (Bool-cases (text_le p.1 q.1)) [
    | inl t ↦ rw (insert_ordered, t) at hs
    | inr t ↦
        let both = rw (insert_ordered, t) at hs in
        let rest = insert_ordered-All p qs both.1 in (rest.0, (both.0, rest.1))
  ]

All-map :
    {P Q : ℕ × Text → Type 0} (qs : List (ℕ × Text))
    → ((q : ℕ × Text) → P q → Q q)
    → All P qs
    → All Q qs
All-map [] f hs = tt
All-map (q ∷ qs) f (h, hs) = (f q h, All-map qs f hs)

insert_ordered-Above :
    (p : ℕ × Text) (qs : List (ℕ × Text)) → Pairwise Above qs → Pairwise Above (insert_ordered p qs)
unfolding insert_ordered
insert_ordered-Above p [] h = (tt, tt)
insert_ordered-Above p (q ∷ qs) (h, hs) = elim (Bool-cases (text_le p.1 q.1)) [
  | inl t ↦ rw t ((t, All-map qs (λ r above. text_le_trans p.1 q.1 r.1 t above) h), (h, hs))
  | inr t ↦
      rw t (
        All-insert_ordered (Above q) p qs (text_le_total p.1 q.1 t) h,
        insert_ordered-Above p qs hs,
      )
]

order-Above : (ps : List (ℕ × Text)) → Pairwise Above (order ps)
unfolding order
order-Above [] = tt
order-Above (p ∷ ps) = insert_ordered-Above p (order ps) (order-Above ps)

insert_ordered-FreePair :
    (p : ℕ × Text) (qs : List (ℕ × Text))
    → Pairwise FreePair (insert_ordered p qs)
    → All (FreePair p) qs × Pairwise FreePair qs
unfolding insert_ordered
insert_ordered-FreePair p [] h = (tt, tt)
insert_ordered-FreePair p (q ∷ qs) h = elim (Bool-cases (text_le p.1 q.1)) [
  | inl t ↦ rw (insert_ordered, t) at h
  | inr t ↦
      let both = rw (insert_ordered, t) at h in
      let head = insert_ordered-All (FreePair q) p qs both.0 in
      let rest = insert_ordered-FreePair p qs both.1 in
      (((head.0.1, head.0.0), rest.0), (head.1, rest.1))
]

order-FreePair : (ps : List (ℕ × Text)) → Pairwise FreePair (order ps) → Pairwise FreePair ps
unfolding order
order-FreePair [] h = tt
order-FreePair (p ∷ ps) h =
    let split = insert_ordered-FreePair p (order ps) h in
    (order-All (FreePair p) ps split.0, order-FreePair ps split.1)
  where
    order-All : (P : ℕ × Text → Type 0) (qs : List (ℕ × Text)) → All P (order qs) → All P qs
    order-All P [] hs = tt
    order-All P (q ∷ qs) hs =
        let both = insert_ordered-All P q (order qs) hs in (both.0, order-All P qs both.1)

-- The head of a sorted list whose neighbours are free is free of every later word.
find_prefixed-head :
    (p q : ℕ × Text) (qs : List (ℕ × Text))
    → text_le p.1 q.1 ≡ true
    → All (Above p) qs
    → All (Above q) qs
    → starts_with p.1 q.1 ≡ false
    → All (FreePair p) qs
find_prefixed-head p q [] le above later free = tt
find_prefixed-head p q (r ∷ rs) le (pr, above) (qr, later) free = (
  (ground (arith, between p.1 q.1 r.1), ground (arith, between p.1 q.1 r.1, prefix_above p.1 r.1)),
  find_prefixed-head p q rs le above later free,
)

find_prefixed-FreePair :
    (ps : List (ℕ × Text)) → Pairwise Above ps → find_prefixed ps ≡ none → Pairwise FreePair ps
unfolding find_prefixed
find_prefixed-FreePair [] sorted h = tt
find_prefixed-FreePair (p ∷ []) sorted h = (tt, tt)
find_prefixed-FreePair (p ∷ q ∷ qs) ((le, above), (later, sorted)) h =
    elim (Bool-cases (starts_with p.1 q.1)) [
      | inl t ↦ ground (arith, t)
      | inr t ↦ (
        ((t, ground (arith, prefix_above p.1 q.1)), find_prefixed-head p q qs le above later t),
        find_prefixed-FreePair (q ∷ qs) (later, sorted) (ground (arith, t)),
      )
    ]

indexed-Free :
    (index : ℕ) (ws : List Text) → Pairwise FreePair (indexed index ws) → Pairwise Free ws
unfolding indexed
indexed-Free index [] h = tt
indexed-Free index (w ∷ ws) (h, hs) = (all_free (index + 1) ws h, indexed-Free (index + 1) ws hs)
  where
    all_free : (i : ℕ) (vs : List Text) → All (FreePair (index, w)) (indexed i vs) → All (Free w) vs
    all_free i [] h = tt
    all_free i (v ∷ vs) (h, hs) = (h, all_free (i + 1) vs hs)

check_prefixes-Free : (words : List Text) → check_prefixes words ≡ ok tt → Pairwise Free words
unfolding check_prefixes
check_prefixes-Free words h = elim (Option-cases (find_prefixed (order (indexed 0 words)))) [
  | inr (i, eq) ↦ ground (arith, eq)
  | inl eq ↦ indexed-Free 0 words (
      order-FreePair (indexed 0 words)
        (find_prefixed-FreePair (order (indexed 0 words)) (order-Above (indexed 0 words)) eq))
]

-- A wordlist that is accepted has the expected number of words, each not empty and of lowercase
-- letters and hyphens, and no word starts with another one of the list.
pub parse_of-Free :
    (expected : ℕ) (text : Text) (list : Wordlist)
    → parse_of expected text ≡ ok list
    → (length list.words ≡ expected) × (All IsWord list.words × Pairwise Free list.words)
unfolding parse_of
parse_of-Free expected text list h =
    let s1 = bind_ok (parse_lines 1 [] [] (split 10 (strip_newline text))) _ list h in
    let words = s1.0 in
    let s2 =
      refuse_if_ok (not (nat_eq (length words) expected)) (wrong_count (length words)) _ list
        s1.1.1 in
    let s3 = bind_ok (check_prefixes words) _ list s2.1 in
    subst
      (λ list. (length list.words ≡ expected) × (All IsWord list.words × Pairwise Free list.words))
      (ok_injective _ _ s3.1.1)
      (
        ground (arith, s2.0),
        (
          parse_lines-IsWord 1 [] [] (split 10 (strip_newline text)) words s1.1.0,
          check_prefixes-Free words s3.1.0,
        ),
      )
