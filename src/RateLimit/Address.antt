-- ===== src/RateLimit/Address.antt =====
-- crates/pinveil-server/src/ratelimit.rs: whose counter a request is counted against.
use pinveil.Base.{
  ℕ, ◌≤◌, ◌≡◌, ◌∙◌, ap, Text, Bool, true, false, not, Option, none, some, List, [], ◌∷◌, ◌++◌, map,
  ltb, length, if◌then◌else◌, All, arith, append_assoc,
}
use pinveil.Base.Strings.{split, trim}
use mathlib.Core.List.{reverse, reverse-cons, reverse-append}

abbrev pub max_forwarded_bytes : ℕ
max_forwarded_bytes = 1024

abbrev pub max_forwarded_entries : ℕ
max_forwarded_entries = 32

reverse_middle {ℓ} :
    {A : Type ℓ} (xs : List A) (a : A) (ys : List A)
    → reverse (xs ++ a ∷ ys) ≡ reverse ys ++ a ∷ reverse xs
reverse_middle xs a ys =
    reverse-append xs (a ∷ ys)
    ∙ ap (λ t. t ++ reverse xs) (reverse-cons a ys)
    ∙ append_assoc (reverse ys) (a ∷ []) (reverse xs)

-- `is_trusted` is membership in the configured networks, `parse` is `str::parse::<IpAddr>`.
module _ {A : Type 0} (is_trusted : A → Bool) (parse : Text → Option A) where
  cons_parsed : Option A → Option (List A) → Option (List A)
  cons_parsed (some a) (some as') = some (a ∷ as')
  cons_parsed _ _ = none

  unfoldable pub parse_all : List Text → Option (List A)
  unfolding cons_parsed
  parse_all [] = some []
  parse_all (t ∷ ts) = cons_parsed (parse t) (parse_all ts)

  -- `find(|ip| !is_trusted(ip)).unwrap_or(peer)` on the reversed chain.
  unfoldable pub first_untrusted : A → List A → A
  first_untrusted peer [] = peer
  first_untrusted peer (a ∷ as') = if not (is_trusted a) then a else first_untrusted peer as'

  unfoldable pub walk : A → Option (List A) → A
  unfolding first_untrusted
  walk peer none = peer
  walk peer (some chain) = first_untrusted peer (reverse chain)

  unfoldable pub read_header : A → Text → A
  unfolding parse_all walk
  read_header peer header =
      if ltb max_forwarded_bytes (length header)
      then peer
      else (let entries = map trim (split b',' header) in
          if ltb max_forwarded_entries (length entries)
          then peer
          else walk peer (parse_all entries))

  unfoldable pub one_header : A → List Text → A
  unfolding read_header
  one_header peer (header ∷ []) = read_header peer header
  one_header peer _ = peer

  unfoldable pub client_address : A → List Text → A
  unfolding one_header
  client_address peer forwarded_for =
      if not (is_trusted peer) then peer else one_header peer forwarded_for

  -- The nearest untrusted hop decides: whatever an address before it claims, and with only trusted
  -- ones after it.
  first_untrusted-stop :
      (peer a : A) (after before : List A)
      → All (λ b. is_trusted b ≡ true) after
      → is_trusted a ≡ false
      → first_untrusted peer (after ++ a ∷ before) ≡ a
  unfolding first_untrusted
  first_untrusted-stop peer a [] before h f = ground arith
  first_untrusted-stop peer a (b ∷ after) before h f =
      ground (arith, first_untrusted-stop peer a after before h.1 f)

  -- A peer outside the trusted networks is counted as itself: its header is not read.
  pub client_address-untrusted :
      (peer : A) (headers : List Text)
      → is_trusted peer ≡ false
      → client_address peer headers ≡ peer
  unfolding client_address
  client_address-untrusted peer headers h = ground arith

  -- Behind a trusted peer, with one header within its limits that parses, the address that is
  -- counted is the last one of the header that is not trusted, whatever stands before it.
  pub client_address-nearest :
      (peer a : A) (header : Text) (before after : List A)
      → is_trusted peer ≡ true
      → length header ≤ max_forwarded_bytes
      → length (map trim (split b',' header)) ≤ max_forwarded_entries
      → parse_all (map trim (split b',' header)) ≡ some (before ++ a ∷ after)
      → is_trusted a ≡ false
      → All (λ b. is_trusted b ≡ true) (reverse after)
      → client_address peer (header ∷ []) ≡ a
  unfolding client_address one_header read_header walk
  client_address-nearest peer a header before after trusted short few parsed f later =
      let turned : reverse (before ++ a ∷ after) ≡ reverse after ++ a ∷ reverse before =
        reverse_middle before a after in
      ground (
        arith,
        trusted,
        parsed,
        turned,
        first_untrusted-stop peer a (reverse after) (reverse before) later f,
      )
