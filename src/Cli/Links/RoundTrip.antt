-- ===== src/Cli/Links/RoundTrip.antt =====
-- crates/pinveil-cli/src/links.rs: a share link reads back.
use pinveil.Base.{
  ℕ, ◌≡◌, ◌≢◌, refl, sym, ap, ◌∙◌, inl, inr, Text, Bool, true, false, not, [], ◌∷◌, ◌++◌,
  append_assoc, none, some, ok, codes, text_eq, Bool-cases, nat_eq, all, all-append, arith,
}
use pinveil.Base.Strings.{split_once, starts_with}
use pinveil.Core.ExportNames.{trim_matches, cons_kept}
use pinveil.Core.IdTemplate.{is_id_byte, is_valid_id}
use pinveil.Cli.Links.{
  UrlOps, is_space, trim_left, trim, ends_with_slash, cons_before, rsplit_once, is_some,
  check_scheme, ServerUrl, is_loopback_ip, with_slash, from_url, share_link, message_at, link_at,
  parse_link,
}
use pinveil.Cli.Links.Checked.{IsChecked}

abbrev pub is_dark : ℕ → Bool
is_dark c = not (is_space c)

abbrev pub is_other : ℕ → ℕ → Bool
is_other d c = not (nat_eq c d)

abbrev pub message_path : Text → Text
message_path id = codes "message/" ++ id

-- What the url crate does with the text of a URL that has no query and no fragment, and with
-- characters of ids after it, which stay as they are.
pub record Extends {Url : Type 0} (ops : UrlOps Url) : Type 0 where
  pub no_hash :
      (insecure_http : Bool) (u : Url)
      → IsChecked ops insecure_http u
      → all (is_other b'#') (ops.as_str u) ≡ true
  pub no_space :
      (insecure_http : Bool) (u : Url)
      → IsChecked ops insecure_http u
      → all is_dark (ops.as_str u) ≡ true
  pub reads :
      (insecure_http : Bool) (u : Url) (id : Text)
      → IsChecked ops insecure_http u
      → is_valid_id id ≡ true
      → (v : Url) × (ops.parse (ops.as_str u ++ message_path id) ≡ some v)
        × (ops.path v ≡ ops.path u ++ message_path id)
        × (ops.set_path (ops.path u) v ≡ u)

all-weaken :
    (p q : ℕ → Bool) (s : Text)
    → ((c : ℕ) → p c ≡ true → q c ≡ true)
    → all p s ≡ true
    → all q s ≡ true
all-weaken p q [] weaker h = refl
all-weaken p q (c ∷ s) weaker h =
    ground (arith, weaker c (ground (arith, h)), all-weaken p q s weaker (ground (arith, h)))

trim_left-dark : (s : Text) → all is_dark s ≡ true → trim_left s ≡ s
unfolding trim_left
trim_left-dark [] h = refl
trim_left-dark (c ∷ s) h = ground (arith, h)

trim_matches-dark : (s : Text) → all is_dark s ≡ true → trim_matches is_space s ≡ s
unfolding trim_matches cons_kept
trim_matches-dark [] h = refl
trim_matches-dark (c ∷ s) h = ground (arith, h, trim_matches-dark s (ground (arith, h)))

trim-dark : (s : Text) → all is_dark s ≡ true → trim s ≡ s
unfolding trim
trim-dark s h = ap (trim_matches is_space) (trim_left-dark s h) ∙ trim_matches-dark s h

split_once-append :
    (d : ℕ) (s t : Text) → all (is_other d) s ≡ true → split_once d (s ++ d ∷ t) ≡ some (s, t)
unfolding split_once
split_once-append d [] t h = ground arith
split_once-append d (c ∷ s) t h = ground (arith, h, split_once-append d s t (ground (arith, h)))

starts_with-other :
    (d : ℕ) (s t : Text)
    → all (is_other d) s ≡ false
    → all (is_other d) t ≡ true
    → starts_with s t ≡ false
unfolding starts_with
starts_with-other d [] t h k = ground (arith, h)
starts_with-other d (c ∷ s) [] h k = refl
starts_with-other d (c ∷ s) (e ∷ t) h k = elim (Bool-cases (nat_eq c e)) [
  | inl same ↦ ground (arith, h, k, same, starts_with-other d s t)
  | inr differ ↦ ground (arith, differ)
]

rsplit_once-none :
    (s : Text) → all (is_other b'/') s ≡ true → rsplit_once (codes "/message/") s ≡ none
unfolding rsplit_once starts_with
rsplit_once-none [] h = refl
rsplit_once-none (c ∷ s) h = ground (arith, h, rsplit_once-none s (ground (arith, h)))

rsplit_once-message :
    (before id : Text)
    → all (is_other b'/') id ≡ true
    → rsplit_once (codes "/message/") (before ++ (codes "/message/" ++ id)) ≡ some (before, id)
unfolding rsplit_once starts_with cons_before
rsplit_once-message [] id h =
    ground (arith, rsplit_once-none id h, starts_with-other b'/' (codes "message/") id refl h)
rsplit_once-message (c ∷ before) id h = ground (arith, rsplit_once-message before id h)

ends_with_slash-cut :
    (s : Text) → ends_with_slash s ≡ true → (before : Text) × (s ≡ before ++ codes "/")
unfolding ends_with_slash
ends_with_slash-cut [] h = ground (arith, h)
ends_with_slash-cut (c ∷ []) h = ([], ground (arith, h))
ends_with_slash-cut (c ∷ d ∷ s) h =
    let (before, e) = ends_with_slash-cut (d ∷ s) h in (c ∷ before, ap (λ r. c ∷ r) e)

is_id_byte-dark : (c : ℕ) → is_id_byte c ≡ true → is_dark c ≡ true
unfolding is_id_byte is_space
is_id_byte-dark c h = ground (arith, h)

is_id_byte-other :
    (c : ℕ) → is_id_byte c ≡ true → (is_other b'/' c ≡ true) × (is_other b'#' c ≡ true)
unfolding is_id_byte
is_id_byte-other c h = ground (arith, h)

valid-bytes : (id : Text) → is_valid_id id ≡ true → all is_id_byte id ≡ true
unfolding is_valid_id
valid-bytes id h = ground (arith, h)

module _ {Url : Type 0} (ops : UrlOps Url) (extends : Extends ops) (insecure_http : Bool) where
  check_scheme-ok :
      (u : Url)
      → IsChecked ops insecure_http u
      → check_scheme (ops.scheme u) insecure_http (is_loopback_ip ops u) ≡ ok tt
  unfolding check_scheme text_eq
  check_scheme-ok u c = elim c.secure [
    | inl https ↦ rw https refl
    | inr (leave, (http, here)) ↦ rw (http, leave, here) refl
  ]

  from_url-ok :
      (u : Url)
      → IsChecked ops insecure_http u
      → from_url ops u insecure_http ≡ ok (record { url = u })
  unfolding from_url with_slash is_some text_eq
  from_url-ok u c =
      rw (c.no_user, c.no_password, c.no_query, c.no_fragment, check_scheme-ok u c, c.slash) refl

  message_at-ok :
      (u v : Url) (before id passphrase : Text)
      → IsChecked ops insecure_http u
      → is_valid_id id ≡ true
      → ops.set_path (before ++ codes "/") v ≡ u
      → message_at ops v passphrase insecure_http (before, id)
        ≡ ok (record { server = record { url = u }; id = id; passphrase = passphrase })
  unfolding message_at
  message_at-ok u v before id passphrase c valid back = rw (valid, back, from_url-ok u c) refl

  link_at-ok :
      (u : Url) (id passphrase : Text)
      → IsChecked ops insecure_http u
      → is_valid_id id ≡ true
      → link_at ops (ops.as_str u ++ message_path id) passphrase insecure_http
        ≡ ok (record { server = record { url = u }; id = id; passphrase = passphrase })
  unfolding link_at
  link_at-ok u id passphrase c valid =
      let (v, read, path, back) = extends.reads insecure_http u id c valid in
      let (before, cut) = ends_with_slash-cut (ops.path u) c.slash in
      let bytes =
        all-weaken is_id_byte (is_other b'/') id (λ b k. (is_id_byte-other b k).0)
          (valid-bytes id valid) in
      let found : rsplit_once (codes "/message/") (ops.path v) ≡ some (before, id) =
        ap (rsplit_once (codes "/message/")) (
          path
          ∙ (ap (λ r. r ++ message_path id) cut
              ∙ append_assoc before (codes "/") (message_path id)))
        ∙ rsplit_once-message before id bytes in
      rw (read, found)
        (message_at-ok u v before id passphrase c valid
          (ap (λ r. ops.set_path r v) (sym cut) ∙ back))

  link-dark :
      (u : Url) (id passphrase : Text)
      → IsChecked ops insecure_http u
      → is_valid_id id ≡ true
      → all is_dark passphrase ≡ true
      → all is_dark (share_link ops (record { url = u }) id passphrase) ≡ true
  unfolding share_link is_space
  link-dark u id passphrase c valid dark = ground (
    arith,
    all-append is_dark (ops.as_str u) (codes "message/" ++ (id ++ b'#' ∷ passphrase)),
    all-append is_dark id (b'#' ∷ passphrase),
    extends.no_space insecure_http u c,
    all-weaken is_id_byte is_dark id is_id_byte-dark (valid-bytes id valid),
    dark,
  )

  base-hashless :
      (u : Url) (id : Text)
      → IsChecked ops insecure_http u
      → is_valid_id id ≡ true
      → all (is_other b'#') (ops.as_str u ++ message_path id) ≡ true
  base-hashless u id c valid = ground (
    arith,
    all-append (is_other b'#') (ops.as_str u) (message_path id),
    extends.no_hash insecure_http u c,
    all-weaken is_id_byte (is_other b'#') id (λ b k. (is_id_byte-other b k).1)
        (valid-bytes id valid),
  )

  link-cut :
      (u : Url) (id passphrase : Text)
      → IsChecked ops insecure_http u
      → is_valid_id id ≡ true
      → all is_dark passphrase ≡ true
      → split_once b'#' (trim (share_link ops (record { url = u }) id passphrase))
        ≡ some (ops.as_str u ++ message_path id, passphrase)
  unfolding share_link
  link-cut u id passphrase c valid dark =
      ap (split_once b'#') (
        trim-dark _ (link-dark u id passphrase c valid dark)
        ∙ sym (append_assoc (ops.as_str u) (message_path id) (b'#' ∷ passphrase)))
      ∙ split_once-append b'#' _ passphrase (base-hashless u id c valid)

  -- The share link that is made of a checked server URL, a valid id and a passphrase without
  -- white space that is not empty parses to that server, id and passphrase, where the url crate
  -- reads the text of a URL and the path of a message after it back.
  pub parse_link-share_link :
      (server : ServerUrl ops) (id passphrase : Text)
      → IsChecked ops insecure_http server.url
      → is_valid_id id ≡ true
      → passphrase ≢ []
      → all is_dark passphrase ≡ true
      → parse_link ops (share_link ops server id passphrase) insecure_http
        ≡ ok (record { server = server; id = id; passphrase = passphrase })
  unfolding parse_link
  parse_link-share_link server id [] c valid some_text dark = ground (arith, some_text)
  parse_link-share_link server id (p ∷ ps) c valid some_text dark = ground (
    arith,
    link-cut server.url id (p ∷ ps) c valid dark,
    link_at-ok server.url id (p ∷ ps) c valid,
  )
