-- ===== src/Cli/Links.antt =====
-- crates/pinveil-cli/src/links.rs: server URLs and share links. A text is the list of its characters,
-- as code points, and URLs are those of the url crate, whose operations are a parameter.
pub mod Checked
pub mod RoundTrip
use pinveil.Base.{
  ℕ, ◌/◌, Text, Bool, true, false, not, ◌&&◌, ◌||◌, List, [], ◌∷◌, ◌++◌, Option, none, some, Result,
  ok, err, ◌>>=◌, ◌>>◌, refuse_if, ok_or, nat_eq, leb, any, length, drop, codes, if◌then◌else◌,
  text_eq,
}
use pinveil.Base.Strings.{starts_with, split_once}
use pinveil.Core.ExportNames.{trim_matches}
use pinveil.Core.IdTemplate.{is_valid_id}

-- `url::Host`, with addresses as numbers.
pub data Host : Type 0 where
  domain : Text → Host
  ipv4 ipv6 : ℕ → Host

pub record UrlOps (Url : Type 0) : Type 0 where
  pub parse : Text → Option Url
  pub username : Url → Text
  pub password : Url → Option Text
  pub query : Url → Option Text
  pub fragment : Url → Option Text
  pub scheme : Url → Text
  pub host : Url → Option Host
  pub path : Url → Text
  pub set_path : Text → Url → Url
  pub as_str : Url → Text

-- The refusals, without their wording.
pub data LinkError : Type 0 where
  invalid_url has_credentials has_query : LinkError
  not_loopback needs_https unknown_scheme : LinkError
  incomplete_link not_a_url not_a_link : LinkError

-- `char::is_whitespace`
abbrev pub spaces : List ℕ
spaces = 0x20 ∷ 0x85 ∷ 0xa0 ∷ 0x1680 ∷ 0x2028 ∷ 0x2029 ∷ 0x202f ∷ 0x205f ∷ 0x3000 ∷ []

unfoldable pub is_space : ℕ → Bool
is_space c =
    (leb 9 c && leb c 13) || ((leb 0x2000 c && leb c 0x200a) || any (λ d. nat_eq d c) spaces)

unfoldable pub trim_left : Text → Text
trim_left [] = []
trim_left (c ∷ cs) = if is_space c then trim_left cs else c ∷ cs

unfoldable pub trim : Text → Text
unfolding trim_left
trim text = trim_matches is_space (trim_left text)

unfoldable pub ends_with_slash : Text → Bool
ends_with_slash [] = false
ends_with_slash (c ∷ []) = nat_eq c b'/'
ends_with_slash (c ∷ d ∷ cs) = ends_with_slash (d ∷ cs)

-- `rsplit_once`: the text before the last occurrence, and after it.
unfoldable pub cons_before : ℕ → Text × Text → Option (Text × Text)
cons_before c (before, after) = some (c ∷ before, after)

unfoldable pub rsplit_once : Text → Text → Option (Text × Text)
unfolding cons_before
rsplit_once sep [] = none
rsplit_once sep (c ∷ cs) = elim (rsplit_once sep cs) [
  | some halves ↦ cons_before c halves
  | none ↦ if starts_with sep (c ∷ cs) then some ([], drop (length sep) (c ∷ cs)) else none
]

unfoldable pub is_some : Option Text → Bool
is_some none = false
is_some (some _) = true

unfoldable pub check_scheme : Text → Bool → Bool → Result (Unit {0}) LinkError
check_scheme scheme insecure_http is_loopback =
    if text_eq scheme (codes "https")
    then ok tt
    else if text_eq scheme (codes "http")
    then (if insecure_http
        then (if is_loopback then ok tt else err not_loopback)
        else err needs_https)
    else err unknown_scheme

module _ {Url : Type 0} (ops : UrlOps Url) where
  pub record ServerUrl : Type 0 where
    pub url : Url

  pub record ShareLink : Type 0 where
    pub server : ServerUrl
    pub id : Text
    pub passphrase : Text

  -- 127.0.0.0/8 and ::1
  unfoldable pub is_loopback_ip : Url → Bool
  is_loopback_ip url = elim (ops.host url) [
    | some (ipv4 ip) ↦ nat_eq (ip / 0x1000000) 127
    | some (ipv6 ip) ↦ nat_eq ip 1
    | some (domain name) ↦ false
    | none ↦ false
  ]

  unfoldable pub with_slash : Url → Url
  unfolding ends_with_slash
  with_slash url =
      if ends_with_slash (ops.path url) then url else ops.set_path (ops.path url ++ codes "/") url

  unfoldable pub from_url : Url → Bool → Result ServerUrl LinkError
  unfolding is_some check_scheme is_loopback_ip with_slash
  from_url url insecure_http = do
    refuse_if (not (text_eq (ops.username url) []) || is_some (ops.password url)) has_credentials
    refuse_if (is_some (ops.query url) || is_some (ops.fragment url)) has_query
    check_scheme (ops.scheme url) insecure_http (is_loopback_ip url)
    ok (record { url = with_slash url })

  unfoldable pub parse_server : Text → Bool → Result ServerUrl LinkError
  unfolding trim from_url
  parse_server text insecure_http = do
    url ← ok_or (ops.parse (trim text)) invalid_url
    from_url url insecure_http

  unfoldable pub share_link : ServerUrl → Text → Text → Text
  share_link server id passphrase =
      ops.as_str server.url ++ (codes "message/" ++ (id ++ (b'#' ∷ passphrase)))

  unfoldable pub message_at : Url → Text → Bool → Text × Text → Result ShareLink LinkError
  unfolding from_url
  message_at url passphrase insecure_http (prefix, id) = do
    refuse_if (not (is_valid_id id)) not_a_link
    server ← from_url (ops.set_path (prefix ++ codes "/") url) insecure_http
    ok (record { server = server; id = id; passphrase = passphrase })

  unfoldable pub link_at : Text → Text → Bool → Result ShareLink LinkError
  unfolding rsplit_once message_at
  link_at base passphrase insecure_http = do
    url ← ok_or (ops.parse base) not_a_url
    halves ← ok_or (rsplit_once (codes "/message/") (ops.path url)) not_a_link
    message_at url passphrase insecure_http halves

  unfoldable pub parse_link : Text → Bool → Result ShareLink LinkError
  unfolding trim split_once link_at
  parse_link text insecure_http = elim (split_once b'#' (trim text)) [
    | none ↦ err incomplete_link
    | some (base, []) ↦ err incomplete_link
    | some (base, c ∷ cs) ↦ link_at base (c ∷ cs) insecure_http
  ]
