-- ===== src/Cli/Links/Checked.antt =====
-- crates/pinveil-cli/src/links.rs: the server of a link that parses.
use pinveil.Base.{
  ◌≡◌, ◌≢◌, refl, ◌∙◌, subst, ◌⊎◌, inl, inr, Text, Bool, true, false, not, ◌||◌, [], ◌∷◌, ◌++◌,
  Option, none, some, ok, refuse_if_ok, ok_or, bind_ok, ok_injective, codes, text_eq, text_eq_iff,
  Bool-cases, Option-cases, arith,
}
use pinveil.Base.Strings.{split_once}
use pinveil.Core.IdTemplate.{is_valid_id}
use pinveil.Cli.Links.{
  UrlOps, has_credentials, has_query, not_a_url, not_a_link, trim, ends_with_slash, rsplit_once,
  is_some, check_scheme, ServerUrl, ShareLink, is_loopback_ip, with_slash, from_url, message_at,
  link_at, parse_link,
}

-- Setting a path changes no other part of a URL, and a slash at its end stays there.
pub record KeepsParts {Url : Type 0} (ops : UrlOps Url) : Type 0 where
  pub username : (p : Text) (u : Url) → ops.username (ops.set_path p u) ≡ ops.username u
  pub password : (p : Text) (u : Url) → ops.password (ops.set_path p u) ≡ ops.password u
  pub query : (p : Text) (u : Url) → ops.query (ops.set_path p u) ≡ ops.query u
  pub fragment : (p : Text) (u : Url) → ops.fragment (ops.set_path p u) ≡ ops.fragment u
  pub scheme : (p : Text) (u : Url) → ops.scheme (ops.set_path p u) ≡ ops.scheme u
  pub host : (p : Text) (u : Url) → ops.host (ops.set_path p u) ≡ ops.host u
  pub slash :
      (p : Text) (u : Url) → ends_with_slash (ops.path (ops.set_path (p ++ codes "/") u)) ≡ true

is_some-false : (o : Option Text) → is_some o ≡ false → o ≡ none
unfolding is_some
is_some-false none h = refl
is_some-false (some t) h = ground (arith, h)

module _ {Url : Type 0} (ops : UrlOps Url) (insecure_http : Bool) where
  IsSecure : Text → Bool → Type 0
  IsSecure scheme loopback =
      (scheme ≡ codes "https")
      ⊎ ((insecure_http ≡ true) × ((scheme ≡ codes "http") × (loopback ≡ true)))

  check_scheme-IsSecure :
      (scheme : Text) (loopback : Bool)
      → check_scheme scheme insecure_http loopback ≡ ok tt
      → IsSecure scheme loopback
  unfolding check_scheme IsSecure
  check_scheme-IsSecure scheme loopback h = elim (Bool-cases (text_eq scheme (codes "https"))) [
    | inl https ↦ inl ((text_eq_iff scheme (codes "https")).0 https)
    | inr other ↦ elim (Bool-cases (text_eq scheme (codes "http"))) [
      | inl http ↦ elim (Bool-cases insecure_http) [
        | inl leave ↦ elim (Bool-cases loopback) [
          | inl here ↦ inr (leave, ((text_eq_iff scheme (codes "http")).0 http, here))
          | inr there ↦ ground (arith, h, other, http, leave, there)
        ]
        | inr no_leave ↦ ground (arith, h, other, http, no_leave)
      ]
      | inr unknown ↦ ground (arith, h, other, unknown)
    ]
  ]

  -- Over HTTPS, or with leave over HTTP to a loopback address; no user, password, query or fragment.
  pub record IsChecked (u : Url) : Type 0 where
    pub no_user : ops.username u ≡ []
    pub no_password : ops.password u ≡ none
    pub no_query : ops.query u ≡ none
    pub no_fragment : ops.fragment u ≡ none
    pub secure :
        (ops.scheme u ≡ codes "https")
        ⊎ ((insecure_http ≡ true) × ((ops.scheme u ≡ codes "http") × (is_loopback_ip ops u ≡ true)))
    pub slash : ends_with_slash (ops.path u) ≡ true

  module _ (keeps : KeepsParts ops) where
    is_loopback_ip-set_path :
        (p : Text) (u : Url) → is_loopback_ip ops (ops.set_path p u) ≡ is_loopback_ip ops u
    unfolding is_loopback_ip
    is_loopback_ip-set_path p u = rw (is_loopback_ip, keeps.host p u) refl

    with_slash-IsChecked :
        (u : Url)
        → ops.username u ≡ []
        → ops.password u ≡ none
        → ops.query u ≡ none
        → ops.fragment u ≡ none
        → IsSecure (ops.scheme u) (is_loopback_ip ops u)
        → IsChecked (with_slash ops u)
    unfolding with_slash IsSecure
    with_slash-IsChecked u no_user no_password no_query no_fragment secure =
        elim (Bool-cases (ends_with_slash (ops.path u))) [
          | inl slash ↦ rw slash (record {
            no_user = no_user;
            no_password = no_password;
            no_query = no_query;
            no_fragment = no_fragment;
            secure = secure;
            slash = slash;
          })
          | inr without ↦
              let p = ops.path u ++ codes "/" in
              rw without (record {
                no_user = keeps.username p u ∙ no_user;
                no_password = keeps.password p u ∙ no_password;
                no_query = keeps.query p u ∙ no_query;
                no_fragment = keeps.fragment p u ∙ no_fragment;
                secure = rw (keeps.scheme p u, is_loopback_ip-set_path p u) secure;
                slash = keeps.slash (ops.path u) u;
              })
        ]

    pub from_url-IsChecked :
        (u : Url) (server : ServerUrl ops)
        → from_url ops u insecure_http ≡ ok server
        → IsChecked server.url
    unfolding from_url
    from_url-IsChecked u server h =
        let bad_user = not (text_eq (ops.username u) []) || is_some (ops.password u) in
        let bad_query = is_some (ops.query u) || is_some (ops.fragment u) in
        let (user, h₁) = refuse_if_ok bad_user has_credentials _ server h in
        let (query, h₂) = refuse_if_ok bad_query has_query _ server h₁ in
        let (done, (scheme, h₃)) =
          bind_ok (check_scheme (ops.scheme u) insecure_http (is_loopback_ip ops u)) _ server h₂ in
        let checked =
          with_slash-IsChecked u ((text_eq_iff (ops.username u) []).0 (ground (arith, user)))
            (is_some-false (ops.password u) (ground (arith, user)))
            (is_some-false (ops.query u) (ground (arith, query)))
            (is_some-false (ops.fragment u) (ground (arith, query)))
            (check_scheme-IsSecure (ops.scheme u) (is_loopback_ip ops u) scheme) in
        subst (λ (r : ServerUrl ops). IsChecked r.url)
          (ok_injective (record { url = with_slash ops u }) server h₃) checked

    link_at-IsChecked :
        (base passphrase : Text) (link : ShareLink ops)
        → link_at ops base passphrase insecure_http ≡ ok link
        → IsChecked link.server.url
          × ((is_valid_id link.id ≡ true) × (link.passphrase ≡ passphrase))
    unfolding link_at message_at
    link_at-IsChecked base passphrase link h =
        let (url, (parsed, h₁)) = bind_ok (ok_or (ops.parse base) not_a_url) _ link h in
        let ((prefix, id), (cut, h₂)) =
          bind_ok (ok_or (rsplit_once (codes "/message/") (ops.path url)) not_a_link) _ link h₁ in
        let (valid, h₃) = refuse_if_ok (not (is_valid_id id)) not_a_link _ link h₂ in
        let (server, (made, h₄)) =
          bind_ok (from_url ops (ops.set_path (prefix ++ codes "/") url) insecure_http) _ link h₃ in
        subst
          (λ (r : ShareLink ops).
            IsChecked r.server.url × ((is_valid_id r.id ≡ true) × (r.passphrase ≡ passphrase)))
          (ok_injective (record { server = server; id = id; passphrase = passphrase }) link h₄)
          (from_url-IsChecked _ server made, (ground (arith, valid), refl))

    -- A share link that parses has a valid id, a passphrase that is not empty, and a server URL
    -- without user, password, query and fragment and with a slash at its end, over HTTPS, or
    -- over HTTP at a loopback address and only if plain HTTP was allowed, where setting a path
    -- changes no other part of a URL.
    pub parse_link-IsChecked :
        (text : Text) (link : ShareLink ops)
        → parse_link ops text insecure_http ≡ ok link
        → IsChecked link.server.url × ((is_valid_id link.id ≡ true) × (link.passphrase ≢ []))
    unfolding parse_link
    parse_link-IsChecked text link h = elim (Option-cases (split_once b'#' (trim text))) [
      | inl none_found ↦ ground (arith, h, none_found)
      | inr ((base, []), found) ↦ ground (arith, h, found)
      | inr ((base, c ∷ cs), found) ↦
          let (checked, (valid, kept)) =
            link_at-IsChecked base (c ∷ cs) link (ground (arith, h, found)) in
          (checked, (valid, λ e. ground (arith, kept, e)))
    ]
