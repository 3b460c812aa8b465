-- ===== src/Tests/LinkRuns.antt =====
-- Runs of share links, on URLs of one host whose path has the characters from `$` to `~` and those
-- after the last white space; every number stands for one of them.
use pinveil.Base.{
  ℕ, ◌+◌, ◌-◌, ◌≡◌, ◌≢◌, refl, ap, inl, Text, true, false, [], ◌∷◌, ◌++◌, map, Option, none, some,
  ok, codes, ltb, if◌then◌else◌, text_eq, all, arith,
}
use pinveil.Base.Strings.{starts_with}
use pinveil.Config.Loading.{strip_prefix}
use pinveil.Core.ExportNames.{trim_matches}
use pinveil.Core.IdTemplate.{is_valid_id, is_id_byte}
use pinveil.Cli.Links.{
  UrlOps, domain, is_space, ends_with_slash, ServerUrl, ShareLink, parse_link, share_link,
}
use pinveil.Cli.Links.Checked.{KeepsParts, IsChecked, parse_link-IsChecked}
use pinveil.Cli.Links.RoundTrip.{is_dark, is_other, message_path, Extends, parse_link-share_link}

abbrev pub chr : ℕ → ℕ
chr k = if ltb k 91 then k + 36 else k - 91 + 0x3001

abbrev pub ord : ℕ → ℕ
ord c = if ltb c 127 then c - 36 else c - 0x3001 + 91

abbrev pub read_all : Option Text → Option Text
read_all none = none
read_all (some path) = some (map ord path)

abbrev pub one_host : UrlOps Text
one_host = record {
  parse = λ text. read_all (strip_prefix (codes "https://h") text);
  username = λ u. [];
  password = λ u. none;
  query = λ u. none;
  fragment = λ u. none;
  scheme = λ u. codes "https";
  host = λ u. some (domain (codes "h"));
  path = λ u. map chr u;
  set_path = λ p u. map ord p;
  as_str = λ u. codes "https://h" ++ map chr u;
}

ends_with_slash-append : (s : Text) → ends_with_slash (map chr (map ord (s ++ codes "/"))) ≡ true
unfolding ends_with_slash
ends_with_slash-append [] = refl
ends_with_slash-append (c ∷ []) = refl
ends_with_slash-append (c ∷ d ∷ s) = ends_with_slash-append (d ∷ s)

one_host-KeepsParts : KeepsParts one_host
one_host-KeepsParts = record {
  username = λ p u. refl;
  password = λ p u. refl;
  query = λ p u. refl;
  fragment = λ p u. refl;
  scheme = λ p u. refl;
  host = λ p u. refl;
  slash = λ p u. ends_with_slash-append p;
}

map-ord-chr : (u : Text) → map ord (map chr u) ≡ u
map-ord-chr [] = refl
map-ord-chr (k ∷ u) = ground (arith, map-ord-chr u)

map-chr-ord : (u : Text) → all is_id_byte u ≡ true → map chr (map ord u) ≡ u
unfolding is_id_byte
map-chr-ord [] h = refl
map-chr-ord (c ∷ u) h = ground (arith, h, map-chr-ord u)

map-chr-append :
    (u rest : Text)
    → map chr (map ord rest) ≡ rest
    → map chr (map ord (map chr u ++ rest)) ≡ map chr u ++ rest
map-chr-append [] rest h = h
map-chr-append (k ∷ u) rest h = ground (arith, map-chr-append u rest h)

all_other-chr : (u : Text) → all (is_other b'#') (map chr u) ≡ true
all_other-chr [] = refl
all_other-chr (k ∷ u) = ground (arith, all_other-chr u)

is_dark-chr : (k : ℕ) → is_dark (chr k) ≡ true
unfolding is_space
is_dark-chr k = ground arith

all_dark-chr : (u : Text) → all is_dark (map chr u) ≡ true
all_dark-chr [] = refl
all_dark-chr (k ∷ u) = ground (arith, is_dark-chr k, all_dark-chr u)

one_host-Extends : Extends one_host
unfolding is_space strip_prefix is_valid_id
one_host-Extends = record {
  no_hash = λ insecure u c. all_other-chr u;
  no_space = λ insecure u c. all_dark-chr u;
  reads = λ insecure u id c valid. (
    map ord (map chr u ++ message_path id),
    refl,
    map-chr-append u (message_path id)
        (ap (λ s. codes "message/" ++ s) (map-chr-ord id (ground (arith, valid)))),
    map-ord-chr u,
  );
}

-- The path `/`.
abbrev root : ServerUrl one_host
root = record { url = 11 ∷ [] }

abbrev parsed : ShareLink one_host
parsed = record { server = root; id = codes "a-1"; passphrase = codes "cloak-tidal" }

root-IsChecked : IsChecked one_host false root.url
unfolding ends_with_slash
root-IsChecked = record {
  no_user = refl;
  no_password = refl;
  no_query = refl;
  no_fragment = refl;
  secure = inl refl;
  slash = refl;
}

parse_link-share_link_example :
    parse_link one_host (share_link one_host root (codes "a-1") (codes "cloak-tidal")) false
    ≡ ok parsed
unfolding is_valid_id is_space text_eq
parse_link-share_link_example =
    parse_link-share_link one_host one_host-Extends false root (codes "a-1") (codes "cloak-tidal")
      root-IsChecked refl (λ e. ground (arith, e)) refl

parse_link-IsChecked_example :
    IsChecked one_host false root.url
    × ((is_valid_id (codes "a-1") ≡ true) × (codes "cloak-tidal" ≢ []))
unfolding parse_link trim_matches is_space strip_prefix starts_with is_valid_id text_eq
parse_link-IsChecked_example =
    parse_link-IsChecked one_host false one_host-KeepsParts
      (codes " https://h/message/a-1#cloak-tidal") parsed refl
