-- ===== src/Tests/LoadRuns.antt =====
-- A run of the loading of settings.
use pinveil.Base.{◌≡◌, refl, [], ◌∷◌, some, ok, codes, text_eq, text_equality}
use pinveil.Base.Dict
use pinveil.Base.Strings.{to_lower, to_ascii_lowercase, starts_with}
use pinveil.Config.Loading.{
  Settings, defaults, string, array, item, no_items, table, entry, no_entries, Sources, join, load,
}
use pinveil.Config.Loading.Precedence.{IsLoaded, load-IsLoaded}

abbrev sources : Sources
sources = record {
  args = codes "--listen" ∷ codes "1.2.3.4:80" ∷ codes "--config" ∷ codes "p" ∷ [];
  env = (codes "PINVEIL_STORE__MODE", codes "sqlite") ∷ (codes "HOME", codes "x") ∷ [];
  read_file = λ path. some (
      some (
        entry (codes "server")
          (table (
            entry (codes "listen") (string (codes "9.9.9.9:9")) (
              entry (codes "trusted_proxies")
                (array (item (string (codes "a")) (item (string (codes "b")) no_items)))
                no_entries)))
          no_entries));
  to_lowercase = to_ascii_lowercase;
}

abbrev loaded : Settings
loaded = Dict.insert (codes "server.listen") (codes "1.2.3.4:80") (
    Dict.insert (codes "store.mode") (codes "sqlite") (
      Dict.insert (codes "server.trusted_proxies") (codes "a,b")
        (Dict.insert (codes "server.listen") (codes "9.9.9.9:9") defaults)))

load_ran : load sources ≡ ok loaded
unfolding load Dict.insert Dict.get starts_with to_ascii_lowercase to_lower text_eq join
load_ran = refl

load-IsLoaded_example : IsLoaded sources loaded
load-IsLoaded_example = load-IsLoaded sources loaded load_ran
