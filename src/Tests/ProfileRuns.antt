-- ===== src/Tests/ProfileRuns.antt =====
-- Runs of the profile commands, with a format for one profile that has a TTL only: the length of its
-- name, the name and the TTL.
use pinveil.Base.{
  ◌≡◌, refl, sym, ap, ◌∙◌, Text, true, false, [], ◌∷◌, ◌++◌, Option, none, some, ok, codes, length,
  take, drop, take-length-append, drop-length-append, text_eq, text_equality, arith,
}
use pinveil.Base.Dict
use pinveil.Base.Dict.{Dict}
use pinveil.Service.{parse_u64}
use pinveil.Cli.Profiles.{Profile, Profiles, set, saved, contents, Toml, Calls, run}
use pinveil.Cli.Profiles.Kept.{ReadsBack, IsKept, WasSet, run-IsKept, run-WasSet}
use pinveil.Tests.LinkRuns.{one_host}

abbrev one_profile : Text → Text → Profiles
one_profile name ttl = record {
  default = none;
  profiles = (name, record { server = none; ttl = some ttl; out = none }) ∷ [];
}

read_one : Text → Option Profiles
read_one [] = none
read_one (n ∷ rest) = some (one_profile (take n rest) (drop n rest))

print_one : Option Text → Option Text → Option Text → Text → Option Text
print_one none (some ttl) none name = some (length name ∷ name ++ ttl)
print_one _ _ _ name = none

print_parts : Option Text → Dict Text Profile → Option Text
unfolding print_one
print_parts none ((name, p) ∷ []) = print_one p.server p.ttl p.out name
print_parts _ _ = none

abbrev toml : Toml
toml = record { from_str = read_one; to_string_pretty = λ p. print_parts p.default p.profiles }

read_one-append :
    (name ttl : Text) → read_one (length name ∷ name ++ ttl) ≡ some (one_profile name ttl)
unfolding read_one
read_one-append name ttl = ground (arith, take-length-append name ttl, drop-length-append name ttl)

Back : Option Text → Dict Text Profile → Text → Type 0
Back d m text =
    (q : Profiles) × (read_one text ≡ some q)
    × (q.default ≡ d)
    × ((k : Text) → Dict.get k q.profiles ≡ Dict.get k m)
    × Dict.Distinct q.profiles

Back-one :
    (server ttl out : Option Text) (name text : Text)
    → print_one server ttl out name ≡ some text
    → Back none ((name, record { server = server; ttl = ttl; out = out }) ∷ []) text
unfolding print_one Back Dict.get
Back-one none (some ttl) none name text h =
    let e : (length name ∷ name ++ ttl) ≡ text = ground (arith, h) in
    (
      one_profile name ttl,
      ap read_one (sym e) ∙ read_one-append name ttl,
      refl,
      (λ k. refl),
      (refl, tt),
    )
Back-one none none out name text h = ground (arith, h)
Back-one none (some ttl) (some out) name text h = ground (arith, h)
Back-one (some server) ttl out name text h = ground (arith, h)

Back-parts :
    (d : Option Text) (m : Dict Text Profile) (text : Text)
    → print_parts d m ≡ some text
    → Back d m text
unfolding print_parts
Back-parts none ((name, p) ∷ []) text h = Back-one p.server p.ttl p.out name text h
Back-parts none [] text h = ground (arith, h)
Back-parts none (a ∷ b ∷ m) text h = ground (arith, h)
Back-parts (some d) m text h = ground (arith, h)

toml-ReadsBack : ReadsBack toml
unfolding Back
toml-ReadsBack = record { reads = λ p text h. Back-parts p.default p.profiles text h }

abbrev all_succeed : Calls
all_succeed = record { create_dir_all = true; tempfile_in = true; write_all = true; persist = true }

abbrev ran_out : Calls
ran_out = record { create_dir_all = true; tempfile_in = true; write_all = false; persist = true }

-- The TTL of a profile replaces one of an hour; a name of one letter has the length 1.
abbrev hourly : Text
hourly = 1 ∷ codes "a1h"

abbrev quarterly : Text
quarterly = 1 ∷ codes "a15m"

ran :
    run one_host toml all_succeed
      (set (codes "a") none (some (codes "15m")) none false)
      (contents hourly)
    ≡ (ok (saved (codes "a")), contents quarterly)
unfolding run read_one parse_u64 text_eq Dict.get print_parts Dict.insert
ran = refl

run-WasSet_example :
    WasSet one_host toml toml-ReadsBack all_succeed
      (codes "a")
      none
      (some (codes "15m"))
      none
      false
      (contents hourly)
      (contents quarterly)
run-WasSet_example =
    run-WasSet one_host toml toml-ReadsBack all_succeed (codes "a") none (some (codes "15m")) none
      false (contents hourly) (contents quarterly) (saved (codes "a")) ran

run-IsKept_example : IsKept one_host toml toml-ReadsBack ran_out (contents hourly) (
    run one_host toml ran_out
      (set (codes "a") none (some (codes "15m")) none false)
      (contents hourly))
run-IsKept_example =
    run-IsKept one_host toml toml-ReadsBack ran_out
      (set (codes "a") none (some (codes "15m")) none false) (contents hourly)
