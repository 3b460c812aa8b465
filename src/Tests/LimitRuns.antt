-- ===== src/Tests/LimitRuns.antt =====
-- Runs of the rate limiter.
use pinveil.Base.{
  ℕ, ◌-◌, ◌≡◌, ◌≤◌, refl, Text, Bool, false, [], ◌∷◌, some, arith, codes, nat_equality, nat_eq,
  length,
}
use pinveil.Base.Dict
use pinveil.Base.Strings.{split, trim}
use pinveil.RateLimit.{key_equality, key_eq, Bucket, Limits, Inner, allow}
use pinveil.RateLimit.Windows.{open_at}
use pinveil.RateLimit.Contract.{Inv, answer_for, cleaned, allow-Inv, answer-allow}
use pinveil.RateLimit.Quota.{granted, granted-le}
use pinveil.RateLimit.Address.{parse_all, client_address, client_address-nearest}

abbrev pub limits : Limits
limits = record { window = 60; create_limit = 2; retrieve_limit = 3; max_keys = 4 }

-- One client that has created once.
abbrev pub counted_once : Inner ℕ
counted_once = record {
  windows = ((Bucket.create, 7), record { started = 10; count = 1 }) ∷ [];
  expiry = (10, (Bucket.create, 7)) ∷ [];
}

pub counted_once-Inv : Inv limits 10 counted_once
unfolding Dict.get Dict.remove key_eq
counted_once-Inv = record {
  paired = ((record { started = 10; count = 1 }, refl, refl), refl);
  ordered = (omega arith, omega arith);
  distinct = (refl, tt);
  capped = omega arith;
}

granted-le_example :
    granted limits
      (Bucket.create, 7)
      ((Bucket.create, 7, 20) ∷ (Bucket.create, 8, 25) ∷ (Bucket.create, 7, 30) ∷ [])
      counted_once
    ≤ 2 - 1
unfolding Dict.get key_eq
granted-le_example =
    granted-le limits (Bucket.create, 7)
      ((Bucket.create, 7, 20) ∷ (Bucket.create, 8, 25) ∷ (Bucket.create, 7, 30) ∷ []) 10
      counted_once (record { started = 10; count = 1 }) counted_once-Inv refl
      (omega arith, omega arith, (omega arith, omega arith, (omega arith, omega arith, tt)))

answer-allow_example :
    (allow limits Bucket.create 7 20 counted_once).0
    ≡ answer_for limits Bucket.create
        (open_at 60 20 (Dict.get (Bucket.create, 7) counted_once.windows))
        (length (cleaned limits Bucket.create 7 20 10 counted_once).windows)
answer-allow_example = answer-allow limits Bucket.create 7 20 10 counted_once counted_once-Inv

allow-Inv_example : Inv limits 20 (allow limits Bucket.create 7 20 counted_once).1
allow-Inv_example =
    allow-Inv limits Bucket.create 7 20 10 counted_once (omega arith) counted_once-Inv

-- Addresses are their own texts; those that start with `t` are trusted.
abbrev trusts : Text → Bool
trusts [] = false
trusts (c ∷ cs) = nat_eq c b't'

client_address-nearest_example :
    client_address trusts (λ text. some text) (codes "tp") (codes "x, y,tq" ∷ []) ≡ codes "y"
unfolding split trim parse_all
client_address-nearest_example =
    client_address-nearest trusts (λ text. some text) (codes "tp") (codes "y") (codes "x, y,tq")
      (codes "x" ∷ []) (codes "tq" ∷ []) refl (omega arith) (omega arith) refl refl (refl, tt)
