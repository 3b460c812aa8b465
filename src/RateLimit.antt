-- ===== src/RateLimit.antt =====
-- crates/pinveil-server/src/ratelimit.rs: the fixed-window limiter and the client address. Addresses
-- are an abstract type with equality: `IpAddr` parsing and network membership are parameters.
pub mod Windows
pub mod Contract
pub mod Quota
pub mod Address
use pinveil.Base.{
  ℕ, suc, ◌+◌, ◌≡◌, ◌↔◌, Text, Bool, true, false, not, ◌&&◌, Option, none, some, List, [], ◌∷◌,
  ◌++◌, ltb, leb, nat_eq, length, any, if◌then◌else◌, Eq, arith,
}
use pinveil.Base.Dict
use pinveil.Base.Dict.{Dict}

pub data Bucket : Type 0 where
  create retrieve : Bucket

pub record Window : Type 0 where
  pub started : ℕ
  pub count : ℕ

-- `RateLimiter::new`: the limits that `allow` reads.
pub record Limits : Type 0 where
  pub window : ℕ
  pub create_limit : ℕ
  pub retrieve_limit : ℕ
  pub max_keys : ℕ

unfoldable pub bucket_eq : Bucket → Bucket → Bool
bucket_eq create create = true
bucket_eq retrieve retrieve = true
bucket_eq _ _ = false

module _ {A : Type 0} ⦃e : Eq A⦄ where
  unfoldable pub key_eq : Bucket × A → Bucket × A → Bool
  unfolding bucket_eq
  key_eq (b, a) (c, d) = bucket_eq b c && e.agree a d

  pub key_eq_iff : (k j : Bucket × A) → (key_eq k j ≡ true) ↔ (k ≡ j)
  unfolding key_eq
  key_eq_iff (create, a) (create, d) = ground (arith, e.agree_iff a d)
  key_eq_iff (create, a) (retrieve, d) = ground arith
  key_eq_iff (retrieve, a) (create, d) = ground arith
  key_eq_iff (retrieve, a) (retrieve, d) = ground (arith, e.agree_iff a d)

  instance abbrev pub key_equality : Eq (Bucket × A)
  key_equality = record { agree = key_eq; agree_iff = key_eq_iff }

pub record Inner (A : Type 0) : Type 0 where
  pub windows : Dict (Bucket × A) Window
  pub expiry : List (ℕ × (Bucket × A))

abbrev pub limit_of : Limits → Bucket → ℕ
limit_of l create = l.create_limit
limit_of l retrieve = l.retrieve_limit

module _ {A : Type 0} ⦃e : Eq A⦄ where
  -- What popping the queue's entry does to the map.
  unfoldable pub forget : ℕ → Bucket × A → Dict (Bucket × A) Window → Dict (Bucket × A) Window
  forget started key windows = elim (Dict.get key windows) [
    | none ↦ windows
    | some w ↦ if nat_eq w.started started then Dict.remove key windows else windows
  ]

  -- The loop over the front of the queue.
  unfoldable pub expire_from : ℕ → ℕ → List (ℕ × (Bucket × A)) → Dict (Bucket × A) Window → Inner A
  unfolding forget
  expire_from window now [] windows = record { windows = windows; expiry = [] }
  expire_from window now ((started, key) ∷ rest) windows = elim (ltb now (started + window)) [
    | true ↦ record { windows = windows; expiry = (started, key) ∷ rest }
    | false ↦ expire_from window now rest (forget started key windows)
  ]

  -- The rest of `allow`, on the map without the expired windows.
  unfoldable pub count_request : Limits → Bucket → A → ℕ → Inner A → Bool × Inner A
  count_request l bucket client now s = elim (Dict.get (bucket, client) s.windows) [
    | some w ↦ if leb (limit_of l bucket) w.count then (false, s) else (
      true,
      record s {
        windows = Dict.insert (bucket, client) (record w { count = w.count + 1 }) s.windows;
      },
    )
    | none ↦ if leb l.max_keys (length s.windows) then (false, s) else (
      true,
      record {
        windows = Dict.insert (bucket, client) (record { started = now; count = 1 }) s.windows;
        expiry = s.expiry ++ (now, (bucket, client)) ∷ [];
      },
    )
  ]

  unfoldable pub allow : Limits → Bucket → A → ℕ → Inner A → Bool × Inner A
  unfolding expire_from count_request
  allow l bucket client now s =
      count_request l bucket client now (expire_from l.window now s.expiry s.windows)
