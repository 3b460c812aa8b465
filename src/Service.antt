-- ===== src/Service.antt =====
-- crates/pinveil-server/src/service.rs: create and retrieve, as actions on the state of a store.
-- What a request reads from outside (the clock, randomness, ids, how many others wait) is a record
-- of readings; `spawn_blocking` and `spawn` run the same calls in the same order.
pub mod Retrieval
pub mod RowLife
pub mod Creation
pub mod Lifecycle
pub mod OneReader
pub mod HashPool
pub mod OnSqlite
use pinveil.Base.{
  ℕ, zero, suc, ◌+◌, ◌-◌, ◌*◌, ◌^◌, Text, Bool, true, false, not, ◌&&◌, ◌||◌, List, [], ◌∷◌, Option,
  none, some, Result, ok, err, ok_or, ◌>>=◌, ◌>>◌, refuse_if, ltb, leb, nat_eq, length, codes,
  if◌then◌else◌,
}
use pinveil.Base.Actions.{Action}
use pinveil.Core.Protocol.{protocol_version}
use pinveil.Core.Entropy.{Source, EntropyError, fill}
use pinveil.Core.Generate.{is_ascii_digit, is_valid_pin}
use pinveil.ApiError.{
  ApiError, bad_request, invalid_pin, wrong_pin, unavailable, payload_too_large,
  service_unavailable, internal,
}
use pinveil.Pin.{PinVerifier}
use pinveil.Store.{
  Time, NewMessage, MessageMeta, is_expired_at, InsertError, id_taken, full, storage, StoreError,
  store_error, Attempt, Store,
}

abbrev pub max_id_attempts : ℕ
max_id_attempts = 10

abbrev pub pin_salt_bytes : ℕ
pin_salt_bytes = 16

-- Durations are nanoseconds too.
abbrev pub from_secs : ℕ → ℕ
from_secs n = n * 1_000_000_000

pub record Policy : Type 0 where
  pub min_ttl : ℕ
  pub max_ttl : ℕ
  pub max_payload_bytes : ℕ
  pub max_failed_attempts : ℕ

pub record Created : Type 0 where
  pub id : Text
  pub expires_at : Text

-- The fixed parts of a service. `max_time` is the last `SystemTime`, `rfc3339` is humantime's
-- formatter, `encode` is base64's.
pub record Parts (S : Type 0) : Type 0 where
  pub store : Store S
  pub verifier : PinVerifier
  pub policy : Policy
  pub max_waiting : ℕ
  pub max_time : Time
  pub rfc3339 : Time → Option Text
  pub encode : Text → Text

-- What one request reads. `ahead` is the number of hash jobs that already wait, `slots` the number
-- of free retrieval slots, `next_id k` the answer of the id source to the k-th request.
pub record Readings : Type 0 where
  pub now : Time
  pub entropy : Source
  pub ahead : ℕ
  pub slots : ℕ
  pub next_id : ℕ → Result Text EntropyError

-- `str::parse::<u64>`: an optional `+`, then digits, below 2^64.
unfoldable pub parse_digits : ℕ → Text → Option ℕ
unfolding is_ascii_digit
parse_digits acc [] = some acc
parse_digits acc (d ∷ ds) =
    let n = acc * 10 + (d - 48) in
    let rest = parse_digits n ds in if is_ascii_digit d && ltb n (2 ^ 64) then rest else none

unfoldable pub parse_unsigned : Text → Option ℕ
unfolding parse_digits
parse_unsigned [] = none
parse_unsigned (d ∷ ds) = parse_digits 0 (d ∷ ds)

unfoldable pub parse_u64 : Text → Option ℕ
unfolding parse_unsigned
parse_u64 [] = none
parse_u64 (c ∷ cs) = if nat_eq c b'+' then parse_unsigned cs else parse_unsigned (c ∷ cs)

abbrev pub is_empty : Text → Bool
is_empty [] = true
is_empty (_ ∷ _) = false

abbrev pub busy : ApiError
busy = service_unavailable (codes "The server is busy, try again shortly")

abbrev pub storage_unavailable : StoreError → ApiError
storage_unavailable _ = service_unavailable (codes "Storage is unavailable")

abbrev pub bad_ttl : ApiError
bad_ttl = bad_request (codes "TTL is outside the allowed range")

abbrev pub internal_of : EntropyError → ApiError
internal_of _ = internal

-- `HashPool::run` as one request sees it: refused when the queue is full, else the work's result.
unfoldable pub pool_run {ℓ} : {A : Type ℓ} → ℕ → ℕ → A → Result A ApiError
pool_run ahead max_waiting work = if leb max_waiting ahead then err busy else ok work

-- `SystemTime::checked_add`
unfoldable pub checked_add : Time → Time → ℕ → Option Time
checked_add max_time now ttl = if leb (now + ttl) max_time then some (now + ttl) else none

unfoldable pub or_internal {ℓ} : {A : Type ℓ} → Result A EntropyError → Result A ApiError
or_internal (ok a) = ok a
or_internal (err e) = err internal

-- The local variables of `create` when the loop over ids begins.
pub record Ready : Type 0 where
  pub secs : ℕ
  pub pin_salt : Text
  pub pin_verifier : Text
  pub expires_at : Time
  pub expires : Text

module _ {S : Type 0} (parts : Parts S) (r : Readings) where
  open parts use {store, verifier, policy}

  -- The loop over id attempts; `k` counts the ids drawn, and the blob moves in and out.
  unfoldable pub allocate :
      ℕ → ℕ → (Text → Text → NewMessage) → Text → Text → Action S ApiError Created
  allocate zero k message expires blob s =
      (err (service_unavailable (codes "Unable to allocate a message id")), s)
  allocate (suc n) k message expires blob s = elim (r.next_id k) [
    | err e ↦ (err internal, s)
    | ok id ↦
        let (answer, s') = store.insert (message id blob) r.now s in
        elim answer [
          | ok _ ↦ (ok (record { id = id; expires_at = expires }), s')
          | err e ↦ elim e [
            | id_taken returned ↦ allocate n (k + 1) message expires returned s'
            | full ↦ (err (service_unavailable (codes "Server storage is full")), s')
            | storage ↦ (err (storage_unavailable store_error), s')
          ]
        ]
  ]

  unfoldable pub message_of : Text → Text → Time → Text → Text → NewMessage
  message_of pin_salt pin_verifier expires_at id blob = record {
    id = id;
    blob = blob;
    pin_salt = pin_salt;
    pin_verifier = pin_verifier;
    expires_at = expires_at;
    protocol_version = protocol_version;
  }

  -- Everything before the loop: the checks in the code's order, then the salt, the hash, and the
  -- expiry, so that an impossible time is refused before anything is stored.
  unfoldable pub prepare : Text → Text → Text → Result Ready ApiError
  unfolding is_valid_pin parse_u64 fill or_internal pool_run checked_add
  prepare blob pin ttl = do
    refuse_if (not (is_valid_pin pin)) invalid_pin
    secs ← ok_or (parse_u64 ttl) (bad_request (codes "TTL must be a whole number of seconds"))
    refuse_if (ltb (from_secs secs) policy.min_ttl || ltb policy.max_ttl (from_secs secs)) bad_ttl
    refuse_if (is_empty blob) (bad_request (codes "The blob is empty"))
    refuse_if (ltb policy.max_payload_bytes (length blob)) payload_too_large
    salted ← or_internal (fill pin_salt_bytes r.entropy)
    let pin_salt = parts.encode salted.0
    pin_verifier ← pool_run r.ahead parts.max_waiting (verifier.hash pin pin_salt)
    expires_at ← ok_or (checked_add parts.max_time r.now (from_secs secs)) bad_ttl
    expires ← ok_or (parts.rfc3339 expires_at) bad_ttl
    ok (record {
      secs = secs;
      pin_salt = pin_salt;
      pin_verifier = pin_verifier;
      expires_at = expires_at;
      expires = expires;
    })

  unfoldable pub create : Text → Text → Text → Action S ApiError Created
  unfolding prepare allocate message_of
  create blob pin ttl s = elim (prepare blob pin ttl) [
    | err e ↦ (err e, s)
    | ok ready ↦
        allocate max_id_attempts 0 (message_of ready.pin_salt ready.pin_verifier ready.expires_at)
          ready.expires blob s
  ]
