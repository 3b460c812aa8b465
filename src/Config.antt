-- ===== src/Config.antt =====
-- crates/pinveil-server/src/config.rs: the checks on settings that were read. How a setting is
-- found and parsed is not modelled: it is a number here, and a duration is in nanoseconds.
pub mod Bounds
pub mod Loading
use pinveil.Base.{
  ℕ, ◌*◌, ◌/◌, ◌%◌, Text, Bool, true, false, ◌&&◌, ◌||◌, not, min, max, List, [], ◌∷◌, Option, none,
  some, Result, ok, err, ◌>>=◌, ◌>>◌, refuse_if, leb, ltb, nat_eq, all, any, if◌then◌else◌, text_eq,
}
use pinveil.Core.Envelope.{is_accepted_kdf_iterations}
use pinveil.Core.Protocol.{max_files_ceiling, max_manifest_bytes_ceiling}

abbrev pub nanos_per_second : ℕ
nanos_per_second = 1_000_000_000

abbrev pub max_ttl_limit : ℕ
max_ttl_limit = 24 * 3650 * 3600 * nanos_per_second

abbrev pub zip32_max_payload_bytes : ℕ
zip32_max_payload_bytes = 4_000_000_000

-- The refusals, without their wording.
pub data ConfigError : Type 0 where
  ttl_not_whole_seconds max_ttl_too_long bad_min_ttl ttl_out_of_range : ConfigError
  bad_max_payload_bytes bad_max_files bad_max_manifest_bytes bad_pbkdf2_iterations : ConfigError
  store_path_missing store_too_small : ConfigError
  hash_memory_too_small no_concurrent_hashes : ConfigError
  pin_limits_not_positive bad_argon2_params bad_rate_limit : ConfigError

pub record MessagesConfig : Type 0 where
  pub min_ttl : ℕ
  pub max_ttl : ℕ
  pub default_ttl : ℕ
  pub ttl_presets : List ℕ
  pub max_payload_bytes : ℕ
  pub max_files : ℕ
  pub max_manifest_bytes : ℕ
  pub pbkdf2_iterations : ℕ

unfoldable pub is_fractional : ℕ → Bool
is_fractional d = not (nat_eq (d % nanos_per_second) 0)

unfoldable pub in_range : MessagesConfig → ℕ → Bool
in_range m d = leb m.min_ttl d && leb d m.max_ttl

unfoldable pub build_messages : MessagesConfig → Result MessagesConfig ConfigError
unfolding is_fractional in_range is_accepted_kdf_iterations
build_messages m = do
  refuse_if (any is_fractional (m.min_ttl ∷ m.max_ttl ∷ m.default_ttl ∷ m.ttl_presets))
      ttl_not_whole_seconds
  refuse_if (ltb max_ttl_limit m.max_ttl) max_ttl_too_long
  refuse_if (ltb m.min_ttl nanos_per_second || ltb m.max_ttl m.min_ttl) bad_min_ttl
  refuse_if (not (in_range m m.default_ttl) || not (all (in_range m) m.ttl_presets))
      ttl_out_of_range
  refuse_if (nat_eq m.max_payload_bytes 0 || ltb zip32_max_payload_bytes m.max_payload_bytes)
      bad_max_payload_bytes
  refuse_if (not (leb 1 m.max_files && leb m.max_files max_files_ceiling)) bad_max_files
  refuse_if
      (not (leb 1 m.max_manifest_bytes && leb m.max_manifest_bytes max_manifest_bytes_ceiling))
      bad_max_manifest_bytes
  refuse_if (not (is_accepted_kdf_iterations m.pbkdf2_iterations)) bad_pbkdf2_iterations
  ok m

pub data StoreMode : Type 0 where
  memory sqlite : StoreMode

pub record StoreConfig : Type 0 where
  pub mode : StoreMode
  pub path : Option Text
  pub max_messages : ℕ
  pub max_bytes : ℕ

-- `mode == Sqlite && path.is_none()`
unfoldable pub lacks_path : StoreMode → Option Text → Bool
lacks_path sqlite none = true
lacks_path _ _ = false

unfoldable pub build_store : StoreConfig → MessagesConfig → Result StoreConfig ConfigError
unfolding lacks_path
build_store s m = do
  refuse_if (lacks_path s.mode s.path) store_path_missing
  refuse_if (nat_eq s.max_messages 0 || ltb s.max_bytes m.max_payload_bytes) store_too_small
  ok s

-- A division by the memory of one hash; the answer says whether an explicit value was lowered.
unfoldable pub hash_concurrency : ℕ → ℕ → ℕ → Option ℕ → Result (ℕ × Bool) ConfigError
hash_concurrency cpus budget_bytes memory_kib explicit =
    let fits = budget_bytes / max (memory_kib * 1024) 1 in
    if nat_eq fits 0 then err hash_memory_too_small else (elim explicit [
      | none ↦ ok (min (max cpus 1) fits, false)
      | some n ↦
          if nat_eq n 0
          then err no_concurrent_hashes
          else (if ltb fits n then ok (fits, true) else ok (n, false))
    ])

pub record PinConfig : Type 0 where
  pub pepper : Text
  pub max_failed_attempts : ℕ
  pub argon2_iterations : ℕ
  pub argon2_memory_kib : ℕ
  pub argon2_parallelism : ℕ
  pub max_concurrent_hashes : ℕ
  pub max_hash_memory_bytes : ℕ
  pub max_queued_hashes : ℕ

-- The settings of the PIN as they were read: the hash count is optional.
pub record PinSettings : Type 0 where
  pub pepper : Text
  pub max_failed_attempts : ℕ
  pub argon2_iterations : ℕ
  pub argon2_memory_kib : ℕ
  pub argon2_parallelism : ℕ
  pub explicit_hashes : Option ℕ
  pub max_hash_memory_bytes : ℕ
  pub max_queued_hashes : ℕ

-- `params_ok` is `argon2::Params::new(..).is_ok()` on memory, iterations and parallelism. The
-- answer has the warnings: a lowered count, an empty pepper.
unfoldable pub build_pin :
    (ℕ → ℕ → ℕ → Bool) → PinSettings → ℕ → Result (PinConfig × (Bool × Bool)) ConfigError
unfolding hash_concurrency
build_pin params_ok v cpus = do
  concurrency ← hash_concurrency cpus v.max_hash_memory_bytes v.argon2_memory_kib v.explicit_hashes
  refuse_if (nat_eq v.max_failed_attempts 0 || nat_eq v.max_queued_hashes 0) pin_limits_not_positive
  refuse_if (not (params_ok v.argon2_memory_kib v.argon2_iterations v.argon2_parallelism))
      bad_argon2_params
  ok (
    record {
      pepper = v.pepper;
      max_failed_attempts = v.max_failed_attempts;
      argon2_iterations = v.argon2_iterations;
      argon2_memory_kib = v.argon2_memory_kib;
      argon2_parallelism = v.argon2_parallelism;
      max_concurrent_hashes = concurrency.0;
      max_hash_memory_bytes = v.max_hash_memory_bytes;
      max_queued_hashes = v.max_queued_hashes;
    },
    (concurrency.1, text_eq v.pepper []),
  )

pub record RateLimitConfig : Type 0 where
  pub window : ℕ
  pub create_per_window : ℕ
  pub retrieve_per_window : ℕ
  pub max_tracked_keys : ℕ

unfoldable pub build_rate_limit : RateLimitConfig → Result RateLimitConfig ConfigError
build_rate_limit r = do
  refuse_if
      (ltb r.window nanos_per_second
        || (nat_eq r.create_per_window 0
            || (nat_eq r.retrieve_per_window 0 || nat_eq r.max_tracked_keys 0)))
      bad_rate_limit
  ok r
