-- ===== src/Tests/ConfigRuns.antt =====
-- Runs of the configuration's checks.
use pinveil.Base.{◌*◌, ◌≡◌, ◌≤◌, refl, true, [], ◌∷◌, none, some, arith}
use pinveil.Core.Payload.{limits_new}
use pinveil.Store.Memory.{empty, admits}
use pinveil.Config.{
  MessagesConfig, StoreConfig, memory, nanos_per_second, build_messages, build_store,
  hash_concurrency,
}
use pinveil.Config.Bounds.{hash_concurrency-fits, accepted_room}

hash_concurrency-fits_example : (1 ≤ 3) × (3 * (19456 * 1024) ≤ 67_108_864)
unfolding hash_concurrency
hash_concurrency-fits_example = hash_concurrency-fits 8 67_108_864 19456 (some 5) 3 true refl

abbrev messages : MessagesConfig
messages = record {
  min_ttl = 60 * nanos_per_second;
  max_ttl = 3600 * nanos_per_second;
  default_ttl = 600 * nanos_per_second;
  ttl_presets = (60 * nanos_per_second) ∷ [];
  max_payload_bytes = 1000;
  max_files = 10;
  max_manifest_bytes = 4096;
  pbkdf2_iterations = 600_000;
}

abbrev in_memory : StoreConfig
in_memory = record { mode = memory; path = none; max_messages = 10; max_bytes = 5000 }

accepted_room_example :
    (admits (record { max_messages = 10; max_bytes = 5000 }) 1000 empty ≡ true)
    × (limits_new 10 4096 ≡ some (record { max_files = 10; max_manifest_bytes = 4096 }))
unfolding build_messages build_store
accepted_room_example = accepted_room messages in_memory 1000 refl refl (omega arith)
