-- ===== src/Core/Protocol.antt =====
-- crates/pinveil-core/src/protocol.rs: the constants of the protocol.
use pinveil.Base.{ℕ, ◌*◌, Text, codes}

abbrev pub protocol_version : ℕ
protocol_version = 2

abbrev pub kdf_algorithm : Text
kdf_algorithm = codes "PBKDF2-SHA-256"

abbrev pub encryption_algorithm : Text
encryption_algorithm = codes "AES-256-GCM"

abbrev pub wrapping_algorithm : Text
wrapping_algorithm = codes "AES-KW"

abbrev pub kdf_iterations_min : ℕ
kdf_iterations_min = 600_000

abbrev pub kdf_iterations_max : ℕ
kdf_iterations_max = 2_000_000

abbrev pub kdf_salt_len : ℕ
kdf_salt_len = 16

abbrev pub iv_len : ℕ
iv_len = 12

abbrev pub tag_len : ℕ
tag_len = 16

abbrev pub content_key_len : ℕ
content_key_len = 32

abbrev pub wrapped_key_len : ℕ
wrapped_key_len = 40

abbrev pub max_outer_header_bytes : ℕ
max_outer_header_bytes = 1024

abbrev pub max_files_ceiling : ℕ
max_files_ceiling = 256

abbrev pub max_manifest_bytes_ceiling : ℕ
max_manifest_bytes_ceiling = 256 * 1024

abbrev pub max_name_bytes : ℕ
max_name_bytes = 255

abbrev pub max_mime_type_bytes : ℕ
max_mime_type_bytes = 255
