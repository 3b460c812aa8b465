-- ===== src/Lib.antt =====
-- pinveil: one-time messages, encrypted by the client and held by a server that never sees a key.
--
-- A client encodes a message (text and files) as a payload, seals it under a passphrase and a
-- six-digit PIN into a blob, and posts the blob with the PIN to the server. The server stores the
-- blob under a generated id with a hash of the PIN and an expiry. A reader who has the share link
-- (id and passphrase) and the PIN retrieves the blob once; a wrong PIN is counted, and at the limit
-- the message is deleted. Requests are limited for each client address.
--
-- The parts, and the code that each one models:
--   Core/Protocol     crates/pinveil-core/src/protocol.rs, the constants
--   Core/Entropy      crates/pinveil-core/src/entropy.rs; a source is the list of bytes that it
--                     will deliver before it fails, and `fill` and `uniform_below` read from it
--   Core/Wordlist     crates/pinveil-core/src/wordlist.rs; `parse_of` is `Wordlist::parse` with
--                     the number of words as an argument
--   Core/Generate     crates/pinveil-core/src/generate.rs: `pin`, `random_words`, `passphrase`
--   Core/IdTemplate   crates/pinveil-core/src/id_template.rs: `parse`, `generate`, `is_valid_id`
--   Core/ExportNames  crates/pinveil-core/src/export_names.rs: `sanitize`, `disambiguate`,
--                     `export_names`, on names as lists of code points
--   Core/Payload      crates/pinveil-core/src/payload.rs: `encode_payload`, `measure_payload`,
--                     `decode_payload`
--   Core/Envelope     crates/pinveil-core/src/envelope.rs: `encode_outer`, `decode_outer`
--   Core/Crypto       crates/pinveil-core/src/crypto.rs: `seal`, `open`, `open_payload`
--   Core/Bytes        the big-endian `u32` and the UTF-8 check that payload and envelope share
--   Store             crates/pinveil-server/src/store.rs: the trait, as a record of operations on
--                     a state
--   Store/Memory      the same file: `Inner` and `MemoryStore`, one function for each method; the
--                     mutex makes each of them one step
--   Store/Sqlite      crates/pinveil-server/src/sqlite.rs: each method as a transaction of SQL
--                     statements on a table of rows; a connection says which SQL calls fail.
--                     Sqlite/Opening is `open` and `prepare`
--   Pin, ApiError     crates/pinveil-server/src/pin.rs and error.rs
--   Service           crates/pinveil-server/src/service.rs: `create`, and in Service/Retrieval
--                     `retrieve`, `retrieve_now` and `sweep`, as actions on the state of a store;
--                     Service/HashPool is `HashPool`, as steps that calls take in any order
--   RateLimit         crates/pinveil-server/src/ratelimit.rs: `allow`, and in RateLimit/Address
--                     `client_address`
--   Api               crates/pinveil-server/src/api.rs: the limiter in front, the form of a
--                     create, and the handlers, on a message store and the limiter's state
--   Config            crates/pinveil-server/src/config.rs: the checks on settings; Config/Loading
--                     is `load` up to them
--   Cli/Links         crates/pinveil-cli/src/links.rs: `ServerUrl`, `ShareLink`, on texts as lists
--                     of code points
--   Cli/Profiles      crates/pinveil-cli/src/profile.rs: the commands on the profiles file, as steps
--                     from one content of the file to the next; `parse_ttl`
--   Base              lists, texts, results, association lists and tests that the parts share
--   Tests             concrete runs
--
-- The service takes any store and any verifier; the theorems on message lives are for the memory
-- store, and Service/OnSqlite and Store/Sqlite/Histories are about how the SQLite store answers
-- beside it. Numbers of the source are natural numbers, and where a sum may leave its width the
-- remainder by 2^32 or 2^64 is written out: the accounting of the store states the sizes for which
-- it does not. The columns of the SQLite table are natural numbers too, with the error of SQLite
-- where a value would leave 63 bits; the store writes no negative one. Times are nanoseconds. A
-- string is the list of its bytes, except where the file says that it is the list of its code
-- points.
--
-- Loops: the rejection sampler reads four bytes a round and ends with its source; the loop over ids
-- ends after ten; the limiter's loop follows its queue. The template's parser has fuel, one unit
-- for each byte of the text, and every round takes at least one byte. The loop that numbers export
-- names has one more unit than twice the names in use: numbers differ, so at most that many are
-- taken, once with the extension and once without.
--
-- Parameters, for code that is not in the repository: serde_json, base64, PBKDF2, AES-KW, AES-GCM,
-- the argon2 crate, SHA-256, tokio's semaphore, axum's reading of requests, humantime's formatter,
-- the TOML parser, Unicode's lowercase, the url crate, and the parsing and matching of addresses. A
-- theorem that relies on one of them says what it relies on.
--
-- Not modelled: pages and static assets, the parsing of the numbers and durations of settings, the
-- settings of message ids, the rest of the command line client, and the browser client. SQLite is
-- the meaning of the statements in the source, whose calls may fail at any point; a crash of the
-- machine is not modelled. An action of the service is one request: how many others wait for the
-- hash pool and how many slots are free are readings of it, and the striped locks, which keep
-- requests on one id apart, are not modelled.
pub mod Base
pub mod Core
pub mod ApiError
pub mod Store
pub mod Pin
pub mod Service
pub mod RateLimit
pub mod Api
pub mod Config
pub mod Cli
pub mod Tests
