-- ===== src/Core.antt =====
-- crates/pinveil-core: the protocol that every client and the server share.
pub mod Protocol
pub mod Bytes
pub mod Entropy
pub mod Wordlist
pub mod Generate
pub mod Envelope
pub mod Payload
pub mod IdTemplate
pub mod Crypto
pub mod ExportNames
