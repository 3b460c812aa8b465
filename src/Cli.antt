-- ===== src/Cli.antt =====
-- crates/pinveil-cli: the command line client.
pub mod Links
pub mod Profiles
