-- ===== src/Store.antt =====
-- crates/pinveil-server/src/store.rs: the types of message storage and the `Store` trait, the seam
-- through which the service reaches a backend. The backends are the child modules.
pub mod Memory
pub mod Sqlite
use pinveil.Base.{ℕ, Text, Bool, Option, Result, leb}

-- `SystemTime` is a number of nanoseconds.
abbrev pub Time : Type 0
Time = ℕ

pub record NewMessage : Type 0 where
  pub id : Text
  pub blob : Text
  pub pin_salt : Text
  pub pin_verifier : Text
  pub expires_at : Time
  pub protocol_version : ℕ

pub record MessageMeta : Type 0 where
  pub generation : ℕ
  pub pin_salt : Text
  pub pin_verifier : Text
  pub expires_at : Time
  pub failed_attempts : ℕ

unfoldable pub is_expired_at : MessageMeta → Time → Bool
is_expired_at meta now = leb meta.expires_at now

pub data InsertError : Type 0 where
  id_taken : Text → InsertError
  full storage : InsertError

pub data StoreError : Type 0 where
  store_error : StoreError

pub data Attempt : Type 0 where
  counted : ℕ → Attempt
  burned : Attempt

-- A backend over its state `S`. Every method is one atomic step on the state.
pub record Store (S : Type 0) : Type 0 where
  pub insert : NewMessage → Time → S → Result (Unit {0}) InsertError × S
  pub meta : Text → S → Result (Option MessageMeta) StoreError × S
  pub record_failure : Text → ℕ → ℕ → S → Result (Option Attempt) StoreError × S
  pub consume : Text → ℕ → S → Result (Option Text) StoreError × S
  pub remove : Text → ℕ → S → Result Bool StoreError × S
  pub sweep : Time → S → Result ℕ StoreError × S
  pub maintain : S → Result (Unit {0}) StoreError × S
