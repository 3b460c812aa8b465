-- ===== src/Store/Memory.antt =====
-- crates/pinveil-server/src/store.rs: `Inner` and `MemoryStore`. The mutex makes every method one
-- step, so a method is a function from the guarded state to its result and the next state.
pub mod Lookup
pub mod Invariant
pub mod Steps
pub mod LiveRows
pub mod Insert
pub mod Failures
pub mod Generations
use pinveil.Base.{
  ℕ, ◌+◌, ◌-◌, ◌%◌, ◌^◌, Text, Bool, true, false, ◌&&◌, Option, none, some, List, [], ◌∷◌, Result,
  ok, err, ltb, leb, nat_eq, length, if◌then◌else◌, text_equality,
}
use pinveil.Base.Dict
use pinveil.Base.Dict.{Dict}
use pinveil.Store.{
  Time, NewMessage, MessageMeta, is_expired_at, InsertError, id_taken, full, StoreError, Attempt,
  counted, burned, Store,
}

-- `u64` and `usize` arithmetic, and `u32` arithmetic.
abbrev pub wrap64 : ℕ → ℕ
wrap64 n = n % 2 ^ 64

abbrev pub wrap32 : ℕ → ℕ
wrap32 n = n % 2 ^ 32

pub record Entry : Type 0 where
  pub blob : Text
  pub meta : MessageMeta
  pub protocol_version : ℕ

pub record Inner : Type 0 where
  pub messages : Dict Text Entry
  pub bytes : ℕ
  pub next_generation : ℕ

-- `MemoryStore::new`, with the caps that its methods read.
pub record Caps : Type 0 where
  pub max_messages : ℕ
  pub max_bytes : ℕ

abbrev pub empty : Inner
empty = record { messages = []; bytes = 0; next_generation = 0 }

-- The subtraction does not go below 0 on a state whose total counts every blob.
unfoldable pub drop_entry : Text → Entry → Inner → Inner
drop_entry id e s = record s {
  messages = Dict.remove id s.messages;
  bytes = s.bytes - length e.blob;
}

unfoldable pub take : Text → Inner → Option Entry × Inner
unfolding drop_entry
take id s = elim (Dict.get id s.messages) [
  | none ↦ (none, s)
  | some e ↦ (some e, drop_entry id e s)
]

unfoldable pub take_generation : Text → ℕ → Inner → Option Entry × Inner
unfolding take
take_generation id generation s = elim (Dict.get id s.messages) [
  | none ↦ (none, s)
  | some e ↦ if nat_eq e.meta.generation generation then take id s else (none, s)
]

unfoldable pub expired_ids : Time → Dict Text Entry → List Text
unfolding is_expired_at
expired_ids now [] = []
expired_ids now ((id, e) ∷ m) =
    if is_expired_at e.meta now then id ∷ expired_ids now m else expired_ids now m

unfoldable pub take_all : List Text → Inner → Inner
unfolding take
take_all [] s = s
take_all (id ∷ ids) s = take_all ids (take id s).1

unfoldable pub sweep_inner : Time → Inner → ℕ × Inner
unfolding expired_ids take_all
sweep_inner now s = let expired = expired_ids now s.messages in (length expired, take_all expired s)

unfoldable pub admits : Caps → ℕ → Inner → Bool
admits c len s = ltb (length s.messages) c.max_messages && leb (wrap64 (s.bytes + len)) c.max_bytes

-- The first step of `insert`: an expired row gives up its id.
unfoldable pub yield_expired : Text → Time → Inner → Inner
unfolding is_expired_at take
yield_expired id now s = elim (Dict.get id s.messages) [
  | none ↦ s
  | some e ↦ if is_expired_at e.meta now then (take id s).1 else s
]

-- The last step of `insert`.
unfoldable pub add_entry : NewMessage → Inner → Inner
add_entry m s =
    let generation = wrap64 (s.next_generation + 1) in
    record {
      messages =
          Dict.insert m.id
            (record {
              blob = m.blob;
              meta = record {
                generation = generation;
                pin_salt = m.pin_salt;
                pin_verifier = m.pin_verifier;
                expires_at = m.expires_at;
                failed_attempts = 0;
              };
              protocol_version = m.protocol_version;
            })
            s.messages;
      bytes = wrap64 (s.bytes + length m.blob);
      next_generation = generation;
    }

unfoldable pub admit_swept : Caps → NewMessage → Inner → Result (Unit {0}) InsertError × Inner
unfolding admits add_entry
admit_swept c m s = if admits c (length m.blob) s then (ok tt, add_entry m s) else (err full, s)

unfoldable pub insert_if_free :
    Caps → NewMessage → Time → Option Entry → Inner → Result (Unit {0}) InsertError × Inner
unfolding admits add_entry sweep_inner admit_swept
insert_if_free c m now (some _) s = (err (id_taken m.blob), s)
insert_if_free c m now none s =
    if admits c (length m.blob) s
    then (ok tt, add_entry m s)
    else admit_swept c m (sweep_inner now s).1

unfoldable pub insert : Caps → NewMessage → Time → Inner → Result (Unit {0}) InsertError × Inner
unfolding yield_expired insert_if_free
insert c m now s =
    let s' = yield_expired m.id now s in insert_if_free c m now (Dict.get m.id s'.messages) s'

unfoldable pub meta : Text → Inner → Result (Option MessageMeta) StoreError × Inner
meta id s = elim (Dict.get id s.messages) [ none ↦ (ok none, s) | some e ↦ (ok (some e.meta), s) ]

-- `entry.meta.failed_attempts += 1`, written back in place.
unfoldable pub charge : Text → Entry → Inner → Inner
charge id e s = record s {
  messages =
      Dict.insert id
        (record e {
          meta = record e.meta { failed_attempts = wrap32 (e.meta.failed_attempts + 1) };
        })
        s.messages;
}

unfoldable pub record_failure : Text → ℕ → ℕ → Inner → Result (Option Attempt) StoreError × Inner
unfolding charge take
record_failure id generation max_attempts s = elim (Dict.get id s.messages) [
  | none ↦ (ok none, s)
  | some e ↦
      if nat_eq e.meta.generation generation
      then (let failures = wrap32 (e.meta.failed_attempts + 1) in
          if leb max_attempts failures
          then (ok (some burned), (take id (charge id e s)).1)
          else (ok (some (counted failures)), charge id e s))
      else (ok none, s)
]

unfoldable pub blob_of : Option Entry → Option Text
blob_of none = none
blob_of (some e) = some e.blob

unfoldable pub consume : Text → ℕ → Inner → Result (Option Text) StoreError × Inner
unfolding take_generation blob_of
consume id generation s =
    let (taken, s') = take_generation id generation s in (ok (blob_of taken), s')

unfoldable pub is_some : Option Entry → Bool
is_some none = false
is_some (some e) = true

unfoldable pub remove : Text → ℕ → Inner → Result Bool StoreError × Inner
unfolding take_generation is_some
remove id generation s =
    let (taken, s') = take_generation id generation s in (ok (is_some taken), s')

unfoldable pub sweep : Time → Inner → Result ℕ StoreError × Inner
unfolding sweep_inner
sweep now s = let (removed, s') = sweep_inner now s in (ok removed, s')

-- `impl Store for MemoryStore`; `maintain` is the trait's default.
abbrev pub memory_store : Caps → Store Inner
memory_store c = record {
  insert = insert c;
  meta = meta;
  record_failure = record_failure;
  consume = consume;
  remove = remove;
  sweep = sweep;
  maintain = λ s. (ok tt, s);
}
