-- ===== src/Store/Sqlite/Table.antt =====
-- crates/pinveil-server/src/sqlite.rs: the table of messages, and what each SQL statement of the
-- store does to it.
use pinveil.Base.{
  ℕ, ◌+◌, ◌-◌, ◌^◌, Text, Bool, true, false, Option, none, some, [], ◌∷◌, Result, ok, err, ltb, leb,
  nat_eq, length, min, if◌then◌else◌, text_equality,
}
use pinveil.Base.Dict
use pinveil.Base.Dict.{Dict, weigh}
use pinveil.Store.{Time, NewMessage, MessageMeta}

-- `i64::MAX`, `usize::MAX` and `u32::MAX`.
abbrev pub i64_max : ℕ
i64_max = 2 ^ 63 - 1

abbrev pub usize_max : ℕ
usize_max = 2 ^ 64 - 1

abbrev pub u32_max : ℕ
u32_max = 2 ^ 32 - 1

-- A row of the table `messages`. No statement of the store writes a negative number.
pub record Row : Type 0 where
  pub generation : ℕ
  pub blob : Text
  pub size : ℕ
  pub pin_salt : Text
  pub pin_verifier : Text
  pub expires_at : ℕ
  pub failed_attempts : ℕ
  pub protocol_version : ℕ

pub record Database : Type 0 where
  pub messages : Dict Text Row
  pub sequence : ℕ

pub data SqlError : Type 0 where
  sql_error : SqlError

abbrev pub Statement : Type 0 → Type 0
Statement A = Database → Result A SqlError × Database

unfoldable pub begin_immediate : Statement (Unit {0})
begin_immediate db = (ok tt, db)

unfoldable pub nanos : Time → Option ℕ
nanos time = if leb time i64_max then some time else none

-- DELETE FROM messages WHERE id = ?1 AND expires_at <= ?2
unfoldable pub delete_if_expired : Text → ℕ → Statement (Unit {0})
delete_if_expired id now db = elim (Dict.get id db.messages) [
  | none ↦ (ok tt, db)
  | some row ↦
      if leb row.expires_at now
      then (ok tt, record db { messages = Dict.remove id db.messages })
      else (ok tt, db)
]

-- SELECT EXISTS (SELECT 1 FROM messages WHERE id = ?1)
unfoldable pub exists : Text → Statement Bool
exists id db = elim (Dict.get id db.messages) [ none ↦ (ok false, db) | some _ ↦ (ok true, db) ]

-- SELECT COUNT(*), COALESCE(SUM(size), 0) FROM messages; a sum past `i64` is an error.
unfoldable pub select_usage : Statement (ℕ × ℕ)
select_usage db =
    if leb (weigh (λ row. row.size) db.messages) i64_max
    then (ok (length db.messages, weigh (λ row. row.size) db.messages), db)
    else (err sql_error, db)

unfoldable pub unexpired : ℕ → Dict Text Row → Dict Text Row
unexpired now [] = []
unexpired now ((id, row) ∷ m) =
    let rest = unexpired now m in if leb row.expires_at now then rest else (id, row) ∷ rest

-- DELETE FROM messages WHERE expires_at <= ?1
unfoldable pub sweep_in : ℕ → Statement ℕ
unfolding unexpired
sweep_in now db =
    let kept = unexpired now db.messages in
    (ok (length db.messages - length kept), record db { messages = kept })

-- INSERT INTO messages: the id must be free and a rowid left, or the statement fails.
unfoldable pub insert_row : NewMessage → ℕ → Statement (Unit {0})
insert_row m expires_at db = elim (Dict.get m.id db.messages) [
  | some _ ↦ (err sql_error, db)
  | none ↦
      if ltb db.sequence i64_max
      then (
        ok tt,
        record {
          messages =
              Dict.insert m.id
                (record {
                  generation = db.sequence + 1;
                  blob = m.blob;
                  size = min (length m.blob) i64_max;
                  pin_salt = m.pin_salt;
                  pin_verifier = m.pin_verifier;
                  expires_at = expires_at;
                  failed_attempts = 0;
                  protocol_version = m.protocol_version;
                })
                db.messages;
          sequence = db.sequence + 1;
        },
      )
      else (err sql_error, db)
]

unfoldable pub meta_of : Row → MessageMeta
meta_of row = record {
  generation = row.generation;
  pin_salt = row.pin_salt;
  pin_verifier = row.pin_verifier;
  expires_at = row.expires_at;
  failed_attempts = min row.failed_attempts u32_max;
}

-- SELECT generation, pin_salt, ... FROM messages WHERE id = ?1
unfoldable pub select_meta : Text → Statement (Option MessageMeta)
unfolding meta_of
select_meta id db = elim (Dict.get id db.messages) [
  | none ↦ (ok none, db)
  | some row ↦ (ok (some (meta_of row)), db)
]

-- UPDATE messages SET failed_attempts = failed_attempts + 1
--   WHERE id = ?1 AND generation = ?2 RETURNING failed_attempts
unfoldable pub charge_row : Text → ℕ → Statement (Option ℕ)
charge_row id generation db = elim (Dict.get id db.messages) [
  | none ↦ (ok none, db)
  | some row ↦
      if nat_eq row.generation generation
      then (if ltb row.failed_attempts i64_max
          then (
            ok (some (row.failed_attempts + 1)),
            record db {
              messages =
                  Dict.insert id (record row { failed_attempts = row.failed_attempts + 1 })
                    db.messages;
            },
          )
          else (err sql_error, db))
      else (ok none, db)
]

-- DELETE FROM messages WHERE id = ?1 AND generation = ?2 RETURNING blob
unfoldable pub delete_generation : Text → ℕ → Statement (Option Text)
delete_generation id generation db = elim (Dict.get id db.messages) [
  | none ↦ (ok none, db)
  | some row ↦
      if nat_eq row.generation generation
      then (ok (some row.blob), record db { messages = Dict.remove id db.messages })
      else (ok none, db)
]
