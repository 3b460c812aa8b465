-- ===== src/Store/Sqlite/Statements.antt =====
-- crates/pinveil-server/src/sqlite.rs: each SQL statement against the memory store's step on the same
-- rows, and the invariant that the statements keep.
use pinveil.Base.{
  ℕ, ◌+◌, ◌^◌, ◌≤◌, ◌<◌, ◌≡◌, inl, inr, Text, true, none, some, ok, [], ◌∷◌, leb, ltb, nat_eq,
  length, Option-cases, text_equality, text_eq_iff, Bool-cases, arith,
}
use pinveil.Base.Dict
use pinveil.Base.Dict.{Dict, weigh, AllV, Distinct}
use pinveil.Store.{Time, NewMessage, is_expired_at}
use pinveil.Store.Memory.{blob_of, yield_expired, take, add_entry, charge, take_generation}
use pinveil.Store.Sqlite.{
  Row, Database, i64_max, u32_max, delete_if_expired, insert_row, charge_row, delete_generation,
  unexpired,
}
use pinveil.Store.Sqlite.View.{
  entry_of, size_of, IsWritten, Inv, entries, view, as_entry, get-entries, remove-entries,
  view-take, unexpired-Distinct, unexpired-IsWritten, weigh-unexpired-le,
}

weigh-remove-le :
    (id : Text) (m : Dict Text Row) → weigh size_of (Dict.remove id m) ≤ weigh size_of m
unfolding Dict.remove
weigh-remove-le id [] = omega arith
weigh-remove-le id ((j, row) ∷ m) = ground (arith, weigh-remove-le id m)

pub row-view :
    (id : Text) (db : Database)
    → Dict.get id (view db).messages ≡ as_entry (Dict.get id db.messages)
unfolding view
row-view id db = get-entries id db.messages

pub remove-Inv :
    (id : Text) (db : Database) → Inv db → Inv (record db { messages = Dict.remove id db.messages })
remove-Inv id db v = record {
  distinct = Dict.remove-Distinct id db.messages v.distinct;
  written = Dict.remove-AllV (IsWritten db.sequence) id db.messages v.written;
  summable = omega (arith, v.summable, weigh-remove-le id db.messages);
}

pub unexpired-Inv :
    (now : Time) (db : Database) → Inv db → Inv (record db { messages = unexpired now db.messages })
unexpired-Inv now db v = record {
  distinct = unexpired-Distinct now db.messages v.distinct;
  written = unexpired-IsWritten db.sequence now db.messages v.written;
  summable = omega (arith, v.summable, weigh-unexpired-le now db.messages);
}

pub yield_expired-view :
    (id : Text) (now : Time) (db : Database)
    → Inv db
    → yield_expired id now (view db) ≡ view (delete_if_expired id now db).1
unfolding yield_expired delete_if_expired is_expired_at entry_of
yield_expired-view id now db v = elim (Option-cases (Dict.get id db.messages)) [
  | inl h ↦ ground (arith, row-view id db)
  | inr (row, h) ↦ ground (arith, row-view id db, view-take id row db v h)
]

IsWritten-mono : (a b : ℕ) (m : Dict Text Row) → a ≤ b → AllV (IsWritten a) m → AllV (IsWritten b) m
IsWritten-mono a b [] h w = tt
IsWritten-mono a b ((j, row) ∷ m) h w = (ground (arith, w.0), IsWritten-mono a b m h w.1)

pub delete_if_expired-Inv :
    (id : Text) (now : Time) (db : Database) → Inv db → Inv (delete_if_expired id now db).1
unfolding delete_if_expired
delete_if_expired-Inv id now db v = elim (Option-cases (Dict.get id db.messages)) [
  | inl h ↦ rw (h, delete_if_expired) v
  | inr (row, h) ↦ elim (Bool-cases (leb row.expires_at now)) [
    | inl t ↦ rw (h, delete_if_expired, t) (remove-Inv id db v)
    | inr t ↦ rw (h, delete_if_expired, t) v
  ]
]

-- A row for a free id, with a key that is left and a size that the column holds.
pub insert_row-view :
    (m : NewMessage) (db : Database)
    → Dict.get m.id db.messages ≡ none
    → db.sequence < i64_max
    → weigh size_of db.messages + length m.blob < 2 ^ 63
    → view (insert_row m m.expires_at db).1 ≡ add_entry m (view db)
unfolding insert_row add_entry view entries entry_of Dict.insert
insert_row-view m db free left room =
    ground (arith, Dict.remove_absent m.id db.messages free, remove-entries m.id db.messages)

pub insert_row-ok :
    (m : NewMessage) (expires_at : ℕ) (db : Database)
    → Dict.get m.id db.messages ≡ none
    → db.sequence < i64_max
    → (insert_row m expires_at db).0 ≡ ok tt
unfolding insert_row
insert_row-ok m expires_at db free left = ground arith

pub insert_row-Inv :
    (m : NewMessage) (expires_at : ℕ) (db : Database)
    → Dict.get m.id db.messages ≡ none
    → db.sequence < i64_max
    → weigh size_of db.messages + length m.blob < 2 ^ 63
    → Inv db
    → Inv (insert_row m expires_at db).1
unfolding insert_row Dict.insert
insert_row-Inv m expires_at db free left room v =
    rw (free, insert_row, left_test, Dict.remove_absent m.id db.messages free)
      (record {
        distinct = (free, v.distinct);
        written = (
          record { sized = ground arith; countable = omega arith; numbered = omega arith },
          IsWritten-mono db.sequence (db.sequence + 1) db.messages (omega arith) v.written,
        );
        summable = ground (arith, room);
      })
  where
    left_test : ltb db.sequence i64_max ≡ true
    left_test = ground arith

-- DELETE ... RETURNING takes the row of that generation.
pub delete_generation-answer :
    (id : Text) (generation : ℕ) (db : Database)
    → (delete_generation id generation db).0
      ≡ ok (blob_of (take_generation id generation (view db)).0)
unfolding delete_generation take_generation take blob_of entry_of
delete_generation-answer id generation db = elim (Option-cases (Dict.get id db.messages)) [
  | inl h ↦ ground (arith, row-view id db)
  | inr (row, h) ↦ ground (arith, row-view id db)
]

pub delete_generation-view :
    (id : Text) (generation : ℕ) (db : Database)
    → Inv db
    → view (delete_generation id generation db).1 ≡ (take_generation id generation (view db)).1
unfolding delete_generation take_generation entry_of
delete_generation-view id generation db v = elim (Option-cases (Dict.get id db.messages)) [
  | inl h ↦ ground (arith, row-view id db)
  | inr (row, h) ↦ ground (arith, row-view id db, view-take id row db v h)
]

pub delete_generation-Inv :
    (id : Text) (generation : ℕ) (db : Database)
    → Inv db
    → Inv (delete_generation id generation db).1
unfolding delete_generation
delete_generation-Inv id generation db v = elim (Option-cases (Dict.get id db.messages)) [
  | inl h ↦ rw (h, delete_generation) v
  | inr (row, h) ↦ elim (Bool-cases (nat_eq row.generation generation)) [
    | inl t ↦ rw (h, delete_generation, t) (remove-Inv id db v)
    | inr t ↦ rw (h, delete_generation, t) v
  ]
]

-- The database after one more failed attempt on a row.
abbrev pub charged : Text → Row → Database → Database
charged id row db = record db {
  messages = Dict.insert id (record row { failed_attempts = row.failed_attempts + 1 }) db.messages;
}

pub charge_row_found :
    (id : Text) (row : Row) (db : Database)
    → Dict.get id db.messages ≡ some row
    → Inv db
    → charge_row id row.generation db ≡ (ok (some (row.failed_attempts + 1)), charged id row db)
unfolding charge_row
charge_row_found id row db h v =
    ground (arith, (Dict.AllV-get (IsWritten db.sequence) id db.messages row v.written h).countable)

pub charged-view :
    (id : Text) (row : Row) (db : Database)
    → Dict.get id db.messages ≡ some row
    → Inv db
    → view (charged id row db) ≡ charge id (entry_of row) (view db)
unfolding view charge entries entry_of Dict.insert
charged-view id row db h v = ground (
  arith,
  remove-entries id db.messages,
  Dict.weigh-remove size_of id db.messages row v.distinct h,
  (Dict.AllV-get (IsWritten db.sequence) id db.messages row v.written h).countable,
)

-- A row that is still countable after the attempt keeps the invariant.
pub charged-Inv :
    (id : Text) (row : Row) (db : Database)
    → Dict.get id db.messages ≡ some row
    → row.failed_attempts + 1 < u32_max
    → Inv db
    → Inv (charged id row db)
unfolding Dict.insert
charged-Inv id row db h low v = record {
  distinct = (Dict.get-remove_self id db.messages, Dict.remove-Distinct id db.messages v.distinct);
  written = (
    record { sized = written.sized; countable = low; numbered = written.numbered },
    Dict.remove-AllV (IsWritten db.sequence) id db.messages v.written,
  );
  summable = omega (arith, v.summable, Dict.weigh-remove size_of id db.messages row v.distinct h);
}
  where
    written : IsWritten db.sequence row
    written = Dict.AllV-get (IsWritten db.sequence) id db.messages row v.written h

-- Burning a row that was just charged removes it.
pub burned_row :
    (id : Text) (row : Row) (db : Database)
    → Dict.get id db.messages ≡ some row
    → (delete_generation id row.generation (charged id row db)).1
      ≡ record db { messages = Dict.remove id db.messages }
unfolding delete_generation Dict.insert Dict.get Dict.remove
burned_row id row db h = ground (arith, text_eq_iff id id, Dict.remove_idem id db.messages)
