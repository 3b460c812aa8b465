-- ===== src/Store/Sqlite/Refines.antt =====
-- crates/pinveil-server/src/sqlite.rs: while no SQL call fails, every method of `SqliteStore` answers
-- what the method of `MemoryStore` answers on the state that the database stands for.
pub mod Inserting
pub mod Failing
use pinveil.Base.{
  ℕ, ◌+◌, ◌-◌, ◌^◌, ◌≤◌, ◌<◌, ◌≡◌, refl, sym, ap, ◌∙◌, inl, inr, Text, Bool, true, false, ◌&&◌,
  Option, none, some, ok, err, Result, List, [], ◌∷◌, leb, ltb, nat_eq, min, length, Option-cases,
  text_equality, text_eq_iff, Bool-cases, arith,
}
use pinveil.Base.Dict
use pinveil.Base.Dict.{Dict, weigh, AllV}
use pinveil.Store.{
  Time, NewMessage, InsertError, full, id_taken, StoreError, Attempt, counted, burned,
}
use pinveil.Store.Memory
use pinveil.Store.Memory.{Inner, Entry, Caps, wrap64, take, take_generation, sweep_inner}
use pinveil.Store.Sqlite.{
  Row, Database, Connection, SqlError, Transaction, i64_max, u32_max, execute, transaction, nanos,
  delete_if_expired, exists, sweep_in, insert_row, meta_of, charge_row, delete_generation,
  unexpired, admits, Inserted, answered, stored, add_row, add_swept, add_admitted, add_if_free,
  insert_in, insert, meta, settle, judge, fail_in, record_failure, consume, count_removed, remove,
  sweep,
}
use pinveil.Store.Sqlite.View.{
  entry_of, size_of, IsWritten, Inv, entries, view, get-entries, length-entries, view-take,
  view-sweep, get-unexpired-none, length-unexpired,
}
use pinveil.Store.Sqlite.Statements.{
  row-view, remove-Inv, unexpired-Inv, yield_expired-view, delete_if_expired-Inv, insert_row-view,
  insert_row-ok, insert_row-Inv, delete_generation-answer, delete_generation-view,
  delete_generation-Inv, charged, charge_row_found, charged-view, charged-Inv, burned_row,
}

-- A connection on which no call fails.
abbrev pub quiet : Database → Connection
quiet db = record { database = db; faults = [] }

-- The answer is the memory store's, the database stands for its state, and stays well formed.
pub record Agrees {A E : Type 0} (ours : Result A E × Connection) (theirs : Result A E × Inner)
    : Type 0 where
  pub answer : ours.0 ≡ theirs.0
  pub state : view ours.1.database ≡ theirs.1
  pub kept : Inv ours.1.database
  pub still_quiet : ours.1.faults ≡ []

abbrev pub within : Database → Database → Transaction
within committed working = record { committed = committed; working = working; faults = [] }

-- The rows after the sweep.
unfoldable pub swept : Time → Database → Database
swept now db = record db { messages = unexpired now db.messages }

pub nanos_fits : (time : Time) → time ≤ i64_max → nanos time ≡ some time
unfolding nanos
nanos_fits time h = ground arith

pub leb_fits : (generation : ℕ) → generation ≤ i64_max → leb generation i64_max ≡ true
leb_fits generation h = ground arith

count_removed-view :
    (taken : Option Entry) → count_removed (ok (Memory.blob_of taken)) ≡ ok (Memory.is_some taken)
unfolding count_removed Memory.blob_of Memory.is_some
count_removed-view none = refl
count_removed-view (some e) = refl

pub meta_run :
    (id : Text) (db : Database) (row : Row)
    → Inv db
    → Dict.get id db.messages ≡ some row
    → meta id (quiet db) ≡ (ok (some (entry_of row).meta), quiet db)
unfolding meta entry_of
meta_run id db row v h =
    ground (arith, (Dict.AllV-get (IsWritten db.sequence) id db.messages row v.written h).countable)

pub meta_absent :
    (id : Text) (db : Database)
    → Dict.get id db.messages ≡ none
    → meta id (quiet db) ≡ (ok none, quiet db)
unfolding meta
meta_absent id db h = ground arith

sweep_run :
    (now : Time) (db : Database)
    → now ≤ i64_max
    → sweep now (quiet db)
      ≡ (ok (length db.messages - length (unexpired now db.messages)), quiet (swept now db))
unfolding sweep sweep_in swept
sweep_run now db h = rw (nanos_fits now h, sweep)

pub meta-Agrees :
    (id : Text) (db : Database) → Inv db → Agrees (meta id (quiet db)) (Memory.meta id (view db))
unfolding Memory.meta entry_of
meta-Agrees id db v = elim (Option-cases (Dict.get id db.messages)) [
  | inl h ↦
      rw (meta_absent id db h, Memory.meta, row-view id db, h)
        (record { answer = refl; state = refl; kept = v; still_quiet = refl })
  | inr (row, h) ↦
      rw (meta_run id db row v h, Memory.meta, row-view id db, h)
        (record { answer = refl; state = refl; kept = v; still_quiet = refl })
]

pub consume-Agrees :
    (id : Text) (generation : ℕ) (db : Database)
    → generation ≤ i64_max
    → Inv db
    → Agrees (consume id generation (quiet db)) (Memory.consume id generation (view db))
unfolding consume Memory.consume
consume-Agrees id generation db fits v =
    rw (leb_fits generation fits, delete_generation-answer id generation db)
      (record {
        answer = refl;
        state = delete_generation-view id generation db v;
        kept = delete_generation-Inv id generation db v;
        still_quiet = refl;
      })

pub remove-Agrees :
    (id : Text) (generation : ℕ) (db : Database)
    → generation ≤ i64_max
    → Inv db
    → Agrees (remove id generation (quiet db)) (Memory.remove id generation (view db))
unfolding remove Memory.remove
remove-Agrees id generation db fits v =
    rw (leb_fits generation fits, delete_generation-answer id generation db)
      (record {
        answer = count_removed-view (take_generation id generation (view db)).0;
        state = delete_generation-view id generation db v;
        kept = delete_generation-Inv id generation db v;
        still_quiet = refl;
      })

pub sweep-Agrees :
    (now : Time) (db : Database)
    → now ≤ i64_max
    → Inv db
    → Agrees (sweep now (quiet db)) (Memory.sweep now (view db))
unfolding Memory.sweep view swept
sweep-Agrees now db fits v = rw (sweep_run now db fits) (record {
  answer = ground (arith, length-unexpired now db.messages);
  state = sym (view-sweep now db v);
  kept = unexpired-Inv now db v;
  still_quiet = refl;
})
