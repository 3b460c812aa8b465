-- ===== src/Store/Sqlite/Refines/Inserting.antt =====
-- crates/pinveil-server/src/sqlite.rs: `insert` of `SqliteStore` against that of `MemoryStore`.
use pinveil.Base.{
  ℕ, ◌+◌, ◌^◌, ◌≤◌, ◌<◌, ◌≡◌, refl, inl, inr, Text, true, false, none, some, ok, Result, [], length,
  Option-cases, text_equality, Bool-cases, arith,
}
use pinveil.Base.Dict
use pinveil.Base.Dict.{Dict, weigh, AllV}
use pinveil.Store.{Time, NewMessage}
use pinveil.Store.Memory
use pinveil.Store.Memory.{Inner, Entry, Caps, wrap64, take, take_generation, sweep_inner}
use pinveil.Store.Sqlite.{
  Row, Database, SqlError, Transaction, i64_max, delete_if_expired, exists, sweep_in, admits,
  Inserted, answered, add_row, add_swept, add_admitted, add_if_free, insert_in, insert,
}
use pinveil.Store.Sqlite.View.{size_of, Inv, view, length-entries, view-sweep, get-unexpired-none}
use pinveil.Store.Sqlite.Statements.{
  row-view, unexpired-Inv, yield_expired-view, delete_if_expired-Inv, insert_row-view,
  insert_row-ok, insert_row-Inv,
}
use pinveil.Store.Sqlite.Refines.{quiet, Agrees, within, swept, nanos_fits}

-- The same of a transaction, by what it has committed.
record Ends (ours : Result Inserted SqlError × Transaction) (theirs : Inserted × Inner)
    : Type 0 where
  answer : ours.0 ≡ ok theirs.0
  state : view ours.1.committed ≡ theirs.1
  kept : Inv ours.1.committed
  still_quiet : ours.1.faults ≡ []

admits-view :
    (c : Caps) (len : ℕ) (db₀ db : Database)
    → len < 2 ^ 63
    → Inv db
    → admits c len (within db₀ db) ≡ (ok (Memory.admits c len (view db)), within db₀ db)
unfolding admits Memory.admits view
admits-view c len db₀ db short v = ground (arith, length-entries db.messages, v.summable)

-- What an insert needs of its input and of the table.
record Room (c : Caps) (m : NewMessage) (db : Database) : Type 0 where
  short : length m.blob < 2 ^ 63
  capped : c.max_bytes < 2 ^ 63
  left : db.sequence < i64_max

Room-left :
    (c : Caps) (m : NewMessage) (db : Database)
    → Room c m db
    → Inv db
    → Memory.admits c (length m.blob) (view db) ≡ true
    → weigh size_of db.messages + length m.blob < 2 ^ 63
unfolding Memory.admits view
Room-left c m db r v h = ground (arith, r.short, r.capped, v.summable)

add_row-Ends :
    (m : NewMessage) (db₀ db : Database)
    → Dict.get m.id db.messages ≡ none
    → db.sequence < i64_max
    → weigh size_of db.messages + length m.blob < 2 ^ 63
    → Inv db
    → Ends (add_row m m.expires_at (within db₀ db)) (ok tt, Memory.add_entry m (view db))
unfolding add_row
add_row-Ends m db₀ db free left room v = rw (insert_row-ok m m.expires_at db free left) (record {
  answer = refl;
  state = insert_row-view m db free left room;
  kept = insert_row-Inv m m.expires_at db free left room v;
  still_quiet = refl;
})

add_swept-Ends :
    (c : Caps) (m : NewMessage) (db₀ db : Database)
    → Dict.get m.id db.messages ≡ none
    → Room c m db
    → Inv db
    → Ends
        (add_swept m m.expires_at (Memory.admits c (length m.blob) (view db)) (within db₀ db))
        (Memory.admit_swept c m (view db))
unfolding add_swept Memory.admit_swept
add_swept-Ends c m db₀ db free r v = elim (Bool-cases (Memory.admits c (length m.blob) (view db))) [
  | inl t ↦ rw t (add_row-Ends m db₀ db free r.left (Room-left c m db r v t) v)
  | inr t ↦ rw t (record { answer = refl; state = refl; kept = v; still_quiet = refl })
]

add_if_free-Ends :
    (c : Caps) (m : NewMessage) (now : Time) (db₀ db : Database)
    → Dict.get m.id db.messages ≡ none
    → Room c m db
    → Inv db
    → Ends
        (add_if_free c m now m.expires_at false (within db₀ db))
        (Memory.insert_if_free c m now none (view db))
unfolding add_if_free add_admitted sweep_in Memory.insert_if_free swept
add_if_free-Ends c m now db₀ db free r v =
    rw (admits-view c (length m.blob) db₀ db r.short v)
      (elim (Bool-cases (Memory.admits c (length m.blob) (view db))) [
        | inl t ↦ rw t (add_row-Ends m db₀ db free r.left (Room-left c m db r v t) v)
        | inr t ↦
            rw (t, admits-view c (length m.blob) db₀ (swept now db) r.short v₂, view-sweep now db v)
              (add_swept-Ends c m db₀ (swept now db) free₂ r₂ v₂)
      ])
  where
    free₂ : Dict.get m.id (swept now db).messages ≡ none
    free₂ = get-unexpired-none now m.id db.messages free

    v₂ : Inv (swept now db)
    v₂ = unexpired-Inv now db v

    r₂ : Room c m (swept now db)
    r₂ = record { short = r.short; capped = r.capped; left = r.left }

delete_if_expired-ok :
    (id : Text) (now : Time) (db : Database) → (delete_if_expired id now db).0 ≡ ok tt
unfolding delete_if_expired
delete_if_expired-ok id now db = ground arith

-- A row that is still there was not expired, so nothing was deleted.
delete_if_expired_same :
    (id : Text) (now : Time) (db : Database) (row : Row)
    → Dict.get id (delete_if_expired id now db).1.messages ≡ some row
    → (delete_if_expired id now db).1 ≡ db
unfolding delete_if_expired
delete_if_expired_same id now db row h = ground (arith, Dict.get-remove_self id db.messages)

sequence-delete_if_expired :
    (id : Text) (now : Time) (db : Database)
    → (delete_if_expired id now db).1.sequence ≡ db.sequence
unfolding delete_if_expired
sequence-delete_if_expired id now db = ground arith

exists_found :
    (id : Text) (db : Database) (row : Row)
    → Dict.get id db.messages ≡ some row
    → exists id db ≡ (ok true, db)
unfolding exists
exists_found id db row h = ground arith

exists_free :
    (id : Text) (db : Database) → Dict.get id db.messages ≡ none → exists id db ≡ (ok false, db)
unfolding exists
exists_free id db h = ground arith

insert_in-Ends :
    (c : Caps) (m : NewMessage) (now : Time) (db : Database)
    → Room c m db
    → Inv db
    → Ends (insert_in c m now m.expires_at (within db db)) (Memory.insert c m now (view db))
unfolding insert_in Memory.insert
insert_in-Ends c m now db r v =
    rw (delete_if_expired-ok m.id now db, yield_expired-view m.id now db v, row-view m.id db₁)
      (elim (Option-cases (Dict.get m.id db₁.messages)) [
        | inl h ↦ rw (h, exists_free m.id db₁ h) (add_if_free-Ends c m now db db₁ h r₁ v₁)
        | inr (row, h) ↦
            rw (h, exists_found m.id db₁ row h, delete_if_expired_same m.id now db row h)
              (record { answer = refl; state = refl; kept = v; still_quiet = refl })
      ])
  where
    db₁ : Database
    db₁ = (delete_if_expired m.id now db).1

    v₁ : Inv db₁
    v₁ = delete_if_expired-Inv m.id now db v

    r₁ : Room c m db₁
    r₁ = record {
      short = r.short;
      capped = r.capped;
      left = omega (arith, r.left, sequence-delete_if_expired m.id now db);
    }

insert_run :
    (c : Caps) (m : NewMessage) (now : Time) (db : Database)
    → now ≤ i64_max
    → m.expires_at ≤ i64_max
    → insert c m now (quiet db) ≡ (
        let (answer, t) = insert_in c m now m.expires_at (within db db) in
        (answered answer, record { database = t.committed; faults = t.faults }))
unfolding insert
insert_run c m now db h k = rw (nanos_fits now h, insert, nanos_fits m.expires_at k)

pub insert-Agrees :
    (c : Caps) (m : NewMessage) (now : Time) (db : Database)
    → now ≤ i64_max
    → m.expires_at ≤ i64_max
    → length m.blob < 2 ^ 63
    → c.max_bytes < 2 ^ 63
    → db.sequence < i64_max
    → Inv db
    → Agrees (insert c m now (quiet db)) (Memory.insert c m now (view db))
insert-Agrees c m now db now_fits expiry_fits short capped left v =
    rw (insert_run c m now db now_fits expiry_fits, ends.answer)
      (record {
        answer = refl;
        state = ends.state;
        kept = ends.kept;
        still_quiet = ends.still_quiet;
      })
  where
    ends : Ends (insert_in c m now m.expires_at (within db db)) (Memory.insert c m now (view db))
    ends = insert_in-Ends c m now db (record { short = short; capped = capped; left = left }) v
