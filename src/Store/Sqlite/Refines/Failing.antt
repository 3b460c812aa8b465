-- ===== src/Store/Sqlite/Refines/Failing.antt =====
-- crates/pinveil-server/src/sqlite.rs: `record_failure` of `SqliteStore` against that of
-- `MemoryStore`.
use pinveil.Base.{
  ℕ, ◌+◌, ◌≤◌, ◌<◌, ◌≡◌, refl, sym, subst, inl, inr, Text, false, none, some, ok, [], leb, nat_eq,
  Option-cases, text_equality, text_eq_iff, Bool-cases, arith,
}
use pinveil.Base.Dict
use pinveil.Base.Dict.{Dict, weigh, AllV}
use pinveil.Store.{counted, burned}
use pinveil.Store.Memory
use pinveil.Store.Memory.{Inner, Entry, Caps, wrap64, take, take_generation, sweep_inner}
use pinveil.Store.Sqlite.{
  Row, Database, i64_max, u32_max, charge_row, delete_generation, stored, settle, judge, fail_in,
  record_failure,
}
use pinveil.Store.Sqlite.View.{entry_of, IsWritten, Inv, view, view-take}
use pinveil.Store.Sqlite.Statements.{
  row-view, remove-Inv, delete_generation-answer, charged, charge_row_found, charged-view,
  charged-Inv, burned_row,
}
use pinveil.Store.Sqlite.Refines.{quiet, Agrees, within, leb_fits}

-- Burning takes the row that was just charged.
take-charge :
    (id : Text) (e : Entry) (s : Inner)
    → Dict.get id s.messages ≡ some e
    → (take id (Memory.charge id e s)).1 ≡ (take id s).1
unfolding take Memory.charge Dict.insert Dict.get Dict.remove
take-charge id e s h = ground (arith, text_eq_iff id id, Dict.remove_idem id s.messages)

judge_burned :
    (id : Text) (generation cap failures : ℕ) (db₀ db : Database)
    → failures ≤ u32_max
    → cap ≤ failures
    → judge id generation cap (some failures) (within db₀ db) ≡ (
      ok (some burned),
      record {
        committed = (delete_generation id generation db).1;
        working = (delete_generation id generation db).1;
        faults = [];
      },
    )
unfolding judge settle
judge_burned id generation cap failures db₀ db fits over =
    ground (arith, delete_generation-answer id generation db)

judge_counted :
    (id : Text) (generation cap failures : ℕ) (db₀ db : Database)
    → failures ≤ u32_max
    → failures < cap
    → judge id generation cap (some failures) (within db₀ db)
      ≡ (ok (some (counted failures)), within db db)
unfolding judge settle
judge_counted id generation cap failures db₀ db fits under = ground arith

record_failure_run :
    (id : Text) (row : Row) (cap : ℕ) (db : Database)
    → Dict.get id db.messages ≡ some row
    → row.generation ≤ i64_max
    → Inv db
    → record_failure id row.generation cap (quiet db) ≡ (
        let (answer, t) =
          judge id row.generation cap
            (some (row.failed_attempts + 1))
            (within db (charged id row db)) in
        (stored answer, record { database = t.committed; faults = t.faults }))
unfolding record_failure fail_in
record_failure_run id row cap db h fits v =
    rw (leb_fits row.generation fits, charge_row_found id row db h v)

charge_row_other :
    (id : Text) (generation : ℕ) (row : Row) (db : Database)
    → Dict.get id db.messages ≡ some row
    → nat_eq row.generation generation ≡ false
    → charge_row id generation db ≡ (ok none, db)
unfolding charge_row
charge_row_other id generation row db h other = ground arith

charge_row_absent :
    (id : Text) (generation : ℕ) (db : Database)
    → Dict.get id db.messages ≡ none
    → charge_row id generation db ≡ (ok none, db)
unfolding charge_row
charge_row_absent id generation db h = ground arith

record_failure_none :
    (id : Text) (generation cap : ℕ) (db : Database)
    → generation ≤ i64_max
    → charge_row id generation db ≡ (ok none, db)
    → record_failure id generation cap (quiet db) ≡ (ok none, quiet db)
unfolding record_failure fail_in judge
record_failure_none id generation cap db fits h = rw (leb_fits generation fits, h)

-- What the memory store does, on a row of the generation.
remembered_burned :
    (id : Text) (row : Row) (cap : ℕ) (db : Database)
    → Dict.get id db.messages ≡ some row
    → row.failed_attempts < u32_max
    → cap ≤ row.failed_attempts + 1
    → Memory.record_failure id row.generation cap (view db)
      ≡ (ok (some burned), (take id (view db)).1)
unfolding Memory.record_failure entry_of
remembered_burned id row cap db h countable over =
    ground (arith, row-view id db, take-charge id (entry_of row) (view db))

remembered_counted :
    (id : Text) (row : Row) (cap : ℕ) (db : Database)
    → Dict.get id db.messages ≡ some row
    → row.failed_attempts < u32_max
    → row.failed_attempts + 1 < cap
    → Memory.record_failure id row.generation cap (view db)
      ≡ (ok (some (counted (row.failed_attempts + 1))), Memory.charge id (entry_of row) (view db))
unfolding Memory.record_failure entry_of
remembered_counted id row cap db h countable under = ground (arith, row-view id db)

remembered_other :
    (id : Text) (generation cap : ℕ) (row : Row) (db : Database)
    → Dict.get id db.messages ≡ some row
    → nat_eq row.generation generation ≡ false
    → Memory.record_failure id generation cap (view db) ≡ (ok none, view db)
unfolding Memory.record_failure entry_of
remembered_other id generation cap row db h other = ground (arith, row-view id db)

remembered_absent :
    (id : Text) (generation cap : ℕ) (db : Database)
    → Dict.get id db.messages ≡ none
    → Memory.record_failure id generation cap (view db) ≡ (ok none, view db)
unfolding Memory.record_failure
remembered_absent id generation cap db h = ground (arith, row-view id db)

module _ (id : Text) (cap : ℕ) (row : Row) (db : Database)
    (found : Dict.get id db.messages ≡ some row) (fits : row.generation ≤ i64_max)
    (small : cap ≤ u32_max) (v : Inv db) where
  countable : row.failed_attempts < u32_max
  countable = (Dict.AllV-get (IsWritten db.sequence) id db.messages row v.written found).countable

  charge-Agrees :
      Agrees
        (record_failure id row.generation cap (quiet db))
        (Memory.record_failure id row.generation cap (view db))
  charge-Agrees = elim (Bool-cases (leb cap (row.failed_attempts + 1))) [
    | inl over ↦
        rw
          (
            record_failure_run id row cap db found fits v,
            judge_burned id row.generation cap (row.failed_attempts + 1) db (charged id row db)
                (omega (arith, countable)) (ground arith),
            burned_row id row db found,
            remembered_burned id row cap db found countable (ground arith),
          )
          (record {
            answer = refl;
            state = sym (view-take id row db v found);
            kept = remove-Inv id db v;
            still_quiet = refl;
          })
    | inr under ↦
        rw
          (
            record_failure_run id row cap db found fits v,
            judge_counted id row.generation cap (row.failed_attempts + 1) db (charged id row db)
                (omega (arith, countable)) (ground arith),
            remembered_counted id row cap db found countable (ground arith),
          )
          (record {
            answer = refl;
            state = charged-view id row db found v;
            kept = charged-Inv id row db found (ground (arith, small)) v;
            still_quiet = refl;
          })
  ]

pub record_failure-Agrees :
    (id : Text) (generation cap : ℕ) (db : Database)
    → generation ≤ i64_max
    → cap ≤ u32_max
    → Inv db
    → Agrees
        (record_failure id generation cap (quiet db))
        (Memory.record_failure id generation cap (view db))
record_failure-Agrees id generation cap db fits small v =
    elim (Option-cases (Dict.get id db.messages)) [
      | inl h ↦
          rw
            (
              record_failure_none id generation cap db fits (charge_row_absent id generation db h),
              remembered_absent id generation cap db h,
            )
            (record { answer = refl; state = refl; kept = v; still_quiet = refl })
      | inr (row, h) ↦ elim (Bool-cases (nat_eq row.generation generation)) [
        | inr other ↦
            rw
              (
                record_failure_none id generation cap db fits
                    (charge_row_other id generation row db h other),
                remembered_other id generation cap row db h other,
              )
              (record { answer = refl; state = refl; kept = v; still_quiet = refl })
        | inl same ↦
            let e : row.generation ≡ generation = ground arith in
            subst
              (λ g.
                Agrees (record_failure id g cap (quiet db))
                  (Memory.record_failure id g cap (view db)))
              e (charge-Agrees id cap row db h (omega (arith, e)) small v)
      ]
    ]
