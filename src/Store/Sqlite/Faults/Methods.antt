-- ===== src/Store/Sqlite/Faults/Methods.antt =====
-- crates/pinveil-server/src/sqlite.rs: each method under any pattern of failing SQL calls.
use pinveil.Base.{
  ℕ, ◌≡◌, refl, ◌⊎◌, inl, inr, Text, Bool, true, false, err, List, [], ◌∷◌, leb, Option-cases,
  Bool-cases, ap,
}
use pinveil.Base.Actions.{Action}
use pinveil.Store.{Time, NewMessage, storage, store_error}
use pinveil.Store.Memory.{Caps}
use pinveil.Store.Sqlite.{
  Database, Connection, SqlError, sql_error, Transaction, Statement, i64_max, begin_immediate,
  transaction, nanos, delete_generation, insert_in, answered, stored, insert, auto_commit, meta,
  select_meta, fail_in, record_failure, consume_in, consume, count_removed, remove, sweep_all,
  sweep, sqlite_store,
}
use pinveil.Store.Sqlite.Refines.{quiet}
use pinveil.Store.Sqlite.Histories.{
  Answer, inserted, described, attempted, consumed, removed, swept, call,
}
use pinveil.Store.Memory.Steps.{Op, inserts, reads, fails, consumes, removes, sweeps}
use pinveil.Store.Sqlite.Faults.{
  IsTidy, execute_then, insert_in-IsTidy, fail_in-IsTidy, consume_in-IsTidy, sweep_all-IsTidy,
}

-- A method either answers and leaves what it would with no failing SQL call, or answers the error
-- and leaves the database as it was.
abbrev IsAtomic : {R : Type 0} → R → (Connection → R × Connection) → Connection → Type 0
IsAtomic failure method conn =
    (((method conn).0 ≡ (method (quiet conn.database)).0)
      × ((method conn).1.database ≡ (method (quiet conn.database)).1.database))
    ⊎ ((method conn).0 ≡ failure) × ((method conn).1.database ≡ conn.database)

transaction-IsAtomic :
    {A : Type 0} (body : Action Transaction SqlError A) (conn : Connection)
    → IsTidy body
    → IsAtomic (err sql_error) (transaction body) conn
unfolding transaction
transaction-IsAtomic body conn tidy =
    execute_then begin_immediate (λ _. body) (λ _. tidy) conn.database conn.database conn.faults

-- What a method makes of the answer of its transaction.
map_answer :
    {R Q : Type 0} (f : R → Q) (failure : R) (method : Connection → R × Connection)
    (conn : Connection)
    → IsAtomic failure method conn
    → IsAtomic (f failure) (λ c. (f (method c).0, (method c).1)) conn
map_answer f failure method conn a = elim a [
  | inl (same, db) ↦ inl (ap f same, db)
  | inr (failed, db) ↦ inr (ap f failed, db)
]

auto_commit_under :
    {A : Type 0} (f : Statement A) (db : Database) (faults : List Bool)
    → IsAtomic (err store_error) (auto_commit f) (record { database = db; faults = faults })
unfolding auto_commit
auto_commit_under f db [] = inl (refl, refl)
auto_commit_under f db (true ∷ rest) = inr (refl, refl)
auto_commit_under f db (false ∷ rest) = inl (refl, refl)

auto_commit-IsAtomic :
    {A : Type 0} (f : Statement A) (conn : Connection)
    → IsAtomic (err store_error) (auto_commit f) conn
auto_commit-IsAtomic f conn = auto_commit_under f conn.database conn.faults

insert-IsAtomic :
    (c : Caps) (m : NewMessage) (now : Time) (conn : Connection)
    → IsAtomic (err storage) (insert c m now) conn
unfolding insert
insert-IsAtomic c m now conn = elim (Option-cases (nanos now)) [
  | inl h ↦ rw (h, insert) (inl (refl, refl))
  | inr (t, h) ↦ elim (Option-cases (nanos m.expires_at)) [
    | inl k ↦ rw (h, insert, k) (inl (refl, refl))
    | inr (x, k) ↦
        rw (h, insert, k)
          (map_answer answered (err sql_error) (transaction (insert_in c m t x)) conn
            (transaction-IsAtomic (insert_in c m t x) conn (insert_in-IsTidy c m t x)))
  ]
]

meta-IsAtomic : (id : Text) (conn : Connection) → IsAtomic (err store_error) (meta id) conn
unfolding meta
meta-IsAtomic id conn = auto_commit-IsAtomic (select_meta id) conn

record_failure-IsAtomic :
    (id : Text) (generation cap : ℕ) (conn : Connection)
    → IsAtomic (err store_error) (record_failure id generation cap) conn
unfolding record_failure
record_failure-IsAtomic id generation cap conn = elim (Bool-cases (leb generation i64_max)) [
  | inl t ↦ rw t (
      map_answer stored (err sql_error) (transaction (fail_in id generation cap)) conn
        (transaction-IsAtomic (fail_in id generation cap) conn (fail_in-IsTidy id generation cap)))
  | inr t ↦ rw t (inl (refl, refl))
]

consume-IsAtomic :
    (id : Text) (generation : ℕ) (conn : Connection)
    → IsAtomic (err store_error) (consume id generation) conn
unfolding consume
consume-IsAtomic id generation conn = elim (Bool-cases (leb generation i64_max)) [
  | inl t ↦ rw t (
      map_answer stored (err sql_error) (transaction (consume_in id generation)) conn
        (transaction-IsAtomic (consume_in id generation) conn (consume_in-IsTidy id generation)))
  | inr t ↦ rw t (inl (refl, refl))
]

remove-IsAtomic :
    (id : Text) (generation : ℕ) (conn : Connection)
    → IsAtomic (err store_error) (remove id generation) conn
unfolding remove count_removed
remove-IsAtomic id generation conn = elim (Bool-cases (leb generation i64_max)) [
  | inl t ↦ rw t (
      map_answer count_removed (err store_error) (auto_commit (delete_generation id generation))
        conn (auto_commit-IsAtomic (delete_generation id generation) conn))
  | inr t ↦ rw t (inl (refl, refl))
]

sweep-IsAtomic : (now : Time) (conn : Connection) → IsAtomic (err store_error) (sweep now) conn
unfolding sweep
sweep-IsAtomic now conn = elim (Option-cases (nanos now)) [
  | inl h ↦ rw (h, sweep) (inl (refl, refl))
  | inr (t, h) ↦
      rw (h, sweep)
        (map_answer stored (err sql_error) (transaction (sweep_all t)) conn
          (transaction-IsAtomic (sweep_all t) conn (sweep_all-IsTidy t)))
]

-- The answer of a call that the database could not serve.
abbrev pub refusal : Op → Answer
refusal (inserts m now) = inserted (err storage)
refusal (reads id) = described (err store_error)
refusal (fails id g cap) = attempted (err store_error)
refusal (consumes id g) = consumed (err store_error)
refusal (removes id g) = removed (err store_error)
refusal (sweeps now) = swept (err store_error)

-- Whichever SQL calls fail, a call of the SQLite store either answers and leaves what it would
-- if none failed, or answers that storage failed, releases no bytes, and leaves the database as
-- it was.
pub call-atomic :
    (c : Caps) (op : Op) (conn : Connection)
    → (((call (sqlite_store c) op conn).0 ≡ (call (sqlite_store c) op (quiet conn.database)).0)
        × ((call (sqlite_store c) op conn).1.database
            ≡ (call (sqlite_store c) op (quiet conn.database)).1.database))
      ⊎ ((call (sqlite_store c) op conn).0 ≡ refusal op)
        × ((call (sqlite_store c) op conn).1.database ≡ conn.database)
unfolding call
call-atomic c (inserts m now) conn =
    map_answer inserted (err storage) (insert c m now) conn (insert-IsAtomic c m now conn)
call-atomic c (reads id) conn =
    map_answer described (err store_error) (meta id) conn (meta-IsAtomic id conn)
call-atomic c (fails id g cap) conn =
    map_answer attempted (err store_error) (record_failure id g cap) conn
      (record_failure-IsAtomic id g cap conn)
call-atomic c (consumes id g) conn =
    map_answer consumed (err store_error) (consume id g) conn (consume-IsAtomic id g conn)
call-atomic c (removes id g) conn =
    map_answer removed (err store_error) (remove id g) conn (remove-IsAtomic id g conn)
call-atomic c (sweeps now) conn =
    map_answer swept (err store_error) (sweep now) conn (sweep-IsAtomic now conn)
