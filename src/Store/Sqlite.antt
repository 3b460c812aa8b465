-- ===== src/Store/Sqlite.antt =====
-- crates/pinveil-server/src/sqlite.rs: `SqliteStore`. The table of messages is a map by its UNIQUE
-- id, with the counter of its AUTOINCREMENT key. A method runs its SQL statements on a working copy
-- inside one transaction, and `commit` makes the copy the database; whatever ends the method before
-- that drops the transaction, which rolls it back. Any SQL call may fail: a connection carries, call
-- by call, whether it does (a busy lock, a full disk), and an empty list fails no more.
mod Table
pub mod Opening
pub mod View
pub mod Statements
pub mod Refines
pub mod Histories
pub mod Faults
unfoldable pub use Table.*
use pinveil.Base.{
  ℕ, ◌+◌, ◌-◌, ◌^◌, Text, Bool, true, false, ◌&&◌, Option, none, some, List, [], ◌∷◌, Result, ok,
  err, ltb, leb, nat_eq, length, min, if◌then◌else◌, text_equality,
}
use pinveil.Base.Dict
use pinveil.Base.Dict.{Dict, weigh}
use pinveil.Base.Actions.{Action, pure, ◌>>=◌, ◌>>◌}
use pinveil.Store.{
  Time, NewMessage, MessageMeta, InsertError, id_taken, full, storage, StoreError, store_error,
  Attempt, counted, burned, Store,
}
use pinveil.Store.Memory.{Caps}

pub record Connection : Type 0 where
  pub database : Database
  pub faults : List Bool

-- An open transaction.
pub record Transaction : Type 0 where
  pub committed : Database
  pub working : Database
  pub faults : List Bool

unfoldable pub execute : {A : Type 0} → Statement A → Action Transaction SqlError A
execute f t = elim t.faults [
  | [] ↦ ((f t.working).0, record t { working = (f t.working).1 })
  | b ∷ rest ↦
      if b
      then (err sql_error, record t { faults = rest })
      else ((f t.working).0, record t { working = (f t.working).1; faults = rest })
]

unfoldable pub commit : Action Transaction SqlError (Unit {0})
commit t = elim t.faults [
  | [] ↦ (ok tt, record t { committed = t.working })
  | b ∷ rest ↦
      if b
      then (err sql_error, record t { faults = rest })
      else (ok tt, record t { committed = t.working; faults = rest })
]

-- Begins on the committed database; what the body did not commit is rolled back when it ends.
unfoldable pub transaction :
    {A : Type 0} → Action Transaction SqlError A → Connection → Result A SqlError × Connection
unfolding execute begin_immediate
transaction body c =
    let (answer, t) =
      (execute begin_immediate >> body)
        (record { committed = c.database; working = c.database; faults = c.faults }) in
    (answer, record { database = t.committed; faults = t.faults })

unfoldable pub admits : Caps → ℕ → Action Transaction SqlError Bool
unfolding execute select_usage
admits c len = do
  usage ← execute select_usage
  pure (ltb usage.0 c.max_messages && leb (min (usage.1 + len) usize_max) c.max_bytes)

abbrev pub Inserted : Type 0
Inserted = Result (Unit {0}) InsertError

unfoldable pub add_row : NewMessage → ℕ → Action Transaction SqlError Inserted
unfolding execute insert_row commit
add_row m expires_at = do execute (insert_row m expires_at); commit; pure (ok tt)

-- After a sweep: a store that is still full keeps the sweep.
unfoldable pub add_swept : NewMessage → ℕ → Bool → Action Transaction SqlError Inserted
unfolding add_row commit
add_swept m expires_at true = add_row m expires_at
add_swept m expires_at false = do commit; pure (err full)

unfoldable pub add_admitted :
    Caps → NewMessage → ℕ → ℕ → Bool → Action Transaction SqlError Inserted
unfolding add_row add_swept execute sweep_in admits
add_admitted c m now expires_at true = add_row m expires_at
add_admitted c m now expires_at false = do
  swept ← execute (sweep_in now)
  room ← admits c (length m.blob)
  add_swept m expires_at room

unfoldable pub add_if_free : Caps → NewMessage → ℕ → ℕ → Bool → Action Transaction SqlError Inserted
unfolding add_admitted admits
add_if_free c m now expires_at true = pure (err (id_taken m.blob))
add_if_free c m now expires_at false = do
  room ← admits c (length m.blob)
  add_admitted c m now expires_at room

unfoldable pub insert_in : Caps → NewMessage → ℕ → ℕ → Action Transaction SqlError Inserted
unfolding execute delete_if_expired exists add_if_free
insert_in c m now expires_at = do
  execute (delete_if_expired m.id now)
  taken ← execute (exists m.id)
  add_if_free c m now expires_at taken

abbrev pub answered : Result Inserted SqlError → Inserted
answered (ok r) = r
answered (err _) = err storage

-- `.map_err(storage)`
abbrev pub stored {ℓ} : {A : Type ℓ} → Result A SqlError → Result A StoreError
stored (ok a) = ok a
stored (err _) = err store_error

unfoldable pub insert : Caps → NewMessage → Time → Connection → Inserted × Connection
unfolding nanos transaction insert_in
insert c m now conn = elim (nanos now) [
  | none ↦ (err storage, conn)
  | some now_nanos ↦ elim (nanos m.expires_at) [
    | none ↦ (err storage, conn)
    | some expires_at ↦
        let (answer, conn') = transaction (insert_in c m now_nanos expires_at) conn in
        (answered answer, conn')
  ]
]

-- A statement outside a transaction commits by itself.
unfoldable pub auto_commit :
    {A : Type 0} → Statement A → Connection → Result A StoreError × Connection
auto_commit f conn = elim conn.faults [
  | [] ↦ (stored (f conn.database).0, record conn { database = (f conn.database).1 })
  | b ∷ rest ↦
      if b
      then (err store_error, record conn { faults = rest })
      else (stored (f conn.database).0, record { database = (f conn.database).1; faults = rest })
]

unfoldable pub meta : Text → Connection → Result (Option MessageMeta) StoreError × Connection
unfolding auto_commit select_meta
meta id = auto_commit (select_meta id)

unfoldable pub settle : Text → ℕ → ℕ → ℕ → Action Transaction SqlError (Option Attempt)
unfolding execute delete_generation commit
settle id generation max_attempts failures =
    if leb max_attempts failures
    then (do deleted ← execute (delete_generation id generation); commit; pure (some burned))
    else (do commit; pure (some (counted failures)))

unfoldable pub judge : Text → ℕ → ℕ → Option ℕ → Action Transaction SqlError (Option Attempt)
unfolding settle
judge id generation max_attempts none = pure none
judge id generation max_attempts (some failures) =
    settle id generation max_attempts (min failures u32_max)

unfoldable pub fail_in : Text → ℕ → ℕ → Action Transaction SqlError (Option Attempt)
unfolding execute charge_row judge
fail_in id generation max_attempts = do
  failures ← execute (charge_row id generation)
  judge id generation max_attempts failures

unfoldable pub record_failure :
    Text → ℕ → ℕ → Connection → Result (Option Attempt) StoreError × Connection
unfolding transaction fail_in
record_failure id generation max_attempts conn =
    if leb generation i64_max
    then (let (answer, conn') = transaction (fail_in id generation max_attempts) conn in
        (stored answer, conn'))
    else (err store_error, conn)

unfoldable pub consume_in : Text → ℕ → Action Transaction SqlError (Option Text)
unfolding execute delete_generation commit
consume_in id generation = do blob ← execute (delete_generation id generation); commit; pure blob

unfoldable pub consume : Text → ℕ → Connection → Result (Option Text) StoreError × Connection
unfolding transaction consume_in
consume id generation conn =
    if leb generation i64_max
    then (let (answer, conn') = transaction (consume_in id generation) conn in
        (stored answer, conn'))
    else (err store_error, conn)

-- `removed > 0` of the number of rows that the statement deleted.
unfoldable pub count_removed : Result (Option Text) StoreError → Result Bool StoreError
count_removed (err e) = err e
count_removed (ok none) = ok false
count_removed (ok (some _)) = ok true

unfoldable pub remove : Text → ℕ → Connection → Result Bool StoreError × Connection
unfolding auto_commit delete_generation count_removed
remove id generation conn =
    if leb generation i64_max
    then (let (answer, conn') = auto_commit (delete_generation id generation) conn in
        (count_removed answer, conn'))
    else (err store_error, conn)

unfoldable pub sweep_all : ℕ → Action Transaction SqlError ℕ
unfolding execute sweep_in commit
sweep_all now = do removed ← execute (sweep_in now); commit; pure removed

unfoldable pub sweep : Time → Connection → Result ℕ StoreError × Connection
unfolding nanos transaction sweep_all
sweep now conn = elim (nanos now) [
  | none ↦ (err store_error, conn)
  | some now_nanos ↦
      let (answer, conn') = transaction (sweep_all now_nanos) conn in (stored answer, conn')
]

-- A checkpoint moves pages and changes no row; a reader that blocks it is reported as an error. The
-- next entry of the faults says whether the call fails or answers busy.
unfoldable pub maintain : Connection → Result (Unit {0}) StoreError × Connection
unfolding auto_commit begin_immediate
maintain = auto_commit begin_immediate

-- `impl Store for SqliteStore`
abbrev pub sqlite_store : Caps → Store Connection
sqlite_store c = record {
  insert = insert c;
  meta = meta;
  record_failure = record_failure;
  consume = consume;
  remove = remove;
  sweep = sweep;
  maintain = maintain;
}
