-- ===== src/Tests/SqliteRuns.antt =====
-- Runs of the SQLite store.
use pinveil.Base.{◌≡◌, ◌⊎◌, true, false, List, [], ◌∷◌, arith, codes, Text}
use pinveil.Store.Memory.{memory_store}
use pinveil.Store.Memory.Steps.{Op, inserts}
use pinveil.Store.Sqlite.{Database, Connection, sqlite_store}
use pinveil.Store.Sqlite.View.{Inv, view}
use pinveil.Store.Sqlite.Refines.{quiet, Agrees}
use pinveil.Store.Sqlite.Histories.{call, history, history-Agrees}
use pinveil.Store.Sqlite.Faults.Methods.{refusal, call-atomic}
use pinveil.Store.Sqlite.Opening.{Library, StoreFile, prepare, initialized}
use pinveil.Store.Sqlite.Opening.Adoption.{
  Prepared, prepare-Prepared, IsDigest, all_calls, verdict, prepare-initialized,
}
use pinveil.Service.{Parts}
use pinveil.Service.Retrieval.{retrieve}
use pinveil.Service.OnSqlite.{on, retrieve-Agrees}
use pinveil.Tests.StoreRuns.{two_rows, note, later}
use pinveil.Tests.ServiceRuns.{service, at, right_pin}

abbrev no_rows : Database
no_rows = record { messages = []; sequence = 0 }

no_rows-Inv : Inv no_rows
no_rows-Inv = record { distinct = tt; written = tt; summable = omega arith }

abbrev calls : List Op
calls = inserts note 0 ∷ later

history-Agrees_example :
    ((history (sqlite_store two_rows) calls (quiet no_rows)).0
      ≡ (history (memory_store two_rows) calls (view no_rows)).0)
    × (view (history (sqlite_store two_rows) calls (quiet no_rows)).1.database
        ≡ (history (memory_store two_rows) calls (view no_rows)).1)
history-Agrees_example =
    history-Agrees two_rows calls no_rows (omega arith)
      (
        (omega arith, omega arith, omega arith),
        (
          (omega arith, omega arith, omega arith),
          ((omega arith, omega arith), (omega arith, (omega arith, tt))),
        ),
      )
      (omega arith) no_rows-Inv

-- A commit that fails: the fourth call of an insert that finds room is the INSERT, the fifth commits.
abbrev failing : Connection
failing = record { database = no_rows; faults = false ∷ false ∷ false ∷ false ∷ true ∷ [] }

call-atomic_example :
    (((call (sqlite_store two_rows) (inserts note 0) failing).0
        ≡ (call (sqlite_store two_rows) (inserts note 0) (quiet no_rows)).0)
      × ((call (sqlite_store two_rows) (inserts note 0) failing).1.database
          ≡ (call (sqlite_store two_rows) (inserts note 0) (quiet no_rows)).1.database))
    ⊎ ((call (sqlite_store two_rows) (inserts note 0) failing).0 ≡ refusal (inserts note 0))
      × ((call (sqlite_store two_rows) (inserts note 0) failing).1.database ≡ no_rows)
call-atomic_example = call-atomic two_rows (inserts note 0) failing

-- The parts of the service of the other runs, for a SQLite store.
abbrev sqlite_service : Parts Connection
sqlite_service = on (sqlite_store two_rows) service

retrieve-Agrees_example :
    Agrees
      (retrieve
        (on (sqlite_store two_rows) sqlite_service)
        (at 5)
        (codes "a")
        right_pin
        (quiet no_rows))
      (retrieve
        (on (memory_store two_rows) sqlite_service)
        (at 5)
        (codes "a")
        right_pin
        (view no_rows))
retrieve-Agrees_example =
    retrieve-Agrees two_rows sqlite_service (at 5) (codes "a") no_rows no_rows-Inv (omega arith)
      (omega arith) right_pin

-- A digest of zeros stands in for SHA-256.
abbrev zeros : Text
zeros =
    0 ∷ 0 ∷ 0 ∷ 0 ∷ 0 ∷ 0 ∷ 0 ∷ 0 ∷ 0 ∷ 0 ∷ 0 ∷ 0 ∷ 0 ∷ 0 ∷ 0 ∷ 0 ∷ 0 ∷ 0 ∷ 0 ∷ 0 ∷ 0 ∷ 0 ∷ 0 ∷ 0
    ∷ 0 ∷ 0 ∷ 0 ∷ 0 ∷ 0 ∷ 0 ∷ 0 ∷ 0 ∷ []

abbrev library : Library
library = record {
  sha256 = λ text. zeros;
  schema = record { kind = codes "table"; name = codes "messages"; sql = codes "CREATE" } ∷ [];
}

abbrev empty_file : StoreFile
empty_file = record { objects = []; settings = [] }

prepare-Prepared_example :
    Prepared library
      (codes "pepper")
      empty_file
      (prepare library (codes "pepper") (all_calls library) empty_file)
prepare-Prepared_example = prepare-Prepared library (codes "pepper") (all_calls library) empty_file

zeros-IsDigest : (text : Text) → IsDigest library (library.sha256 text)
zeros-IsDigest text = record { long = omega arith; bytes = omega arith }

prepare-initialized_example :
    prepare library (codes "other") (all_calls library) (initialized library (codes "pepper"))
    ≡ (verdict library (codes "pepper") (codes "other"), initialized library (codes "pepper"))
prepare-initialized_example =
    prepare-initialized library (codes "pepper") (codes "other") zeros-IsDigest (λ e. cc)
