-- ===== src/Service/OnSqlite.antt =====
-- crates/pinveil-server/src/service.rs: a retrieval from the SQLite store, while no SQL call fails,
-- against the same retrieval from the memory store.
use pinveil.Base.{
  ◌≤◌, ◌≡◌, refl, sym, subst, inl, inr, Text, Option, none, some, Result, ok, err, ok_or, leb,
  nat_eq, Bool-cases, Option-cases, text_equality, arith,
}
use pinveil.Base.Actions.{Action, ◌>>=◌, map_err, fail, lift}
use pinveil.Base.Dict
use pinveil.Core.Generate.{is_valid_pin}
use pinveil.ApiError.{ApiError, wrong_pin, unavailable}
use pinveil.Store.{Store, Attempt, is_expired_at}
use pinveil.Store.Memory
use pinveil.Store.Memory.{Inner, Caps, memory_store}
use pinveil.Store.Sqlite
use pinveil.Store.Sqlite.{Row, Database, Connection, sqlite_store, i64_max, u32_max}
use pinveil.Store.Sqlite.View.{Inv, IsWritten, view, entry_of}
use pinveil.Store.Sqlite.Statements.{row-view}
use pinveil.Store.Sqlite.Refines.{
  quiet, Agrees, meta_run, meta_absent, consume-Agrees, remove-Agrees,
}
use pinveil.Store.Sqlite.Histories.{quiet_of}
use pinveil.Store.Sqlite.Refines.Failing.{record_failure-Agrees}
use pinveil.Service.{Parts, Readings, storage_unavailable}
use pinveil.Service.Retrieval.{discard, charge_wrong, hand_out, check_pin, retrieve_now, retrieve}

-- A service with the same parts on another backend.
abbrev pub on : {S T : Type 0} → Store T → Parts S → Parts T
on store p = record {
  store = store;
  verifier = p.verifier;
  policy = p.policy;
  max_waiting = p.max_waiting;
  max_time = p.max_time;
  rfc3339 = p.rfc3339;
  encode = p.encode;
}

module _ {A B E F : Type 0} (convert : E → F) (k : A → Action Connection F B)
    (l : A → Action Inner F B)
    (rest : (a : A) (next : Database)
      → Inv next
      → Agrees (k a (quiet next)) (l a (view next))) where
  continue_then :
      (ours : Result A E × Connection) (theirs : Result A E × Inner)
      → Agrees ours theirs
      → Agrees
          ((map_err convert (λ _. ours) >>= k) ours.1)
          ((map_err convert (λ _. theirs) >>= l) theirs.1)
  continue_then (ok a, conn) theirs h =
      rw (← h.answer, ← h.state)
        (subst (λ c. Agrees (k a c) (l a (view conn.database))) (sym (quiet_of h.still_quiet))
          (rest a conn.database h.kept))
  continue_then (err e, conn) theirs h =
      rw (← h.answer)
        (record { answer = refl; state = h.state; kept = h.kept; still_quiet = h.still_quiet })

  -- A store call, and what follows it.
  call_then :
      (ours : Action Connection E A) (theirs : Action Inner E A) (db : Database)
      → Agrees (ours (quiet db)) (theirs (view db))
      → Agrees ((map_err convert ours >>= k) (quiet db)) ((map_err convert theirs >>= l) (view db))
  call_then ours theirs db h = continue_then (ours (quiet db)) (theirs (view db)) h

remembered :
    (id : Text) (row : Row) (db : Database)
    → Dict.get id db.messages ≡ some row
    → Memory.meta id (view db) ≡ (ok (some (entry_of row).meta), view db)
unfolding Memory.meta
remembered id row db h = rw (row-view id db, Memory.meta, h)

forgotten :
    (id : Text) (db : Database)
    → Dict.get id db.messages ≡ none
    → Memory.meta id (view db) ≡ (ok none, view db)
unfolding Memory.meta
forgotten id db h = rw (row-view id db, Memory.meta, h)

-- The answer to a wrong PIN.
abbrev refused : {S : Type 0} → Option Attempt → Action S ApiError Text
refused attempt = elim attempt [ some _ ↦ fail wrong_pin | none ↦ fail unavailable ]

refused-Agrees :
    (attempt : Option Attempt) (next : Database)
    → Inv next
    → Agrees (refused attempt (quiet next)) (refused attempt (view next))
refused-Agrees none next kept = record {
  answer = refl;
  state = refl;
  kept = kept;
  still_quiet = refl;
}
refused-Agrees (some _) next kept = record {
  answer = refl;
  state = refl;
  kept = kept;
  still_quiet = refl;
}

module _ (c : Caps) (p : Parts Connection) (r : Readings) (id : Text) (db : Database) (v : Inv db)
    (left : db.sequence ≤ i64_max) (small : p.policy.max_failed_attempts ≤ u32_max) where
  abbrev ours : Parts Connection
  ours = on (sqlite_store c) p

  abbrev theirs : Parts Inner
  theirs = on (memory_store c) p

  module _ (row : Row) (found : Dict.get id db.messages ≡ some row) where
    numbered : row.generation ≤ i64_max
    numbered = omega (
      arith,
      left,
      (Dict.AllV-get (IsWritten db.sequence) id db.messages row v.written found).numbered,
    )

    discard-Agrees :
        Agrees
          (discard ours r id (entry_of row).meta (quiet db))
          (discard theirs r id (entry_of row).meta (view db))
    unfolding discard entry_of
    discard-Agrees =
        call_then storage_unavailable (λ _. fail unavailable) (λ _. fail unavailable)
          (λ _ next kept. record { answer = refl; state = refl; kept = kept; still_quiet = refl })
          (Sqlite.remove id row.generation) (Memory.remove id row.generation) db
          (remove-Agrees id row.generation db numbered v)

    charge_wrong-Agrees :
        Agrees
          (charge_wrong ours r id (entry_of row).meta (quiet db))
          (charge_wrong theirs r id (entry_of row).meta (view db))
    unfolding charge_wrong entry_of
    charge_wrong-Agrees =
        call_then storage_unavailable refused refused refused-Agrees
          (Sqlite.record_failure id row.generation p.policy.max_failed_attempts)
          (Memory.record_failure id row.generation p.policy.max_failed_attempts) db
          (record_failure-Agrees id row.generation p.policy.max_failed_attempts db numbered small v)

    hand_out-Agrees :
        Agrees
          (hand_out ours r id (entry_of row).meta (quiet db))
          (hand_out theirs r id (entry_of row).meta (view db))
    unfolding hand_out entry_of
    hand_out-Agrees =
        call_then storage_unavailable (λ blob. lift (ok_or blob unavailable))
          (λ blob. lift (ok_or blob unavailable))
          (λ _ next kept. record { answer = refl; state = refl; kept = kept; still_quiet = refl })
          (Sqlite.consume id row.generation) (Memory.consume id row.generation) db
          (consume-Agrees id row.generation db numbered v)

    check_pin-Agrees :
        (pin : Text)
        → Agrees
            (check_pin ours r id pin (entry_of row).meta (quiet db))
            (check_pin theirs r id pin (entry_of row).meta (view db))
    unfolding check_pin entry_of
    check_pin-Agrees pin = elim (Bool-cases (leb p.max_waiting r.ahead)) [
      | inl full ↦ rw full (record { answer = refl; state = refl; kept = v; still_quiet = refl })
      | inr room ↦ elim (Bool-cases (p.verifier.verify pin row.pin_salt row.pin_verifier)) [
        | inl right ↦ rw (room, right) hand_out-Agrees
        | inr wrong ↦ rw (room, wrong) charge_wrong-Agrees
      ]
    ]

    found-Agrees :
        (pin : Text)
        → Agrees (retrieve_now ours r id pin (quiet db)) (retrieve_now theirs r id pin (view db))
    unfolding retrieve_now
    found-Agrees pin =
        rw (meta_run id db row v found, remembered id row db found)
          (elim (Bool-cases (is_expired_at (entry_of row).meta r.now)) [
            | inl late ↦ rw late discard-Agrees
            | inr live ↦ rw live (check_pin-Agrees pin)
          ])

  retrieve_now-Agrees :
      (pin : Text)
      → Agrees (retrieve_now ours r id pin (quiet db)) (retrieve_now theirs r id pin (view db))
  unfolding retrieve_now
  retrieve_now-Agrees pin = elim (Option-cases (Dict.get id db.messages)) [
    | inr (row, found) ↦ found-Agrees row found pin
    | inl h ↦
        rw (meta_absent id db h, forgotten id db h)
          (record { answer = refl; state = refl; kept = v; still_quiet = refl })
  ]

  -- While no SQL call fails, a retrieval from the SQLite store answers what it answers from the
  -- memory store on the state that the database stands for, and leaves a well-formed database
  -- that stands for the next state of the memory store, for a limit of attempts within 32 bits
  -- and keys within 63.
  pub retrieve-Agrees :
      (pin : Text) → Agrees (retrieve ours r id pin (quiet db)) (retrieve theirs r id pin (view db))
  unfolding retrieve
  retrieve-Agrees pin = elim (Bool-cases (is_valid_pin pin)) [
    | inr bad ↦ rw bad (record { answer = refl; state = refl; kept = v; still_quiet = refl })
    | inl valid ↦ elim (Bool-cases (nat_eq r.slots 0)) [
      | inl full ↦
          rw (valid, full) (record { answer = refl; state = refl; kept = v; still_quiet = refl })
      | inr free ↦ rw (valid, free) (retrieve_now-Agrees pin)
    ]
  ]
