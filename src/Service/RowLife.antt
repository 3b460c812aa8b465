-- ===== src/Service/RowLife.antt =====
-- crates/pinveil-server/src/service.rs: a retrieval from the memory store, against the life of one
-- row: present, charged, burned, expired or handed out.
use pinveil.Base.{
  ◌+◌, ◌≡◌, refl, inl, inr, Text, false, Option, none, some, Result, ok, err, leb, if◌then◌else◌,
  text_equality, text_eq, text_eq_refl, Bool-cases, Option-cases, arith,
}
use pinveil.ApiError.{ApiError, wrong_pin, unavailable}
use pinveil.Store.{MessageMeta, is_expired_at}
use pinveil.Store.Memory
use pinveil.Store.Memory.{
  Entry, Inner, Caps, memory_store, take, take_generation, record_failure, consume, blob_of,
  is_some, wrap32,
}
use pinveil.Store.Memory.Lookup.{row, taken-take_generation, row-take_generation}
use pinveil.Store.Memory.Failures.{with_failures, row-record_failure, answer-record_failure}
use pinveil.Service.{Parts, Readings, busy, pool_run}
use pinveil.Service.Retrieval.{discard, charge_wrong, hand_out, check_pin, retrieve_now}

-- A service on the memory store.
abbrev pub on_memory : Caps → Parts Inner → Parts Inner
on_memory c p = record p { store = memory_store c }

module _ (p : Parts Inner) (r : Readings) (pin : Text) where
  -- The answer to a retrieval, and what it leaves of the row.
  abbrev pub checked : Entry → Result Text ApiError × Option Entry
  checked e =
      if p.verifier.verify pin e.meta.pin_salt e.meta.pin_verifier
      then (ok e.blob, none)
      else (let n = wrap32 (e.meta.failed_attempts + 1) in
          (
            err wrong_pin,
            if leb p.policy.max_failed_attempts n then none else some (with_failures n e),
          ))

  abbrev pub queued : Entry → Result Text ApiError × Option Entry
  queued e = if leb p.max_waiting r.ahead then (err busy, some e) else checked e

  abbrev pub expected : Option Entry → Result Text ApiError × Option Entry
  expected none = (err unavailable, none)
  expected (some e) = if is_expired_at e.meta r.now then (err unavailable, none) else queued e

module _ (c : Caps) (p : Parts Inner) (r : Readings) (id pin : Text) (s : Inner) (e : Entry)
    (held : row id s ≡ some e) where
  discard-row :
      let out = discard (on_memory c p) r id e.meta s in
      (out.0 ≡ err unavailable) × (row id out.1 ≡ none)
  unfolding discard Memory.remove
  discard-row =
      (ground arith, ground (arith, row-take_generation id id e.meta.generation s, text_eq_refl id))

  hand_out-row :
      let out = hand_out (on_memory c p) r id e.meta s in
      (out.0 ≡ ok e.blob) × (row id out.1 ≡ none)
  unfolding hand_out consume blob_of
  hand_out-row = (
    ground (arith, taken-take_generation id e.meta.generation s),
    ground (arith, row-take_generation id id e.meta.generation s, text_eq_refl id),
  )

  charge_wrong-row :
      let out = charge_wrong (on_memory c p) r id e.meta s in
      let n = wrap32 (e.meta.failed_attempts + 1) in
      (out.0 ≡ err wrong_pin)
      × (row id out.1
          ≡ (if leb p.policy.max_failed_attempts n then none else some (with_failures n e)))
  unfolding charge_wrong
  charge_wrong-row = (
    ground (arith, answer-record_failure id e.meta.generation p.policy.max_failed_attempts s),
    ground (
      arith,
      row-record_failure id id e.meta.generation p.policy.max_failed_attempts s,
      text_eq_refl id,
    ),
  )

module _ (c : Caps) (p : Parts Inner) (r : Readings) (id pin : Text) (s : Inner) where
  check_pin-row :
      (e : Entry)
      → row id s ≡ some e
      → let out = check_pin (on_memory c p) r id pin e.meta s in
        (out.0 ≡ (queued p r pin e).0) × (row id out.1 ≡ (queued p r pin e).1)
  unfolding check_pin pool_run
  check_pin-row e held = elim (Bool-cases (leb p.max_waiting r.ahead)) [
    | inl crowded ↦ rw crowded (refl, held)
    | inr free ↦ elim (Bool-cases (p.verifier.verify pin e.meta.pin_salt e.meta.pin_verifier)) [
      | inl right ↦ rw (free, right) (hand_out-row c p r id pin s e held)
      | inr wrong ↦ rw (free, wrong) (charge_wrong-row c p r id pin s e held)
    ]
  ]

  -- On every branch a retrieval from the memory store answers and leaves its row as the life of
  -- one row says: unavailable and gone if absent or expired, busy and unchanged if the hash
  -- queue is full, the blob and gone for the right PIN, one failure more or burned for a wrong
  -- one.
  pub retrieve_now-row :
      let out = retrieve_now (on_memory c p) r id pin s in
      (out.0 ≡ (expected p r pin (row id s)).0) × (row id out.1 ≡ (expected p r pin (row id s)).1)
  unfolding retrieve_now Memory.meta
  retrieve_now-row = elim (Option-cases (row id s)) [
    | inl absent ↦ rw (absent, Memory.meta) (refl, absent)
    | inr (e, held) ↦ rw (held, Memory.meta) (present e held)
  ]
    where
      present :
          (e : Entry)
          → row id s ≡ some e
          → let out =
              (if is_expired_at e.meta r.now
                  then discard (on_memory c p) r id e.meta
                  else check_pin (on_memory c p) r id pin e.meta)
                s in
            (out.0 ≡ (expected p r pin (some e)).0) × (row id out.1 ≡ (expected p r pin (some e)).1)
      present e held = elim (Bool-cases (is_expired_at e.meta r.now)) [
        | inl old ↦ rw old (discard-row c p r id pin s e held)
        | inr fresh ↦ rw fresh (check_pin-row e held)
      ]

  discard-others :
      (j : Text) (m : MessageMeta)
      → text_eq id j ≡ false
      → row j (discard (on_memory c p) r id m s).1 ≡ row j s
  unfolding discard Memory.remove
  discard-others j m ne = ground (arith, ne, row-take_generation id j m.generation s)

  check_pin-others :
      (j : Text) (m : MessageMeta)
      → text_eq id j ≡ false
      → row j (check_pin (on_memory c p) r id pin m s).1 ≡ row j s
  unfolding check_pin hand_out charge_wrong consume
  check_pin-others j m ne = ground (
    arith,
    ne,
    row-take_generation id j m.generation s,
    row-record_failure id j m.generation p.policy.max_failed_attempts s,
  )

  -- A retrieval of one id leaves the row of every other id as it was.
  pub retrieve_now-others :
      (j : Text)
      → text_eq id j ≡ false
      → row j (retrieve_now (on_memory c p) r id pin s).1 ≡ row j s
  unfolding retrieve_now Memory.meta
  retrieve_now-others j ne = elim (Option-cases (row id s)) [
    | inl absent ↦ rw (absent, Memory.meta)
    | inr (e, held) ↦ elim (Bool-cases (is_expired_at e.meta r.now)) [
      | inl old ↦ rw (held, Memory.meta, old) (discard-others j e.meta ne)
      | inr fresh ↦ rw (held, Memory.meta, fresh) (check_pin-others j e.meta ne)
    ]
  ]
