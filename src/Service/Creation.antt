-- ===== src/Service/Creation.antt =====
-- crates/pinveil-server/src/service.rs: what a create stores, and when.
use pinveil.Base.{
  ℕ, zero, suc, ◌+◌, ◌^◌, ◌≤◌, ◌<◌, ◌≡◌, ◌≢◌, ◌⊎◌, refl, sym, ◌∙◌, inl, inr, Text, true, none, some,
  Result, ok, err, length, Option-cases, Result-cases, arith,
}
use pinveil.Core.Generate.{is_valid_pin}
use pinveil.ApiError.{ApiError}
use pinveil.Store.{Time, NewMessage}
use pinveil.Store.Memory.{Inner, Caps, insert}
use pinveil.Store.Memory.Lookup.{row, live}
use pinveil.Store.Memory.Invariant.{Inv}
use pinveil.Store.Memory.Insert.{insert-contract, fresh_entry, live-eq-some}
use pinveil.Store.Memory.Steps.{insert-Inv}
use pinveil.Service.{
  Parts, Readings, Created, allocate, prepare, Ready, create, message_of, parse_u64, from_secs,
  pool_run, checked_add, or_internal, max_id_attempts,
}
use pinveil.Service.RowLife.{on_memory}

-- A row is unchanged, or it had expired and is gone.
abbrev pub AtMostExpired : Time → Inner → Inner → Text → Type 0
AtMostExpired now s s' j = (row j s' ≡ row j s) ⊎ ((row j s' ≡ none) × (live now (row j s) ≡ none))

at_most_expired :
    (now : Time) (s s' : Inner) (j : Text)
    → row j s' ≡ live now (row j s)
    → AtMostExpired now s s' j
at_most_expired now s s' j h = elim (Option-cases (live now (row j s))) [
  | inl gone ↦ inr (h ∙ gone, gone)
  | inr (e, lived) ↦ inl (h ∙ lived ∙ sym (live-eq-some now (row j s) e lived))
]

AtMostExpired-swap :
    (now : Time) (s t s' : Inner) (j : Text)
    → row j t ≡ row j s
    → AtMostExpired now t s' j
    → AtMostExpired now s s' j
AtMostExpired-swap now s t s' j same h = rw same at h

-- The outcome of an id allocation from `s`: an error, with no row but expired ones changed, or one
-- new row under the answered id, which no live row held.
pub data Allocated (now : Time) (message : Text → NewMessage) (expires : Text) (s : Inner)
    (out : Result Created ApiError × Inner) : Type 0 where
  stopped :
      (e : ApiError)
      → out.0 ≡ err e
      → ((j : Text) → AtMostExpired now s out.1 j)
      → Allocated now message expires s out
  stored :
      (made : Created) (g : ℕ)
      → out.0 ≡ ok made
      → made.expires_at ≡ expires
      → row made.id out.1 ≡ some (fresh_entry (message made.id) g)
      → live now (row made.id s) ≡ none
      → ((j : Text) → made.id ≢ j → AtMostExpired now s out.1 j)
      → Allocated now message expires s out

Allocated-swap :
    (now : Time) (message : Text → NewMessage) (expires : Text) (s t : Inner)
    (out : Result Created ApiError × Inner)
    → ((j : Text) → row j t ≡ row j s)
    → Allocated now message expires t out
    → Allocated now message expires s out
Allocated-swap now message expires s t out same (stopped e said rows) =
    stopped e said (λ j. AtMostExpired-swap now s t out.1 j (same j) (rows j))
Allocated-swap now message expires s t out same (stored made g said text row_made free rows) =
    stored made g said text row_made (rw (← same made.id) free)
      (λ j ne. AtMostExpired-swap now s t out.1 j (same j) (rows j ne))

module _ (c : Caps) (p : Parts Inner) (r : Readings) (pin_salt pin_verifier : Text)
    (expires_at : Time) (expires blob : Text) where
  abbrev posted : Text → NewMessage
  posted id = message_of (on_memory c p) r pin_salt pin_verifier expires_at id blob

  abbrev allocated : ℕ → ℕ → Inner → Result Created ApiError × Inner
  allocated n k =
      allocate (on_memory c p) r n k (message_of (on_memory c p) r pin_salt pin_verifier expires_at)
        expires blob

  allocate-Allocated :
      (n k : ℕ) (s : Inner)
      → c.max_bytes + length blob < 2 ^ 64
      → s.next_generation + 1 < 2 ^ 64
      → Inv c s
      → Allocated r.now posted expires s (allocated n k s)
  unfolding allocate message_of
  allocate-Allocated zero k s size count v = stopped _ refl (λ j. inl refl)
  allocate-Allocated (suc n) k s size count v = elim (Result-cases (r.next_id k)) [
    | inr (e, no_id) ↦ rw (no_id, allocate) (stopped _ refl (λ j. inl refl))
    | inl (id, drawn) ↦
        rw (drawn, allocate)
          (elim (insert-contract c (posted id) r.now s v) [
            | inl taken ↦ rw taken.said (
                Allocated-swap r.now posted expires s (insert c (posted id) r.now s).1 _
                  taken.unchanged
                  (allocate-Allocated n (k + 1) (insert c (posted id) r.now s).1 size
                    (omega (arith, taken.counter))
                    (insert-Inv c (posted id) r.now s (record { size = size; count = count }) v)))
            | inr (inl refused) ↦ rw refused.said (
                stopped _ refl (λ j.
                  at_most_expired r.now s (insert c (posted id) r.now s).1 j (refused.swept j)))
            | inr (inr st) ↦ rw st.said (
                stored _ _ refl refl st.stored st.free (λ j ne. elim (st.others j ne) [
                  | inl kept ↦ inl kept
                  | inr lived ↦ at_most_expired r.now s (insert c (posted id) r.now s).1 j lived
                ]))
          ])
  ]

-- What the local variables of `create` are when its loop begins.
pub record IsReady (p : Parts Inner) (r : Readings) (blob pin ttl : Text) (ready : Ready)
    : Type 0 where
  pub shape : is_valid_pin pin ≡ true
  pub read : parse_u64 ttl ≡ some ready.secs
  pub long_enough : p.policy.min_ttl ≤ from_secs ready.secs
  pub short_enough : from_secs ready.secs ≤ p.policy.max_ttl
  pub nonempty : 0 < length blob
  pub small : length blob ≤ p.policy.max_payload_bytes
  pub hashed : ready.pin_verifier ≡ p.verifier.hash pin ready.pin_salt
  pub expiry : ready.expires_at ≡ r.now + from_secs ready.secs
  pub written : p.rfc3339 ready.expires_at ≡ some ready.expires

module _ (c : Caps) (p : Parts Inner) (r : Readings) (blob pin ttl : Text) where
  prepare-IsReady :
      (ready : Ready)
      → prepare (on_memory c p) r blob pin ttl ≡ ok ready
      → IsReady p r blob pin ttl ready
  unfolding prepare pool_run checked_add or_internal
  prepare-IsReady ready h = record {
    shape = ground arith;
    read = ground arith;
    long_enough = ground arith;
    short_enough = ground arith;
    nonempty = ground arith;
    small = ground arith;
    hashed = ground arith;
    expiry = ground arith;
    written = ground arith;
  }

  -- On a store that keeps its accounting, with sizes within 64 bits: a create that fails a check
  -- changes nothing; one that passes them has a valid PIN, a TTL and a blob in range, and then
  -- stores one new message under an id that no live row held, or answers an error, while other
  -- rows at most expire.
  pub create-Allocated :
      (s : Inner)
      → c.max_bytes + length blob < 2 ^ 64
      → s.next_generation + 1 < 2 ^ 64
      → Inv c s
      → let out = create (on_memory c p) r blob pin ttl s in
        ((e : ApiError) × (out ≡ (err e, s)))
        ⊎ ((ready : Ready) × IsReady p r blob pin ttl ready
            × Allocated r.now
                (posted c p r ready.pin_salt ready.pin_verifier ready.expires_at ready.expires blob)
                ready.expires
                s
                out)
  unfolding create
  create-Allocated s size count v = elim (Result-cases (prepare (on_memory c p) r blob pin ttl)) [
    | inr (e, failed) ↦ inl (e, rw (failed, create))
    | inl (ready, passed) ↦ inr (
      ready,
      prepare-IsReady ready passed,
      rw (passed, create)
          (allocate-Allocated c p r ready.pin_salt ready.pin_verifier ready.expires_at ready.expires
            blob max_id_attempts 0 s size count v),
    )
  ]
