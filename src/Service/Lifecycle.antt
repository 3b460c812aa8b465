-- ===== src/Service/Lifecycle.antt =====
-- crates/pinveil-server/src/service.rs: the life of one message, from its create through guesses to
-- its one reader.
use pinveil.Base.{
  ℕ, ◌+◌, ◌^◌, ◌≤◌, ◌<◌, ◌≡◌, refl, ap, inl, inr, Text, true, false, List, [], ◌∷◌, none, some,
  Result, ok, err, leb, length, if◌then◌else◌, All, arith,
}
use pinveil.Core.Generate.{is_valid_pin}
use pinveil.ApiError.{ApiError, unavailable}
use pinveil.Store.{is_expired_at}
use pinveil.Store.Memory.{Entry, Inner, Caps, wrap32}
use pinveil.Store.Memory.Lookup.{row}
use pinveil.Store.Memory.Invariant.{Inv}
use pinveil.Store.Memory.Insert.{fresh_entry}
use pinveil.Store.Memory.Failures.{with_failures}
use pinveil.Service.{Parts, Readings, Created, Ready, create, message_of, from_secs, parse_u64}
use pinveil.Service.Retrieval.{retrieve_now}
use pinveil.Service.RowLife.{on_memory, retrieve_now-row}
use pinveil.Service.Creation.{IsReady, Allocated, stopped, stored, create-Allocated}

-- A retrieval that reaches the PIN check of a row: not expired, and a place in the hash queue.
pub record Reaches (p : Parts Inner) (r : Readings) (e : Entry) : Type 0 where
  pub fresh : r.now < e.meta.expires_at
  pub admitted : r.ahead < p.max_waiting

-- Such a retrieval with a wrong PIN.
pub record Guess (p : Parts Inner) (e : Entry) (g : Readings × Text) : Type 0 where
  pub reaches : Reaches p g.0 e
  pub wrong : p.verifier.verify g.1 e.meta.pin_salt e.meta.pin_verifier ≡ false

module _ (c : Caps) (p : Parts Inner) (id : Text) where
  abbrev pub retrieve_at : Readings → Text → Inner → Result Text ApiError × Inner
  retrieve_at r pin = retrieve_now (on_memory c p) r id pin

  unfoldable pub guess_all : List (Readings × Text) → Inner → Inner
  guess_all [] s = s
  guess_all ((r, pin) ∷ gs) s = guess_all gs (retrieve_at r pin s).1

  -- No row: nobody gets anything, ever.
  pub retrieve_absent :
      (r : Readings) (pin : Text) (s : Inner)
      → row id s ≡ none
      → ((retrieve_at r pin s).0 ≡ err unavailable) × (row id (retrieve_at r pin s).1 ≡ none)
  retrieve_absent r pin s h = ground (arith, retrieve_now-row c p r id pin s)

  guess_all_absent :
      (gs : List (Readings × Text)) (s : Inner) → row id s ≡ none → row id (guess_all gs s) ≡ none
  unfolding guess_all
  guess_all_absent [] s h = h
  guess_all_absent ((r, pin) ∷ gs) s h =
      guess_all_absent gs (retrieve_at r pin s).1 (retrieve_absent r pin s h).1

  -- The right PIN in time takes the blob and the row.
  pub retrieve_right :
      (r : Readings) (pin : Text) (s : Inner) (e : Entry)
      → row id s ≡ some e
      → Reaches p r e
      → p.verifier.verify pin e.meta.pin_salt e.meta.pin_verifier ≡ true
      → ((retrieve_at r pin s).0 ≡ ok e.blob) × (row id (retrieve_at r pin s).1 ≡ none)
  unfolding is_expired_at
  retrieve_right r pin s e h reach right = ground (arith, reach, retrieve_now-row c p r id pin s)

  retrieve_wrong :
      (r : Readings) (pin : Text) (s : Inner) (e : Entry)
      → row id s ≡ some e
      → Guess p e (r, pin)
      → row id (retrieve_at r pin s).1 ≡ (
          let n = wrap32 (e.meta.failed_attempts + 1) in
          if leb p.policy.max_failed_attempts n then none else some (with_failures n e))
  unfolding is_expired_at
  retrieve_wrong r pin s e h g =
      ground (arith, g.wrong, g.reaches.fresh, g.reaches.admitted, retrieve_now-row c p r id pin s)

  Guess-with_failures :
      (n : ℕ) (e : Entry) (gs : List (Readings × Text))
      → All (Guess p e) gs
      → All (Guess p (with_failures n e)) gs
  Guess-with_failures n e [] a = tt
  Guess-with_failures n e (g ∷ gs) a = (
    record {
      reaches = record { fresh = a.0.reaches.fresh; admitted = a.0.reaches.admitted };
      wrong = a.0.wrong;
    },
    Guess-with_failures n e gs a.1,
  )

  -- Wrong PINs are counted one by one up to the limit; at the limit the message is gone.
  pub row-guess_all :
      (gs : List (Readings × Text)) (s : Inner) (e : Entry)
      → row id s ≡ some e
      → All (Guess p e) gs
      → e.meta.failed_attempts < p.policy.max_failed_attempts
      → p.policy.max_failed_attempts < 2 ^ 32
      → row id (guess_all gs s) ≡ (
          let n = e.meta.failed_attempts + length gs in
          if leb p.policy.max_failed_attempts n then none else some (with_failures n e))
  unfolding guess_all
  row-guess_all [] s e h a below small = rw h (ground arith)
  row-guess_all ((r, pin) ∷ gs) s e h a below small =
      let n = wrap32 (e.meta.failed_attempts + 1) in
      let s' = (retrieve_at r pin s).1 in
      ground (
        arith,
        retrieve_wrong r pin s e h a.0,
        row-guess_all gs s' (with_failures n e),
        Guess-with_failures n e gs a.1,
        guess_all_absent gs s',
      )

  -- With fewer wrong PINs at the check of a stored message than its limit, which is below 2^32,
  -- a retrieval with the right PIN, before the expiry and with room in the hash queue, answers
  -- the blob and the next retrieval answers that the message is unavailable.
  pub read_after_guesses :
      (gs : List (Readings × Text)) (r r' : Readings) (pin pin' : Text) (s : Inner) (e : Entry)
      → row id s ≡ some e
      → All (Guess p e) gs
      → e.meta.failed_attempts + length gs < p.policy.max_failed_attempts
      → p.policy.max_failed_attempts < 2 ^ 32
      → Reaches p r e
      → p.verifier.verify pin e.meta.pin_salt e.meta.pin_verifier ≡ true
      → let after = retrieve_at r pin (guess_all gs s) in
        (after.0 ≡ ok e.blob) × ((retrieve_at r' pin' after.1).0 ≡ err unavailable)
  read_after_guesses gs r r' pin pin' s e h a below small reach right =
      let n = e.meta.failed_attempts + length gs in
      let held : row id (guess_all gs s) ≡ some (with_failures n e) =
        ground (arith, row-guess_all gs s e h a) in
      let read =
        retrieve_right r pin (guess_all gs s) (with_failures n e) held
          (record { fresh = reach.fresh; admitted = reach.admitted }) right in
      (read.0, (retrieve_absent r' pin' (retrieve_at r pin (guess_all gs s)).1 read.1).0)

  -- Once wrong PINs that reached the check, before the expiry and with room in the hash queue,
  -- have filled a limit below 2^32 of a stored message, the next retrieval, the right PIN
  -- included, answers that the message is unavailable.
  pub burned_after_guesses :
      (gs : List (Readings × Text)) (r : Readings) (pin : Text) (s : Inner) (e : Entry)
      → row id s ≡ some e
      → All (Guess p e) gs
      → e.meta.failed_attempts < p.policy.max_failed_attempts
      → p.policy.max_failed_attempts < 2 ^ 32
      → p.policy.max_failed_attempts ≤ e.meta.failed_attempts + length gs
      → (retrieve_at r pin (guess_all gs s)).0 ≡ err unavailable
  burned_after_guesses gs r pin s e h a below small full =
      let gone : row id (guess_all gs s) ≡ none = ground (arith, row-guess_all gs s e h a) in
      (retrieve_absent r pin (guess_all gs s) gone).0

module _ (c : Caps) (p : Parts Inner) (r : Readings) (blob pin ttl : Text) (s : Inner)
    (size : c.max_bytes + length blob < 2 ^ 64) (count : s.next_generation + 1 < 2 ^ 64)
    (v : Inv c s) where
  -- The row that a successful create leaves under the id it answers.
  pub record Posted (made : Created) (e : Entry) : Type 0 where
    pub shape : is_valid_pin pin ≡ true
    pub held : row made.id (create (on_memory c p) r blob pin ttl s).1 ≡ some e
    pub same_blob : e.blob ≡ blob
    pub unused : e.meta.failed_attempts ≡ 0
    pub hashed : e.meta.pin_verifier ≡ p.verifier.hash pin e.meta.pin_salt
    pub written : p.rfc3339 e.meta.expires_at ≡ some made.expires_at
    pub secs : ℕ
    pub read : parse_u64 ttl ≡ some secs
    pub expiry : e.meta.expires_at ≡ r.now + from_secs secs

  Posted-from :
      (made : Created) (ready : Ready)
      → (create (on_memory c p) r blob pin ttl s).0 ≡ ok made
      → IsReady p r blob pin ttl ready
      → Allocated r.now
          (λ id.
            message_of (on_memory c p) r ready.pin_salt ready.pin_verifier ready.expires_at id blob)
          ready.expires
          s
          (create (on_memory c p) r blob pin ttl s)
      → (e : Entry) × Posted made e
  unfolding message_of
  Posted-from made ready said i (stopped e failed rows) = absurd (ground (arith, said, failed))
  Posted-from made ready said i (stored made' g said' text held free rows) =
      let same : made' ≡ made = cc (said, said') in
      (
        fresh_entry
            (message_of (on_memory c p) r ready.pin_salt ready.pin_verifier ready.expires_at
              made'.id blob)
            g,
        record {
          shape = i.shape;
          held = rw (← same) held;
          same_blob = refl;
          unused = refl;
          hashed = i.hashed;
          written = rw (← same, text) i.written;
          secs = ready.secs;
          read = i.read;
          expiry = i.expiry;
        },
      )

  pub create-Posted :
      (made : Created)
      → (create (on_memory c p) r blob pin ttl s).0 ≡ ok made
      → (e : Entry) × Posted made e
  create-Posted made said = elim (create-Allocated c p r blob pin ttl s size count v) [
    | inl (e, failed) ↦ absurd (ground (arith, said, ap (λ out. out.0) failed))
    | inr (ready, i, a) ↦ Posted-from made ready said i a
  ]
