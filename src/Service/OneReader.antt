-- ===== src/Service/OneReader.antt =====
-- crates/pinveil-server/src/service.rs: a message from its create to its one reader, through
-- `retrieve` with its guards.
use pinveil.Base.{
  ℕ, ◌+◌, ◌^◌, ◌<◌, ◌≡◌, ◌≢◌, refl, ap, ◌∙◌, Text, true, false, none, some, ok, nat_eq, length,
  Bool-cases, inl, inr, arith,
}
use pinveil.Core.Generate.{is_valid_pin}
use pinveil.Pin.{AcceptsOwnHash}
use pinveil.Store.Memory.{Inner, Caps}
use pinveil.Store.Memory.Lookup.{row}
use pinveil.Store.Memory.Invariant.{Inv}
use pinveil.Service.{Parts, Readings, Created, create, parse_u64, from_secs}
use pinveil.Service.Retrieval.{retrieve, retrieve_now}
use pinveil.Service.RowLife.{on_memory}
use pinveil.Service.Lifecycle.{retrieve_right, retrieve_absent, create-Posted}

module _ (c : Caps) (p : Parts Inner) (id : Text) where
  retrieve_admitted :
      (r : Readings) (pin : Text) (s : Inner)
      → is_valid_pin pin ≡ true
      → 0 < r.slots
      → retrieve (on_memory c p) r id pin s ≡ retrieve_now (on_memory c p) r id pin s
  unfolding retrieve
  retrieve_admitted r pin s valid free =
      let some_slot : nat_eq r.slots 0 ≡ false = ground arith in rw (valid, some_slot) refl

  retrieve_gone :
      (r : Readings) (pin blob : Text) (s : Inner)
      → row id s ≡ none
      → (retrieve (on_memory c p) r id pin s).0 ≢ ok blob
  unfolding retrieve
  retrieve_gone r pin blob s gone got = elim (Bool-cases (is_valid_pin pin)) [
    | inr bad ↦ ground (arith, bad, got)
    | inl valid ↦ elim (Bool-cases (nat_eq r.slots 0)) [
      | inl full ↦ ground (arith, valid, full, got)
      | inr free ↦
          ground
            (arith, got, retrieve_admitted r pin s valid, (retrieve_absent c p id r pin s gone).0)
    ]
  ]

module _ (c : Caps) (p : Parts Inner) (r : Readings) (blob pin ttl : Text) (s : Inner)
    (size : c.max_bytes + length blob < 2 ^ 64) (count : s.next_generation + 1 < 2 ^ 64)
    (v : Inv c s) where
  -- On a memory store that keeps its accounting, with sizes within 64 bits: after a successful
  -- create, a retrieval of the answered id with the same PIN before the expiry, with a free slot
  -- and room in the hash queue, answers the blob, and the retrieval after it answers no blob,
  -- with whatever PIN, for a verifier that accepts its own hashes.
  pub retrieve-create :
      (made : Created) (secs : ℕ) (r₁ r₂ : Readings) (pin₂ blob₂ : Text)
      → AcceptsOwnHash p.verifier
      → parse_u64 ttl ≡ some secs
      → (create (on_memory c p) r blob pin ttl s).0 ≡ ok made
      → r₁.now < r.now + from_secs secs
      → r₁.ahead < p.max_waiting
      → 0 < r₁.slots
      → let first =
          retrieve (on_memory c p) r₁ made.id pin (create (on_memory c p) r blob pin ttl s).1 in
        (first.0 ≡ ok blob) × ((retrieve (on_memory c p) r₂ made.id pin₂ first.1).0 ≢ ok blob₂)
  retrieve-create made secs r₁ r₂ pin₂ blob₂ own read said soon free slot =
      let (e, post) = create-Posted c p r blob pin ttl s size count v made said in
      let right : p.verifier.verify pin e.meta.pin_salt e.meta.pin_verifier ≡ true =
        rw post.hashed (own pin e.meta.pin_salt) in
      let same : post.secs ≡ secs = cc (post.read, read) in
      let got =
        retrieve_right c p made.id r₁ pin _ e post.held
          (record { fresh = omega (arith, post.expiry, ap from_secs same); admitted = free })
          right in
      rw
        (retrieve_admitted c p made.id r₁ pin (create (on_memory c p) r blob pin ttl s).1 post.shape
          slot)
        (got.0 ∙ ap ok post.same_blob, retrieve_gone c p made.id r₂ pin₂ blob₂ _ got.1)
