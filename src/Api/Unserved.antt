-- ===== src/Api/Unserved.antt =====
-- crates/pinveil-server/src/api.rs, crates/pinveil-server/src/service.rs: requests that are refused
-- for what they are, or for their number, leave the stored messages alone.
use pinveil.Base.{
  ℕ, zero, suc, ◌+◌, ◌≡◌, ◌⊎◌, refl, inl, inr, Text, Bool, true, false, Option, none, some, Result,
  ok, err, leb, nat_eq, Eq, Bool-cases, Result-cases, arith,
}
use pinveil.Core.Generate.{is_valid_pin}
use pinveil.ApiError.{
  ApiError, bad_request, invalid_pin, wrong_pin, unavailable, not_found, payload_too_large,
  unsupported_media_type, rate_limited, service_unavailable, internal,
}
use pinveil.RateLimit.{Bucket, allow}
use pinveil.Store.{MessageMeta, id_taken, full, storage, NewMessage, is_expired_at}
use pinveil.Service
use pinveil.Service.{
  Parts, Readings, Created, pool_run, allocate, prepare, max_id_attempts, message_of,
}
use pinveil.Service.Retrieval
use pinveil.Service.Retrieval.{discard, charge_wrong, hand_out, check_pin, retrieve_now}
use pinveil.Api
use pinveil.Api.{
  Form, Response, created, delivered, refused, method_not_allowed, respond, App, Network, Request,
  Endpoint, messages, retrieval, Method, get, post, head, another, read_form, rate_limit, client,
  route, handle,
}

-- Refusals of the request itself, by 400, 413, 415 or 429.
abbrev pub is_for_request : ApiError → Bool
is_for_request (bad_request _) = true
is_for_request invalid_pin = true
is_for_request payload_too_large = true
is_for_request unsupported_media_type = true
is_for_request rate_limited = true
is_for_request wrong_pin = false
is_for_request unavailable = false
is_for_request not_found = false
is_for_request (service_unavailable _) = false
is_for_request internal = false

abbrev pub turns_away : Response → Bool
turns_away (created _) = false
turns_away (delivered _) = false
turns_away (refused e) = is_for_request e
turns_away method_not_allowed = true

-- An outcome that is no refusal of the request.
abbrev Serves : {A : Type 0} → Result A ApiError → Type 0
Serves (ok _) = Unit
Serves (err e) = is_for_request e ≡ false

module _ {S : Type 0} (parts : Parts S) (r : Readings) where
  open parts use {store, policy, verifier}

  discard-Serves : (id : Text) (meta : MessageMeta) (s : S) → Serves (discard parts r id meta s).0
  unfolding discard
  discard-Serves id meta s = elim (Result-cases (store.remove id meta.generation s).0) [
    | inl (b, h) ↦ rw h refl
    | inr (b, h) ↦ rw h refl
  ]

  charge_wrong-Serves :
      (id : Text) (meta : MessageMeta) (s : S) → Serves (charge_wrong parts r id meta s).0
  unfolding charge_wrong
  charge_wrong-Serves id meta s =
      elim (Result-cases (store.record_failure id meta.generation policy.max_failed_attempts s).0) [
        | inl (none, h) ↦ rw h refl
        | inl (some x, h) ↦ rw h refl
        | inr (b, h) ↦ rw h refl
      ]

  hand_out-Serves : (id : Text) (meta : MessageMeta) (s : S) → Serves (hand_out parts r id meta s).0
  unfolding hand_out
  hand_out-Serves id meta s = elim (Result-cases (store.consume id meta.generation s).0) [
    | inl (none, h) ↦ rw h refl
    | inl (some x, h) ↦ rw h tt
    | inr (b, h) ↦ rw h refl
  ]

  check_pin-Serves :
      (id pin : Text) (meta : MessageMeta) (s : S) → Serves (check_pin parts r id pin meta s).0
  unfolding check_pin
  check_pin-Serves id pin meta s = elim (Bool-cases (leb parts.max_waiting r.ahead)) [
    | inl busy ↦ rw busy refl
    | inr room ↦ elim (Bool-cases (verifier.verify pin meta.pin_salt meta.pin_verifier)) [
      | inl right ↦ rw (room, right) (hand_out-Serves id meta s)
      | inr wrong ↦ rw (room, wrong) (charge_wrong-Serves id meta s)
    ]
  ]

  retrieve_now-Serves : (id pin : Text) (s : S) → Serves (retrieve_now parts r id pin s).0
  unfolding retrieve_now
  retrieve_now-Serves id pin s = elim (Result-cases (store.meta id s).0) [
    | inl (none, h) ↦ rw h refl
    | inl (some meta, h) ↦ elim (Bool-cases (is_expired_at meta r.now)) [
      | inl late ↦ rw (h, late) (discard-Serves id meta (store.meta id s).1)
      | inr live ↦ rw (h, live) (check_pin-Serves id pin meta (store.meta id s).1)
    ]
    | inr (e, h) ↦ rw h refl
  ]

  allocate-Serves :
      (n k : ℕ) (message : Text → Text → NewMessage) (expires blob : Text) (s : S)
      → Serves (allocate parts r n k message expires blob s).0
  unfolding allocate
  allocate-Serves zero k message expires blob s = refl
  allocate-Serves (suc n) k message expires blob s = elim (Result-cases (r.next_id k)) [
    | inr (e, h) ↦ rw (h, allocate) refl
    | inl (id, h) ↦ elim (Result-cases (store.insert (message id blob) r.now s).0) [
      | inl (b, g) ↦ rw (h, allocate, g) tt
      | inr (id_taken b, g) ↦ rw (h, allocate, g) (allocate-Serves n (k + 1) message expires b _)
      | inr (full, g) ↦ rw (h, allocate, g) refl
      | inr (storage, g) ↦ rw (h, allocate, g) refl
    ]
  ]

  -- Served, or the store left as it was.
  abbrev IsKept : {A : Type 0} → S → Result A ApiError × S → Type 0
  IsKept s out = Serves out.0 ⊎ (out.1 ≡ s)

  service_create-IsKept :
      (blob pin ttl : Text) (s : S) → IsKept s (Service.create parts r blob pin ttl s)
  unfolding Service.create
  service_create-IsKept blob pin ttl s = elim (Result-cases (prepare parts r blob pin ttl)) [
    | inr (e, h) ↦ rw (h, Service.create) (inr refl)
    | inl (ready, h) ↦
        rw (h, Service.create)
          (inl (
            allocate-Serves max_id_attempts 0
              (message_of parts r ready.pin_salt ready.pin_verifier ready.expires_at) ready.expires
              blob s))
  ]

  service_retrieve-IsKept : (id pin : Text) (s : S) → IsKept s (Retrieval.retrieve parts r id pin s)
  unfolding Retrieval.retrieve
  service_retrieve-IsKept id pin s = elim (Bool-cases (is_valid_pin pin)) [
    | inr bad ↦ rw bad (inr refl)
    | inl valid ↦ elim (Bool-cases (nat_eq r.slots 0)) [
      | inl busy ↦ rw (valid, busy) (inr refl)
      | inr free ↦ rw (valid, free) (inl (retrieve_now-Serves id pin s))
    ]
  ]

  create-IsKept : (uploads : ℕ) (form : Form) (s : S) → IsKept s (Api.create parts r uploads form s)
  unfolding Api.create
  create-IsKept uploads form s = elim (Result-cases (read_form uploads form)) [
    | inr (e, h) ↦ rw (h, Api.create) (inr refl)
    | inl ((blob, pin, ttl), h) ↦ rw (h, Api.create) (service_create-IsKept blob pin ttl s)
  ]

  retrieve-IsKept :
      (id : Text) (header : Option Text) (s : S) → IsKept s (Api.retrieve parts r id header s)
  unfolding Api.retrieve
  retrieve-IsKept id none s = inr refl
  retrieve-IsKept id (some pin) s = service_retrieve-IsKept id pin s

module _ {S A : Type 0} ⦃e : Eq A⦄ (net : Network A) (parts : Parts S) where
  turned_away_kept :
      {B : Type 0} (f : B → Response) (out : Result B ApiError × S) (s : S)
      → ((b : B) → turns_away (f b) ≡ false)
      → (Serves out.0 ⊎ (out.1 ≡ s))
      → turns_away (respond f out.0) ≡ true
      → out.1 ≡ s
  turned_away_kept f (ok b, s') s serves (inl h) away = ground (arith, serves b)
  turned_away_kept f (err x, s') s serves (inl h) away = ground arith
  turned_away_kept f out s serves (inr h) away = h

  rate_limit-kept :
      (bucket : Bucket) (q : Request A) (next : S → Response × S) (app : App S A)
      → ((s : S) → turns_away (next s).0 ≡ true → (next s).1 ≡ s)
      → turns_away (rate_limit net bucket q next app).0 ≡ true
      → (rate_limit net bucket q next app).1.store ≡ app.store
  unfolding rate_limit
  rate_limit-kept bucket q next app kept away =
      elim (Bool-cases (allow net.limits bucket (client net q) q.instant app.limiter).0) [
        | inl t ↦ ground (arith, t, kept app.store)
        | inr t ↦ ground (arith, t)
      ]

  -- On any message store, a request that is answered with 400, 405, 413, 415 or 429 leaves every
  -- stored message as it was, its count of failed attempts too.
  pub handle-turned_away :
      (q : Request A) (app : App S A)
      → turns_away (handle net parts q app).0 ≡ true
      → (handle net parts q app).1.store ≡ app.store
  unfolding handle
  handle-turned_away q app away = routed q.endpoint q.method away
    where
      routed :
          (endpoint : Endpoint) (method : Method)
          → turns_away (route net parts q endpoint method app).0 ≡ true
          → (route net parts q endpoint method app).1.store ≡ app.store
      routed (messages form) post h =
          rate_limit-kept Bucket.create q _ app
            (λ s.
              turned_away_kept created (Api.create parts q.readings q.uploads form s) s (λ _. refl)
                (create-IsKept parts q.readings q.uploads form s))
            h
      routed (retrieval id header) get h =
          rate_limit-kept Bucket.retrieve q _ app
            (λ s.
              turned_away_kept delivered (Api.retrieve parts q.readings id header s) s (λ _. refl)
                (retrieve-IsKept parts q.readings id header s))
            h
      routed (messages form) get h = refl
      routed (messages form) head h = refl
      routed (messages form) another h = refl
      routed (retrieval id header) head h = refl
      routed (retrieval id header) post h = refl
      routed (retrieval id header) another h = refl
