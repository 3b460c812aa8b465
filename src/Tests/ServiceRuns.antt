-- ===== src/Tests/ServiceRuns.antt =====
-- Runs of the service on the memory store.
use pinveil.Base.{
  ℕ, ◌≡◌, ◌≢◌, ◌⊎◌, refl, Text, [], ◌∷◌, some, Result, ok, err, arith, codes, text_eq, text_eq_refl,
}
use pinveil.Base.Dict
use pinveil.ApiError.{ApiError, unavailable}
use pinveil.Pin.{PinVerifier, Argon2}
use pinveil.Store.Memory
use pinveil.Store.Memory.{Caps, Entry, Inner, empty, memory_store}
use pinveil.Store.Memory.Lookup.{row}
use pinveil.Store.Memory.Invariant.{Inv, empty-Inv}
use pinveil.Service.{Parts, Readings, Created, Ready, create, message_of, parse_u64}
use pinveil.Service.RowLife.{on_memory, expected, retrieve_now-row}
use pinveil.Service.OneReader.{retrieve-create}
use pinveil.Service.Retrieval.{retrieve, retrieve_now}
use pinveil.Service.Creation.{IsReady, Allocated, create-Allocated}
use pinveil.Service.Lifecycle.{
  Guess, retrieve_at, guess_all, read_after_guesses, burned_after_guesses,
}

abbrev pub caps : Caps
caps = record { max_messages = 2; max_bytes = 100 }

-- A verifier that keeps the PIN as it is.
abbrev pub plain_verifier : PinVerifier
plain_verifier = record {
  hash = λ pin salt. pin;
  verify = λ pin salt verifier. text_eq pin verifier;
}

abbrev pub service : Parts Inner
service = record {
  store = memory_store caps;
  verifier = plain_verifier;
  policy = record {
    min_ttl = 1_000_000_000;
    max_ttl = 60_000_000_000;
    max_payload_bytes = 50;
    max_failed_attempts = 2;
  };
  max_waiting = 4;
  max_time = 100_000_000_000_000;
  rfc3339 = λ t. some (codes "soon");
  encode = λ bytes. bytes;
}

abbrev pub at : ℕ → Readings
at now = record {
  now = now;
  entropy = 1 ∷ 2 ∷ 3 ∷ 4 ∷ 5 ∷ 6 ∷ 7 ∷ 8 ∷ 9 ∷ 10 ∷ 11 ∷ 12 ∷ 13 ∷ 14 ∷ 15 ∷ 16 ∷ [];
  ahead = 0;
  slots = 1;
  next_id = λ k. ok (codes "a");
}

abbrev pub right_pin : Text
right_pin = codes "123456"

abbrev pub wrong_pin : Text
wrong_pin = codes "654321"

abbrev pub blob : Text
blob = 7 ∷ 8 ∷ []

abbrev posted : Result Created ApiError × Inner
posted = create (on_memory caps service) (at 0) blob right_pin (codes "30") empty

retrieve-create_example :
    let first = retrieve (on_memory caps service) (at 5) (codes "a") right_pin posted.1 in
    (first.0 ≡ ok blob)
    × ((retrieve (on_memory caps service) (at 6) (codes "a") right_pin first.1).0 ≢ ok blob)
unfolding create parse_u64 Memory.insert Dict.get Dict.insert Dict.remove text_eq
retrieve-create_example =
    retrieve-create caps service (at 0) blob right_pin (codes "30") empty (omega arith)
      (omega arith) (empty-Inv caps) (record { id = codes "a"; expires_at = codes "soon" }) 30
      (at 5) (at 6) right_pin blob (λ pin salt. text_eq_refl pin) refl refl (omega arith)
      (omega arith) (omega arith)

abbrev pub entry : Entry
entry = record {
  blob = blob;
  meta = record {
    generation = 1;
    pin_salt = 1 ∷ 2 ∷ 3 ∷ 4 ∷ 5 ∷ 6 ∷ 7 ∷ 8 ∷ 9 ∷ 10 ∷ 11 ∷ 12 ∷ 13 ∷ 14 ∷ 15 ∷ 16 ∷ [];
    pin_verifier = right_pin;
    expires_at = 30_000_000_000;
    failed_attempts = 0;
  };
  protocol_version = 2;
}

abbrev pub one_row : Inner
one_row = record { messages = (codes "a", entry) ∷ []; bytes = 2; next_generation = 1 }

wrong-Guess : Guess service entry (at 7, wrong_pin)
unfolding text_eq
wrong-Guess = record {
  reaches = record { fresh = omega arith; admitted = omega arith };
  wrong = refl;
}

burned_after_guesses_example :
    (retrieve_at caps service
      (codes "a")
      (at 9)
      right_pin
      (guess_all caps service (codes "a") ((at 7, wrong_pin) ∷ (at 8, wrong_pin) ∷ []) one_row)).0
    ≡ err unavailable
unfolding Dict.get text_eq
burned_after_guesses_example =
    burned_after_guesses caps service (codes "a") ((at 7, wrong_pin) ∷ (at 8, wrong_pin) ∷ [])
      (at 9) right_pin one_row entry refl
      (
        wrong-Guess,
        (
          record { reaches = record { fresh = omega arith; admitted = omega arith }; wrong = refl },
          tt,
        ),
      )
      (omega arith) (omega arith) (omega arith)

read_after_guesses_example :
    let after =
      retrieve_at caps service
        (codes "a")
        (at 9)
        right_pin
        (guess_all caps service (codes "a") ((at 7, wrong_pin) ∷ []) one_row) in
    (after.0 ≡ ok blob)
    × ((retrieve_at caps service (codes "a") (at 10) right_pin after.1).0 ≡ err unavailable)
unfolding Dict.get text_eq
read_after_guesses_example =
    read_after_guesses caps service (codes "a") ((at 7, wrong_pin) ∷ []) (at 9) (at 10) right_pin
      right_pin one_row entry refl (wrong-Guess, tt) (omega arith) (omega arith)
      (record { fresh = omega arith; admitted = omega arith }) refl

retrieve_now-row_example :
    let out = retrieve_now (on_memory caps service) (at 7) (codes "a") wrong_pin one_row in
    (out.0 ≡ (expected service (at 7) wrong_pin (row (codes "a") one_row)).0)
    × (row (codes "a") out.1 ≡ (expected service (at 7) wrong_pin (row (codes "a") one_row)).1)
retrieve_now-row_example = retrieve_now-row caps service (at 7) (codes "a") wrong_pin one_row

one_row-Inv : Inv caps one_row
unfolding Dict.get
one_row-Inv = record {
  distinct = (refl, tt);
  total = refl;
  few = omega arith;
  within = omega arith;
  handed_out = (omega arith, tt);
}

create-Allocated_example :
    let out = create (on_memory caps service) (at 0) blob right_pin (codes "30") one_row in
    ((e : ApiError) × (out ≡ (err e, one_row)))
    ⊎ ((ready : Ready) × IsReady service (at 0) blob right_pin (codes "30") ready
        × Allocated 0
            (λ id.
              message_of
                (on_memory caps service)
                (at 0)
                ready.pin_salt
                ready.pin_verifier
                ready.expires_at
                id
                blob)
            ready.expires
            one_row
            out)
create-Allocated_example =
    create-Allocated caps service (at 0) blob right_pin (codes "30") one_row (omega arith)
      (omega arith) one_row-Inv

-- A stand-in for the Argon2 crate: the PHC string is the input itself.
abbrev echo : Argon2
echo = record {
  Phc = Text;
  hash_password = λ input salt. input;
  parse_phc = λ phc. some phc;
  verify_password = λ input phc. text_eq input phc;
}
