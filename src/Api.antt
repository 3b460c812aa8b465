-- ===== src/Api.antt =====
-- crates/pinveil-server/src/api.rs: the message API. What axum reads of a request is a record: the
-- headers as `to_str` gives them, the fields of a multipart body with their contents, and whether
-- the body is over the route's limit.
pub mod Forms
pub mod Unserved
pub mod Served
use pinveil.Base.{
  ℕ, ◌*◌, Text, Bool, true, false, not, Option, none, some, Result, ok, err, ok_or, ◌>>=◌, ◌>>◌,
  refuse_if, List, [], ◌∷◌, nat_eq, codes, if◌then◌else◌, text_eq, Eq,
}
use pinveil.Base.Actions
use pinveil.Base.Actions.{Action, lift}
use pinveil.Base.Strings.{to_ascii_lowercase, starts_with}
use pinveil.ApiError.{
  ApiError, bad_request, invalid_pin, payload_too_large, unsupported_media_type, rate_limited,
  service_unavailable,
}
use pinveil.RateLimit
use pinveil.RateLimit.{Bucket, Inner, Limits, allow}
use pinveil.RateLimit.Address.{client_address}
use pinveil.Service
use pinveil.Service.{Parts, Readings, Created}
use pinveil.Service.Retrieval

-- Why a body or a field of it cannot be read: `PAYLOAD_TOO_LARGE`, or anything else.
pub data Failure : Type 0 where
  too_large broken : Failure

-- One field of the form: `bytes()` and `text()` read its content.
pub record Part : Type 0 where
  pub name : Option Text
  pub bytes : Result Text Failure
  pub text : Result Text Failure

-- The answers of `next_field`, up to its `None`.
pub data Field : Type 0 where
  part : Part → Field
  unreadable : Failure → Field

pub record Form : Type 0 where
  pub content_type : Option Text
  pub whole : Result (Unit {0}) Failure
  pub multipart : Bool
  pub fields : List Field

-- The local variables of `create` in the loop over the fields.
pub record Slots : Type 0 where
  pub blob : Option Text
  pub pin : Option Text
  pub ttl : Option Text
  pub problem : Option Text

abbrev pub no_slots : Slots
no_slots = record { blob = none; pin = none; ttl = none; problem = none }

abbrev pub sent_twice : Text
sent_twice = codes "A part was sent twice"

abbrev pub unexpected_part : Text
unexpected_part = codes "Unexpected part; expected blob, pin, and ttl"

unfoldable pub multipart_error : Failure → ApiError
multipart_error too_large = payload_too_large
multipart_error broken = bad_request (codes "Malformed multipart body")

-- `.await.map_err(multipart_error)?`
abbrev pub read {ℓ} : {A : Type ℓ} → Result A Failure → Result A ApiError
read (ok a) = ok a
read (err f) = err (multipart_error f)

abbrev pub get_or_insert : Option Text → Text → Option Text
get_or_insert none t = some t
get_or_insert (some p) t = some p

-- `slot_taken`: whether `replace` displaced a value, and what becomes of the problem.
abbrev pub note_taken : Option Text → Option Text → Option Text
note_taken none problem = problem
note_taken (some _) problem = get_or_insert problem sent_twice

pub data PartName : Type 0 where
  blob_part pin_part ttl_part other_part : PartName

unfoldable pub part_name : Option Text → PartName
part_name none = other_part
part_name (some n) =
    if text_eq n (codes "blob")
    then blob_part
    else if text_eq n (codes "pin")
    then pin_part
    else if text_eq n (codes "ttl")
    then ttl_part
    else other_part

unfoldable pub fill_slot : PartName → Part → Slots → Result Slots ApiError
unfolding multipart_error
fill_slot blob_part p s = do
  value ← read p.bytes
  ok (record s { blob = some value; problem = note_taken s.blob s.problem })
fill_slot pin_part p s = do
  value ← read p.text
  ok (record s { pin = some value; problem = note_taken s.pin s.problem })
fill_slot ttl_part p s = do
  value ← read p.text
  ok (record s { ttl = some value; problem = note_taken s.ttl s.problem })
fill_slot other_part p s = do
  value ← read p.bytes
  ok (record s { problem = get_or_insert s.problem unexpected_part })

unfoldable pub read_fields : List Field → Slots → Result Slots ApiError
unfolding fill_slot part_name multipart_error
read_fields [] s = ok s
read_fields (unreadable f ∷ rest) s = err (multipart_error f)
read_fields (part p ∷ rest) s = do s' ← fill_slot (part_name p.name) p s; read_fields rest s'

unfoldable pub whole_form :
    Option Text → Option Text → Option Text → Result (Text × Text × Text) ApiError
whole_form (some b) (some p) (some t) = ok (b, p, t)
whole_form _ _ _ = err (bad_request (codes "Missing part; expected blob, pin, and ttl"))

unfoldable pub settled : Slots → Result (Text × Text × Text) ApiError
unfolding whole_form
settled s = elim s.problem [
  | some problem ↦ err (bad_request problem)
  | none ↦ whole_form s.blob s.pin s.ttl
]

-- The body of a request that is not a form is read before it is refused.
unfoldable pub not_a_form : Result (Unit {0}) Failure → ApiError
not_a_form (ok _) = unsupported_media_type
not_a_form (err too_large) = payload_too_large
not_a_form (err broken) = bad_request (codes "Could not read the request body")

unfoldable pub is_multipart : Option Text → Bool
unfolding to_ascii_lowercase starts_with
is_multipart none = false
is_multipart (some v) = starts_with (codes "multipart/form-data") (to_ascii_lowercase v)

-- Everything before the service, with the number of free upload slots.
unfoldable pub read_form : ℕ → Form → Result (Text × Text × Text) ApiError
unfolding is_multipart not_a_form read_fields settled
read_form uploads form = do
  refuse_if (nat_eq uploads 0)
      (service_unavailable (codes "Too many uploads in progress, try again shortly"))
  refuse_if (not (is_multipart form.content_type)) (not_a_form form.whole)
  refuse_if (not form.multipart) (bad_request (codes "Malformed multipart body"))
  s ← read_fields form.fields no_slots
  settled s

pub data Response : Type 0 where
  created : Created → Response
  delivered : Text → Response
  refused : ApiError → Response
  method_not_allowed : Response

abbrev pub respond {ℓ} : {A : Type ℓ} → (A → Response) → Result A ApiError → Response
respond f (ok a) = f a
respond f (err e) = refused e

module _ {S : Type 0} (parts : Parts S) (r : Readings) where
  unfoldable pub create : ℕ → Form → Action S ApiError Created
  unfolding read_form Service.create
  create uploads form s = elim (read_form uploads form) [
    | err e ↦ (err e, s)
    | ok (blob, pin, ttl) ↦ Service.create parts r blob pin ttl s
  ]

  -- A missing PIN header, or one that is not visible ASCII.
  unfoldable pub retrieve : Text → Option Text → Action S ApiError Text
  unfolding Retrieval.retrieve
  retrieve id none s = (err invalid_pin, s)
  retrieve id (some pin) s = Retrieval.retrieve parts r id pin s

-- `AppState`, by what requests change.
pub record App (S A : Type 0) : Type 0 where
  pub store : S
  pub limiter : Inner A

-- `HeaderValue::to_str` of each value of the header.
unfoldable pub all_text : List (Option Text) → Option (List Text)
all_text [] = some []
all_text (none ∷ rest) = none
all_text (some v ∷ rest) = elim (all_text rest) [ none ↦ none | some vs ↦ some (v ∷ vs) ]

-- The fixed configuration of the limiter, and how addresses are read.
pub record Network (A : Type 0) : Type 0 where
  pub limits : Limits
  pub unspecified : A
  pub is_trusted : A → Bool
  pub parse : Text → Option A

pub data Method : Type 0 where
  get post head another : Method

pub data Endpoint : Type 0 where
  messages : Form → Endpoint
  retrieval : Text → Option Text → Endpoint

-- One request, with what the server reads while it answers.
pub record Request (A : Type 0) : Type 0 where
  pub method : Method
  pub endpoint : Endpoint
  pub peer : Option A
  pub forwarded_for : List (Option Text)
  pub instant : ℕ
  pub uploads : ℕ
  pub readings : Readings

module _ {A : Type 0} ⦃e : Eq A⦄ (net : Network A) where
  unfoldable pub peer_of : Option A → A
  peer_of none = net.unspecified
  peer_of (some ip) = ip

  unfoldable pub client_of : A → Option (List Text) → A
  unfolding client_address
  client_of peer none = peer
  client_of peer (some values) = client_address net.is_trusted net.parse peer values

  unfoldable pub client : Request A → A
  unfolding peer_of all_text client_of
  client q = client_of (peer_of q.peer) (all_text q.forwarded_for)

  module _ {S : Type 0} where
    -- `next.run(request)` on the message store.
    abbrev pub next_run : (S → Response × S) → Inner A → S → Response × App S A
    next_run next limiter s =
        let (answer, s') = next s in (answer, record { store = s'; limiter = limiter })

    unfoldable pub rate_limit :
        Bucket → Request A → (S → Response × S) → App S A → Response × App S A
    unfolding client allow
    rate_limit bucket q next app =
        let (allowed, limiter) = allow net.limits bucket (client q) q.instant app.limiter in
        if allowed
        then next_run next limiter app.store
        else (refused rate_limited, record app { limiter = limiter })

    -- `routes`: the limiter stands before the named method only, and HEAD on a retrieval is
    -- answered before it.
    unfoldable pub route : Parts S → Request A → Endpoint → Method → App S A → Response × App S A
    unfolding rate_limit create retrieve
    route parts q (messages form) post app =
        rate_limit Bucket.create q
          (λ s. let (r, s') = create parts q.readings q.uploads form s in (respond created r, s'))
          app
    route parts q (retrieval id header) get app =
        rate_limit Bucket.retrieve q
          (λ s. let (r, s') = retrieve parts q.readings id header s in (respond delivered r, s'))
          app
    route parts q (messages form) get app = (method_not_allowed, app)
    route parts q (messages form) head app = (method_not_allowed, app)
    route parts q (messages form) another app = (method_not_allowed, app)
    route parts q (retrieval id header) head app = (method_not_allowed, app)
    route parts q (retrieval id header) post app = (method_not_allowed, app)
    route parts q (retrieval id header) another app = (method_not_allowed, app)

    unfoldable pub handle : Parts S → Request A → App S A → Response × App S A
    unfolding route
    handle parts q app = route parts q q.endpoint q.method app
