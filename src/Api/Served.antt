-- ===== src/Api/Served.antt =====
-- crates/pinveil-server/src/api.rs, crates/pinveil-server/src/ratelimit.rs: how many requests of one
-- client reach the message service in one window.
use pinveil.Base.{ℕ, suc, ◌≡◌, false, Option, none, some, List, [], ◌∷◌, Eq}
use pinveil.Base.Dict
use pinveil.ApiError.{rate_limited}
use pinveil.RateLimit.{Bucket, key_equality, key_eq}
use pinveil.Service.{Parts}
use pinveil.Api
use pinveil.Api.{
  Form, refused, method_not_allowed, App, Network, Request, Endpoint, messages, retrieval, Method,
  get, post, client, handle,
}

-- The bucket that counts a request, if one does.
abbrev pub counted_in : Endpoint → Method → Option Bucket
counted_in (messages form) post = some Bucket.create
counted_in (retrieval id header) get = some Bucket.retrieve
counted_in _ _ = none

module _ {S A : Type 0} ⦃e : Eq A⦄ (net : Network A) (parts : Parts S) where
  abbrev charge_of : Option Bucket → Request A → List (Bucket × A × ℕ) → List (Bucket × A × ℕ)
  charge_of none q rest = rest
  charge_of (some b) q rest = (b, client net q, q.instant) ∷ rest

  -- What the limiter is asked in a run.
  abbrev pub charges : List (Request A) → List (Bucket × A × ℕ)
  charges [] = []
  charges (q ∷ qs) = charge_of (counted_in q.endpoint q.method) q (charges qs)

  -- A run of the API that lets `n` requests of a key in. A request of the key that is not let in is
  -- answered 429, and one that no bucket counts 405, both with the store as it was.
  pub data LetIn (k : Bucket × A) : ℕ → List (Request A) → App S A → Type 0 where
    at_end : (app : App S A) → LetIn k 0 [] app
    uncounted :
        (n : ℕ) (q : Request A) (qs : List (Request A)) (app : App S A)
        → counted_in q.endpoint q.method ≡ none
        → handle net parts q app ≡ (method_not_allowed, app)
        → LetIn k n qs app
        → LetIn k n (q ∷ qs) app
    of_another :
        (n : ℕ) (b : Bucket) (q : Request A) (qs : List (Request A)) (app : App S A)
        → counted_in q.endpoint q.method ≡ some b
        → key_eq (b, client net q) k ≡ false
        → LetIn k n qs (handle net parts q app).1
        → LetIn k n (q ∷ qs) app
    turned_away :
        (n : ℕ) (q : Request A) (qs : List (Request A)) (app next : App S A)
        → handle net parts q app ≡ (refused rate_limited, next)
        → next.store ≡ app.store
        → LetIn k n qs next
        → LetIn k n (q ∷ qs) app
    let_in :
        (n : ℕ) (q : Request A) (qs : List (Request A)) (app : App S A)
        → LetIn k n qs (handle net parts q app).1
        → LetIn k (suc n) (q ∷ qs) app
