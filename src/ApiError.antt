-- ===== src/ApiError.antt =====
-- crates/pinveil-server/src/error.rs: the errors that the API returns on purpose.
use pinveil.Base.{ℕ, Text, codes}

pub data ApiError : Type 0 where
  bad_request : Text → ApiError
  invalid_pin wrong_pin unavailable not_found payload_too_large unsupported_media_type : ApiError
  rate_limited : ApiError
  service_unavailable : Text → ApiError
  internal : ApiError

unfoldable pub status : ApiError → ℕ
status (bad_request _) = 400
status invalid_pin = 400
status wrong_pin = 403
status unavailable = 404
status not_found = 404
status payload_too_large = 413
status unsupported_media_type = 415
status rate_limited = 429
status (service_unavailable _) = 503
status internal = 500

unfoldable pub message : ApiError → Text
message (bad_request m) = m
message (service_unavailable m) = m
message invalid_pin = codes "Invalid PIN format"
message wrong_pin = codes "Unable to retrieve message"
message unavailable = codes "Message unavailable"
message not_found = codes "Not found"
message payload_too_large = codes "Payload too large"
message unsupported_media_type = codes "Unsupported media type"
message rate_limited = codes "Rate limit exceeded"
message internal = codes "Internal error"
