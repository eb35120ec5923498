-- ===== src/App/Serve.antt =====
-- A request on its way through app/main.py: the logging middleware, the endpoint with what stands
-- around it, and the handlers of what it raises.
use booking_api_service.Common.{ℕ, ◌≡◌, String, Option, some, none, Bool, true, false, List}
use booking_api_service.Exceptions.{
  Error, Detail, Result, ok, err, http, validation_error, value_error, runtime_error, key_error,
  integrity_error, database_error, kafka_error,
}
use booking_api_service.Settings.{Settings}
use booking_api_service.Sorting.{Sorting}
use booking_api_service.Redis.{Redis}
use booking_api_service.Auth.{Crypto}
use booking_api_service.Booking.Create.{World}
use booking_api_service.Api.{
  Outside, PublicRoute, Route, signup, login, get_current_user_profile, Content, public_request,
  user_request, needs_admin, answer,
}
use booking_api_service.Api
use booking_api_service.Api.Table.Mounting.{decorator_of}
use booking_api_service.App.{
  Response, exception, handle, Request, Line, Returned, responded, escaped, log_requests,
}

-- The exceptions that are no `HTTPException` and no error of validation.
abbrev pub is_plain : Error → Bool
is_plain (value_error _) = true
is_plain (runtime_error _) = true
is_plain key_error = true
is_plain integrity_error = true
is_plain database_error = true
is_plain kafka_error = true
is_plain _ = false

-- What the application relies on of FastAPI: its own handlers answer an `HTTPException` with its status
-- and an error of validation with 422, and take nothing else.
pub record Fastapi : Type 0 where
  pub handlers : Error → Option Response
  pub handlers-http :
      (code : ℕ) (d : Detail)
      → (r : Response) × (handlers (http code d) ≡ some r) × (r.status_code ≡ code)
  pub handlers-validation_error :
      (r : Response) × (handlers validation_error ≡ some r) × (r.status_code ≡ 422)
  pub handlers_plain : (e : Error) → is_plain e ≡ true → handlers e ≡ none

abbrev pub or_escape : Option Response → Error → Returned
or_escape none e = escaped e
or_escape (some r) e = responded r

abbrev pub or_default : Option Response → Option Response → Option Response
or_default none own = own
or_default (some r) own = some r

module _ (F : Fastapi) where
  -- The registered handlers come first.
  unfoldable pub handled : Error → Returned
  handled e = or_escape (or_default (handle (exception e)) (F.handlers e)) e

  -- What `call_next` does with a request: the status of a normal answer is that of the decorator.
  unfoldable pub call_next : Api.Request → Result Content → Returned
  unfolding handled
  call_next request (ok body) =
      responded (record { status_code = (decorator_of request).status_code; detail = none })
  call_next request (err e) = handled e

  -- The request as a whole.
  unfoldable pub serve_http :
      (settings : Settings) (S : Sorting) (C : Crypto) (valid_email : String → Bool) (O : Outside)
      {R : Redis}
      → (level start_time end_time : ℕ) → Request
      → Api.Request
      → World R
      → List Line
      → (Returned × List Line) × World R
  unfolding call_next
  serve_http settings S C valid_email O level start_time end_time line request w log =
      let (r, w') = answer settings S C valid_email O request w in
      (log_requests level start_time end_time line (call_next request r) log, w')
