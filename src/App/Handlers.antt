-- ===== src/App/Handlers.antt =====
-- What the handlers of app/main.py answer, and what the middleware makes of it.
use booking_api_service.Common.{
  ℕ, ◌≤◌, ◌<◌, ltb, ◌≡◌, refl, some, false, List, [], ◌∷◌, ◌++◌, leb, arith,
}
use booking_api_service.Exceptions.{
  status_code, booking_conflict, booking_not_found, hall_not_found, seat_not_found,
  seat_already_exists, user_not_found, invalid_time_slot, unauthorized, forbidden, http,
  validation_error, value_error, runtime_error, key_error, integrity_error, database_error,
  kafka_error,
}
use booking_api_service.App.{
  Response, Raised, exception, rate_limit_exceeded, handle, Request, Line, incoming, answered,
  measured, responded, log_requests,
}

is_client_error :
    (raised : Raised) (r : Response)
    → handle raised ≡ some r
    → (400 ≤ r.status_code) × (r.status_code < 500)
unfolding handle status_code
is_client_error (exception (booking_conflict d)) r h = ground arith
is_client_error (exception (booking_not_found d)) r h = ground arith
is_client_error (exception (hall_not_found d)) r h = ground arith
is_client_error (exception (seat_not_found d)) r h = ground arith
is_client_error (exception (seat_already_exists d)) r h = ground arith
is_client_error (exception (user_not_found d)) r h = ground arith
is_client_error (exception (invalid_time_slot d)) r h = ground arith
is_client_error (exception (unauthorized d)) r h = ground arith
is_client_error (exception (forbidden d)) r h = ground arith
is_client_error (exception (value_error d)) r h = ground arith
is_client_error (exception (runtime_error d)) r h = ground arith
is_client_error (exception (http n d)) r h = ground arith
is_client_error (exception validation_error) r h = ground arith
is_client_error (exception key_error) r h = ground arith
is_client_error (exception integrity_error) r h = ground arith
is_client_error (exception database_error) r h = ground arith
is_client_error (exception kafka_error) r h = ground arith
is_client_error rate_limit_exceeded r h = ground arith

-- What a registered handler answers is a client error, never a success or an error of the server; the
-- middleware passes it on unchanged, and logs the request and after it the answer, as "ERROR".
pub log_requests-handle :
    (raised : Raised) (r : Response)
    → handle raised ≡ some r
    → (level start_time end_time : ℕ) (request : Request) (log : List Line)
    → (400 ≤ r.status_code)
      × (r.status_code < 500)
      × (log_requests level start_time end_time request (responded r) log ≡ (
        responded r,
        (log ++ incoming request.method request.path ∷ [])
            ++ answered request.method request.path r.status_code "ERROR"
                (measured (leb level 10) start_time end_time)
              ∷ [],
      ))
unfolding log_requests
log_requests-handle raised r h level start_time end_time request log =
    let (low, high) = is_client_error raised r h in
    let bad : ltb r.status_code 400 ≡ false = ground arith in (low, high, rw bad refl)
