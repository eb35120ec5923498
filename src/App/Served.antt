-- ===== src/App/Served.antt =====
-- How a request through app/main.py ends, and what the log says of it.
use booking_api_service.Common.{
  ℕ, ◌≤◌, ◌<◌, ltb, leb, ◌≡◌, refl, inl, inr, ◌⊎◌, String, Bool, true, false, List, [], ◌∷◌, ◌++◌,
  contains, arith, lt→ltb, Bool-cases,
}
use booking_api_service.Exceptions.{
  Error, Result, ok, err, status_code, booking_conflict, booking_not_found, hall_not_found,
  seat_not_found, seat_already_exists, user_not_found, invalid_time_slot, unauthorized, forbidden,
  http, validation_error, value_error, runtime_error, key_error, integrity_error, database_error,
  kafka_error,
}
use booking_api_service.Settings.{Settings}
use booking_api_service.Sorting.{Sorting}
use booking_api_service.Redis.{Redis}
use booking_api_service.Auth.{Crypto}
use booking_api_service.Booking.Create.{World}
use booking_api_service.Api.{
  Outside, PublicRoute, Route, signup, login, get_current_user_profile, Content, public_request,
  user_request, needs_admin, answer,
}
use booking_api_service.Api
use booking_api_service.Api.Table.Mounting.{decorator_of, public_decorator, route_decorator}
use booking_api_service.Api.Table.Shapes.{error_statuses, own_statuses}
use booking_api_service.Api.Table.Declared.{answer-error_statuses}
use booking_api_service.App.{
  Response, handle, Request, Line, incoming, answered, measured, Returned, responded, escaped,
  log_requests,
}
use booking_api_service.App.Serve.{is_plain, Fastapi, handled, call_next, serve_http}

module _ (F : Fastapi) where
  handled_cases :
      (e : Error)
      → ((r : Response) × (handled F e ≡ responded r) × (r.status_code ≡ status_code e))
        ⊎ ((handled F e ≡ escaped e) × (is_plain e ≡ true) × (status_code e ≡ 500))
  unfolding handled handle status_code
  handled_cases (booking_conflict d) = inl (_, refl, refl)
  handled_cases (booking_not_found d) = inl (_, refl, refl)
  handled_cases (hall_not_found d) = inl (_, refl, refl)
  handled_cases (seat_not_found d) = inl (_, refl, refl)
  handled_cases (seat_already_exists d) = inl (_, refl, refl)
  handled_cases (user_not_found d) = inl (_, refl, refl)
  handled_cases (invalid_time_slot d) = inl (_, refl, refl)
  handled_cases (unauthorized d) = inl (_, refl, refl)
  handled_cases (forbidden d) = inl (_, refl, refl)
  handled_cases (http code d) = let (r, e, s) = F.handlers-http code d in inl (r, rw e refl, s)
  handled_cases validation_error =
      let (r, e, s) = F.handlers-validation_error in inl (r, rw e refl, s)
  handled_cases (value_error d) = inr (rw (F.handlers_plain (value_error d) refl) refl, refl, refl)
  handled_cases (runtime_error d) =
      inr (rw (F.handlers_plain (runtime_error d) refl) refl, refl, refl)
  handled_cases key_error = inr (rw (F.handlers_plain key_error refl) refl, refl, refl)
  handled_cases integrity_error = inr (rw (F.handlers_plain integrity_error refl) refl, refl, refl)
  handled_cases database_error = inr (rw (F.handlers_plain database_error refl) refl, refl, refl)
  handled_cases kafka_error = inr (rw (F.handlers_plain kafka_error refl) refl, refl, refl)

public_status_lt : (route : PublicRoute) → (public_decorator route).status_code < 400
public_status_lt (signup rq) = omega arith
public_status_lt (login rq) = omega arith

route_status_lt : (route : Route) → (route_decorator route).status_code < 400
route_status_lt get_current_user_profile = omega arith
route_status_lt _ = omega arith

status_lt : (request : Api.Request) → (decorator_of request).status_code < 400
status_lt (public_request route) = public_status_lt route
status_lt (user_request authorization route) = route_status_lt route

own_status_le : (route : Route) (n : ℕ) → contains n (own_statuses route) ≡ true → 400 ≤ n
own_status_le get_current_user_profile n h = ground arith
own_status_le _ n h = ground arith

error_status_le :
    (request : Api.Request) (n : ℕ) → contains n (error_statuses request) ≡ true → 400 ≤ n
error_status_le (public_request route) n h = ground arith
error_status_le (user_request authorization route) n h = elim (Bool-cases (needs_admin route)) [
  | inl a ↦ let k = rw a at h in ground (arith, own_status_le route n)
  | inr a ↦ let k = rw a at h in ground (arith, own_status_le route n)
]

module _ (level start_time end_time : ℕ) (line : Request) (request : Api.Request)
    (log : List Line) where
  abbrev pub after_incoming : List Line
  after_incoming = log ++ incoming line.method line.path ∷ []

  -- The log with the second line, which has the text for the status.
  abbrev pub after_answered : ℕ → String → List Line
  after_answered status text =
      after_incoming
      ++ answered line.method line.path status text (measured (leb level 10) start_time end_time)
        ∷ []

  -- How a request ends: with the status of its decorator; with the status of an error; or with an
  -- exception that leaves the middleware with no second line.
  pub data IsServed (r : Result Content) (returned : Returned) (log' : List Line) : Type 0 where
    succeeds :
        (c : Content) (response : Response)
        → r ≡ ok c
        → returned ≡ responded response
        → response.status_code ≡ (decorator_of request).status_code
        → response.status_code < 400
        → log' ≡ after_answered response.status_code "OK"
        → IsServed r returned log'
    refuses :
        (e : Error) (response : Response)
        → r ≡ err e
        → returned ≡ responded response
        → response.status_code ≡ status_code e
        → 400 ≤ response.status_code
        → log' ≡ after_answered response.status_code "ERROR"
        → IsServed r returned log'
    crashes :
        (e : Error)
        → r ≡ err e
        → returned ≡ escaped e
        → is_plain e ≡ true
        → status_code e ≡ 500
        → log' ≡ after_incoming
        → IsServed r returned log'

  module _ (F : Fastapi) (settings : Settings) (S : Sorting) (C : Crypto)
      (valid_email : String → Bool) (O : Outside) {R : Redis} (w : World R) where
    served :
        (r : Result Content)
        → ((e : Error) → r ≡ err e → contains (status_code e) (error_statuses request) ≡ true)
        → let (returned, log') =
            log_requests level start_time end_time line (call_next F request r) log in
          IsServed r returned log'
    unfolding call_next log_requests
    served (ok c) may =
        let low = status_lt request in
        let fine : ltb (decorator_of request).status_code 400 ≡ true = lt→ltb _ _ low in
        rw fine (succeeds c _ refl refl refl low refl)
    served (err e) may = elim (handled_cases F e) [
      | inl (response, h, q) ↦
          let allowed : contains response.status_code (error_statuses request) ≡ true =
            rw q (may e refl) in
          let high = error_status_le request response.status_code allowed in
          let bad : ltb response.status_code 400 ≡ false = ground arith in
          rw h (rw bad (refuses e response refl refl q high refl))
      | inr (h, plain, q) ↦ rw h (crashes e refl refl plain q refl)
    ]

    -- However a request ends, the middleware has logged it first. If it is answered with no error, the
    -- status is that of its decorator, below 400, and is logged as "OK". If an error is raised that a
    -- handler takes, the status is that of the error, 400 or more, and is logged as "ERROR". Any other
    -- exception, for which the status would be 500, escapes through the middleware, which logs nothing
    -- more.
    pub serve_http-IsServed :
        let ((returned, log'), w') =
          serve_http F settings S C valid_email O level start_time end_time line request w log in
        IsServed (answer settings S C valid_email O request w).0 returned log'
    unfolding serve_http
    serve_http-IsServed =
        served (answer settings S C valid_email O request w).0
          (λ e h. answer-error_statuses settings S C valid_email O request w e h)
