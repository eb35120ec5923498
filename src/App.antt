-- ===== src/App.antt =====
-- app/main.py: the health check, the exception handlers and the middleware of the application. An
-- awaited call of a service is given as its duration and how it ends.
pub mod Healthy
pub mod Lifespan
pub mod Handlers
pub mod Serve
pub mod Served
use booking_api_service.Common.{
  ℕ, ◌-◌, leb, ltb, String, Option, none, some, List, [], ◌∷◌, ◌++◌, Bool, true, false, ◌&&◌,
  str_eq, if◌then◌else◌,
}
use booking_api_service.Exceptions.{
  Error, Detail, text, status_code, booking_conflict, booking_not_found, hall_not_found,
  seat_not_found, seat_already_exists, user_not_found, invalid_time_slot, unauthorized, forbidden,
}

-- How a call ends: with a value, with a `TimeoutError` of its own, or with another exception.
pub data Ending (A : Type 0) : Type 0 where
  returned : A → Ending A
  timeout_error other_exception : Ending A

-- The duration is in milliseconds.
pub record Awaited (A : Type 0) : Type 0 where
  pub duration : ℕ
  pub ending : Ending A

-- `HEALTH_TIMEOUT`
abbrev pub health_timeout : ℕ
health_timeout = 5000

-- `async with asyncio.timeout(HEALTH_TIMEOUT)`: a longer call is cancelled.
unfoldable pub within_timeout : {A : Type 0} → Awaited A → Ending A
within_timeout call = if leb call.duration health_timeout then call.ending else timeout_error

pub record Checks : Type 0 where
  pub database : String
  pub redis : String
  pub kafka : String

pub record Health : Type 0 where
  pub status : String
  pub checks : Checks

abbrev pub check_database : Ending (Unit {0}) → String
check_database (returned u) = "ok"
check_database timeout_error = "timeout"
check_database other_exception = "error"

-- A ping that answers false raises, inside the same `try`.
abbrev pub check_redis : Ending Bool → String
check_redis (returned true) = "ok"
check_redis (returned false) = "error"
check_redis timeout_error = "timeout"
check_redis other_exception = "error"

-- `kafka_producer.partitions_for`, where there is a producer: an exception counts as "ok".
abbrev pub check_kafka : Option (Ending (Unit {0})) → String
check_kafka none = "ok"
check_kafka (some (returned u)) = "ok"
check_kafka (some timeout_error) = "timeout"
check_kafka (some other_exception) = "ok"

unfoldable pub ended : {A : Type 0} → Option (Awaited A) → Option (Ending A)
unfolding within_timeout
ended none = none
ended (some call) = some (within_timeout call)

-- The route `GET /health`; `producer` is what `kafka_producer` of this module holds, with how its
-- call ends.
unfoldable pub health_check :
    Awaited (Unit {0}) → Awaited Bool → Option (Awaited (Unit {0})) → Health
unfolding within_timeout
health_check db redis_client producer =
    let database = check_database (within_timeout db) in
    let redis = check_redis (within_timeout redis_client) in
    let kafka = check_kafka (ended producer) in
    let all_ok = str_eq database "ok" && (str_eq redis "ok" && str_eq kafka "ok") in
    record {
      status = if all_ok then "healthy" else "unhealthy";
      checks = record { database = database; redis = redis; kafka = kafka };
    }

-- `from app.kafka import kafka_producer` binds the name when the module is loaded, before any
-- `init_kafka`, and nothing here assigns it again.
abbrev pub kafka_producer : Option (Awaited (Unit {0}))
kafka_producer = none

-- A response: its status, and the detail where its content is the JSON `{"detail": ...}`.
pub record Response : Type 0 where
  pub status_code : ℕ
  pub detail : Option Detail

-- What reaches the handlers: an exception of the code, or that of the limiter.
pub data Raised : Type 0 where
  exception : Error → Raised
  rate_limit_exceeded : Raised

abbrev pub json : Error → Detail → Option Response
json e d = some (record { status_code = status_code e; detail = some d })

-- The handlers that `create_app` registers; `none` is left to the framework.
unfoldable pub handle : Raised → Option Response
handle (exception (booking_conflict d)) = json (booking_conflict d) d
handle (exception (booking_not_found d)) = json (booking_not_found d) d
handle (exception (hall_not_found d)) = json (hall_not_found d) d
handle (exception (seat_not_found d)) = json (seat_not_found d) d
handle (exception (seat_already_exists d)) = json (seat_already_exists d) d
handle (exception (user_not_found d)) = json (user_not_found d) d
handle (exception (invalid_time_slot d)) = json (invalid_time_slot d) d
handle (exception (unauthorized d)) = json (unauthorized d) d
handle (exception (forbidden d)) = json (forbidden d) d
handle (exception e) = none
handle rate_limit_exceeded = some (record {
  status_code = 429;
  detail = some (text "Too many requests. Please try again later.");
})

-- The lines of the log that the middleware writes; the duration is left out where it is not measured.
pub data Line : Type 0 where
  incoming : String → String → Line
  answered : String → String → ℕ → String → Option ℕ → Line

pub record Request : Type 0 where
  pub method : String
  pub path : String

-- `start_time` is truthy: it is neither `None` nor 0.
abbrev pub measured : Bool → ℕ → ℕ → Option ℕ
measured debug start_time end_time =
    if debug && ltb 0 start_time then some (end_time - start_time) else none

-- What `call_next` does: it returns a response, or raises an exception that no handler took.
pub data Returned : Type 0 where
  responded : Response → Returned
  escaped : Error → Returned

-- `log_requests`, where the loop's clock reads `start_time` and `end_time`, and the rest of the
-- application returns as given. An exception passes by the second line of the log.
unfoldable pub log_requests : ℕ → ℕ → ℕ → Request → Returned → List Line → Returned × List Line
log_requests level start_time end_time request (responded response) log =
    let status_text = if ltb response.status_code 400 then "OK" else "ERROR" in
    let duration = measured (leb level 10) start_time end_time in
    (
      responded response,
      (log ++ incoming request.method request.path ∷ [])
          ++ answered request.method request.path response.status_code status_text duration ∷ [],
    )
log_requests level start_time end_time request (escaped e) log =
    (escaped e, log ++ incoming request.method request.path ∷ [])
