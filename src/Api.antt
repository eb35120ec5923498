-- ===== src/Api.antt =====
-- The routes of app/routers with what stands around them: the dependencies of app/core/dependencies.py,
-- the bodies that app/schemas declares, the limiter, and the session of app/db.py. A path has been
-- matched to its route, and its numbers and dates have been read.
pub mod Routes
mod Endpoints
pub mod Guards
pub mod Others
pub mod Own
pub mod Atomic
pub mod Sound
pub mod Invariant
pub mod Table
pub use Routes.*
pub use Endpoints.{
  Outside, get_current_user_profile_route, update_user_route, list_seats_route, create_seat_route,
  bulk_create_seats_route, delete_seat_route, create_booking_route, cancel_booking_route,
  get_availability_route,
}
unfoldable pub use Endpoints.{in_session, reading, after}
use booking_api_service.Common.{ℕ, String, Option, Bool, not, map, if◌then◌else◌}
use booking_api_service.Exceptions.{
  Error, Result, ok, err, text, http, validation_error, value_error, database_error,
}
use booking_api_service.Exceptions.Results
use booking_api_service.Action.{Action, pure, asks, gets, raise_if, ◌>>=◌, ◌>>◌}
use booking_api_service.Settings.{Settings}
use booking_api_service.Model.{User, Seat, Db}
use booking_api_service.Session.{Database, Session}
use booking_api_service.Sorting.{Sorting}
use booking_api_service.Kafka.{Broker}
use booking_api_service.Redis.{Redis}
use booking_api_service.Auth
use booking_api_service.Auth.{Crypto, get_current_user, get_current_admin}
use booking_api_service.Auth.Header.{get_token_from_header}
use booking_api_service.Users
use booking_api_service.Users.{user_response}
use booking_api_service.Halls
use booking_api_service.Seats
use booking_api_service.Booking.Create
use booking_api_service.Booking.Create.{World, with_world}
use booking_api_service.Booking.Cancel
use booking_api_service.Booking.Slots.{get_available_slots}
use booking_api_service.Booking.Queries
use booking_api_service.Booking.Queries.{build_booking_response}

-- What `rate_limit_handler` answers.
abbrev pub rate_limit_exceeded : Error
rate_limit_exceeded = http 429 (text "Too many requests. Please try again later.")

-- A `ValidationError` of pydantic, which no handler takes.
abbrev pub invalid_content : Error
invalid_content = value_error (text "value is not a valid email address")

-- `CurrentUser`, and `AdminUser` where the route asks for an administrator.
unfoldable pub authorize : Crypto → ℕ → Bool → Option String → Db → Result User
authorize C clock admin_only authorization db =
    Results.◌>>=◌ (get_token_from_header authorization) λ token.
      if admin_only then get_current_admin C clock token db else get_current_user C clock token db

module _ (settings : Settings) (S : Sorting) (C : Crypto) (valid_email : String → Bool)
    (O : Outside) {R : Redis} where
  -- What follows the dependencies: the framework checks the body, and the limiter stands around the
  -- endpoint.
  unfoldable pub admit_request : Bool → Action (World R) (Unit {0})
  admit_request valid = do
    raise_if (not valid) validation_error
    raise_if (not O.within_limit) rate_limit_exceeded

  unfoldable pub respond_public : PublicRoute → Action (World R) Content
  unfolding in_session reading
  respond_public (signup rq) = in_session registered (Auth.signup C O.database rq)
  respond_public (login rq) =
      reading access_token (λ db. Auth.login C settings O.clock db rq.email rq.password)

  -- The endpoints that work for any user.
  unfoldable pub respond : Route → User → Action (World R) Content
  unfolding in_session reading after
  respond get_current_user_profile u = get_current_user_profile_route u
  respond (list_users page page_size) u =
      reading user_page_content (λ db. Users.user_page S db page page_size)
  respond (get_user user_id) u = reading user_content (λ db. Users.get_user db user_id)
  respond (update_user user_id rq) u = update_user_route user_id rq
  respond list_halls u = reading halls_content (λ db. ok (Halls.list_halls S db))
  respond (get_hall hall_id) u = reading hall_content (λ db. Halls.get_hall db hall_id)
  respond (create_hall rq) u = in_session hall_content (Halls.create_hall O.database rq)
  respond (update_hall hall_id rq) u = in_session hall_content (Halls.update_hall hall_id rq)
  respond (delete_hall hall_id) u = in_session (λ v. no_content) (Halls.delete_hall hall_id)
  respond (list_seats hall_id) u = list_seats_route S hall_id
  respond (create_seat hall_id rq) u = create_seat_route O hall_id rq
  respond (bulk_create_seats hall_id rq) u = bulk_create_seats_route O hall_id rq
  respond (delete_seat hall_id seat_id) u = delete_seat_route hall_id seat_id
  respond (list_bookings page page_size) u =
      reading booking_page_content (λ db. Queries.list_bookings S db u.id page page_size)
  respond (get_booking booking_id) u =
      reading booking_content (λ db. Queries.get_booking db booking_id u.id)
  respond (create_booking rq) u = create_booking_route settings O rq u
  respond (cancel_booking booking_id) u = cancel_booking_route O booking_id u
  respond (get_availability hall_id date) u = get_availability_route settings hall_id date

  -- The value of an endpoint is validated by the model of its answer before it leaves the session.
  unfoldable pub validate_content : Content → Action (World R) Content
  validate_content content w = (
    Results.◌>>◌ (Results.raise_if (not (content_is_valid valid_email content)) invalid_content)
        (ok content),
    w,
  )

  -- The endpoint, with what the driver and the model of its answer refuse.
  unfoldable pub run_endpoint : Route → User → Action (World R) Content
  unfolding respond validate_content numbers_fit content_is_valid
  run_endpoint route u = do
    raise_if (not (numbers_fit route)) database_error
    content ← respond route u
    validate_content content

  -- The dependencies, then the endpoint.
  unfoldable pub handle_request : Request → Action (World R) Content
  unfolding admit_request authorize run_endpoint respond_public
  handle_request (public_request route) = do
    admit_request (public_body_is_valid valid_email route)
    respond_public route
  handle_request (user_request authorization route) = do
    u ← asks (λ w. authorize C O.clock (needs_admin route) authorization w.current)
    admit_request (body_is_valid valid_email route)
    run_endpoint route u

  -- In the session of the request.
  unfoldable pub answer : Request → Action (World R) Content
  unfolding handle_request
  answer request = with_world (handle_request request)
