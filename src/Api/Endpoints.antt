-- ===== src/Api/Endpoints.antt =====
-- The endpoints of app/routers that pass on what a service does, for their user.
use booking_api_service.Common.{ℕ, String, Bool, map}
use booking_api_service.Exceptions.{Result, ok}
use booking_api_service.Exceptions.Results
use booking_api_service.Action.{Action, pure, ◌>>=◌}
use booking_api_service.Settings.{Settings}
use booking_api_service.Model.{User, Seat, Db}
use booking_api_service.Schemas.{BookingCreate}
use booking_api_service.Session.{Database, Session}
use booking_api_service.Sorting.{Sorting}
use booking_api_service.Kafka.{Broker}
use booking_api_service.Redis.{Redis}
use booking_api_service.Users
use booking_api_service.Users.{UserUpdate, user_response}
use booking_api_service.Seats
use booking_api_service.Seats.{SeatCreate, SeatBulkCreate}
use booking_api_service.Booking.Create
use booking_api_service.Booking.Create.{World}
use booking_api_service.Booking.Cancel
use booking_api_service.Booking.Slots.{get_available_slots}
use booking_api_service.Booking.Queries.{build_booking_response}
use booking_api_service.Api.Routes.{
  SeatResponse, Content, user_content, seat_content, seats_content, booking_content, slots_content,
  no_content,
}

-- What the outside decides for a request: the key of a new row and `now()`, the clock of the token
-- check, the uuid of the lock, which events the broker takes, and whether the limiter lets it pass.
pub record Outside : Type 0 where
  pub database : Database
  pub clock : ℕ
  pub uuid : String
  pub broker : Broker
  pub within_limit : Bool

-- `SeatResponse.model_validate(seat)`
abbrev pub seat_response : Seat → SeatResponse
seat_response s = record {
  id = s.id;
  hall_id = s.hall_id;
  row = s.row;
  number = s.number;
  is_active = s.is_active;
}

module _ {R : Redis} {A B : Type 0} where
  -- A handler that works on the session alone, and one that only reads the tables, with the content
  -- that its value makes.
  unfoldable pub in_session : (A → B) → Action Session A → Action (World R) B
  in_session content m w =
      let (r, s) = m w.session in (Results.◌>>=◌ r (λ a. ok (content a)), record w { session = s })

  unfoldable pub reading : (A → B) → (Db → Result A) → Action (World R) B
  reading content f w = (Results.◌>>=◌ (f w.current) (λ a. ok (content a)), w)

  unfoldable pub after : (A → B) → Action (World R) A → Action (World R) B
  after content m w = let (r, w') = m w in (Results.◌>>=◌ r (λ a. ok (content a)), w')

-- app/routers/users.py
module _ {R : Redis} where
  abbrev pub get_current_user_profile_route : User → Action (World R) Content
  get_current_user_profile_route u = pure (user_content (user_response u))

  abbrev pub update_user_route : ℕ → UserUpdate → Action (World R) Content
  update_user_route user_id rq =
      in_session (λ v. user_content (user_response v)) (Users.update_user user_id rq)

  -- app/routers/seats.py
  abbrev pub list_seats_route : Sorting → ℕ → Action (World R) Content
  list_seats_route S hall_id =
      reading (λ xs. seats_content (map seat_response xs)) (λ db. Seats.list_seats S db hall_id)

  abbrev pub create_seat_route : Outside → ℕ → SeatCreate → Action (World R) Content
  create_seat_route O hall_id rq =
      in_session (λ x. seat_content (seat_response x)) (Seats.create_seat O.database hall_id rq)

  abbrev pub bulk_create_seats_route : Outside → ℕ → SeatBulkCreate → Action (World R) Content
  bulk_create_seats_route O hall_id rq =
      in_session (λ xs. seats_content (map seat_response xs))
        (Seats.bulk_create_seats O.database hall_id rq)

  abbrev pub delete_seat_route : ℕ → ℕ → Action (World R) Content
  delete_seat_route hall_id seat_id =
      in_session (λ v. no_content) (Seats.delete_seat hall_id seat_id)

  -- app/routers/bookings.py
  abbrev pub create_booking_route :
      Settings → Outside → BookingCreate → User → Action (World R) Content
  create_booking_route settings O rq u = do
    booking ← Create.create_booking settings O.database R O.broker O.uuid u.id rq
    reading booking_content (λ db. build_booking_response db booking)

  abbrev pub cancel_booking_route : Outside → ℕ → User → Action (World R) Content
  cancel_booking_route O booking_id u =
      after (λ v. no_content) (Cancel.cancel_booking O.broker booking_id u.id)

  abbrev pub get_availability_route : Settings → ℕ → ℕ → Action (World R) Content
  get_availability_route settings hall_id date =
      after slots_content (get_available_slots settings hall_id date)
