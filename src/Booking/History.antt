-- ===== src/Booking/History.antt =====
-- Requests to app/routers/bookings.py that change bookings, served one after another, each in a
-- session of its own (app/db.py).
pub mod Exclusive
use booking_api_service.Common.{ℕ, String, List, [], ◌∷◌}
use booking_api_service.Exceptions.{Result}
use booking_api_service.Action.{Action}
use booking_api_service.Settings.{Settings}
use booking_api_service.Model.{Booking}
use booking_api_service.Schemas.{BookingCreate}
use booking_api_service.Session.{Database}
use booking_api_service.Kafka.{Broker}
use booking_api_service.Redis.{Redis}
use booking_api_service.Booking.Create.{World, with_world, create_booking}
use booking_api_service.Booking.Cancel.{cancel_booking}

-- A call of the service, with what the outside decides for it: the keys and the time of the
-- database, the token, and which events the broker takes.
pub data Call : Type 0 where
  create : Database → Broker → (token : String) (user_id : ℕ) → BookingCreate → Call
  cancel : Broker → (booking_id user_id : ℕ) → Call

module _ (settings : Settings) {R : Redis} where
  unfoldable pub perform : Call → Action (World R) Booking
  perform (create D broker token user_id rq) = create_booking settings D R broker token user_id rq
  perform (cancel broker booking_id user_id) = cancel_booking broker booking_id user_id

  unfoldable pub serve : List Call → World R → World R
  serve [] w = w
  serve (call ∷ calls) w = serve calls (with_world (perform call) w).1
