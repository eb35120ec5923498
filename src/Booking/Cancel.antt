-- ===== src/Booking/Cancel.antt =====
-- `cancel_booking` of app/services/booking_service.py.
pub mod Effects
pub mod Outcome
pub mod Frees
use booking_api_service.Common.{ℕ, String, not, Option, none, some, ◌==◌, find, update_where}
use booking_api_service.Exceptions.{
  ok, text, default_booking_not_found, booking_not_found, booking_conflict,
}
use booking_api_service.Action.{Action, pure, gets, or_raise, raise_if, ◌>>=◌, ◌>>◌}
use booking_api_service.Model.{User, Hall, Booking, Db, is_confirmed, cancelled}
use booking_api_service.Kafka.{Event, Broker, booking_cancelled}
use booking_api_service.Redis.{Redis}
use booking_api_service.Booking.Create.{World, publish}

abbrev pub booking_with : ℕ → Db → Option Booking
booking_with booking_id db = find (λ b. b.id == booking_id) db.bookings

-- `booking.user.email if booking.user else ""`
abbrev pub email_or_empty : Option User → String
email_or_empty none = ""
email_or_empty (some u) = u.email

-- `booking.hall.name if booking.hall else "Unknown"`
abbrev pub name_or_unknown : Option Hall → String
name_or_unknown none = "Unknown"
name_or_unknown (some h) = h.name

unfoldable pub cancelled_event : ℕ → Booking → Db → Event
cancelled_event user_id booking db = booking_cancelled (record {
  booking_id = booking.id;
  user_id = user_id;
  user_email = email_or_empty (find (λ u. u.id == booking.user_id) db.users);
  hall_name = name_or_unknown (find (λ h. h.id == booking.hall_id) db.halls);
})

abbrev pub as_cancelled : Booking → Booking
as_cancelled b = record b { status = cancelled }

-- `booking.status = BookingStatus.cancelled` and the flush
unfoldable pub mark_cancelled : ℕ → Db → Db
mark_cancelled booking_id db = record db {
  bookings = update_where (λ b. b.id == booking_id) as_cancelled db.bookings;
}

module _ {R : Redis} (broker : Broker) where
  unfoldable pub modify_db : (Db → Db) → Action (World R) (Unit {0})
  modify_db f w = (ok tt, record w { session = record w.session { current = f w.current } })

  unfoldable pub cancel_booking : ℕ → ℕ → Action (World R) Booking
  unfolding modify_db
  cancel_booking booking_id user_id = do
    found ← gets (λ w. booking_with booking_id w.current)
    booking ← or_raise found default_booking_not_found
    raise_if (not (booking.user_id == user_id)) (booking_not_found (text "Booking not found"))
    raise_if (not (is_confirmed booking.status))
        (booking_conflict (text "Booking already cancelled"))
    event ← gets (λ w. cancelled_event user_id booking w.current)
    modify_db (mark_cancelled booking_id)
    publish broker event
    pure (as_cancelled booking)
