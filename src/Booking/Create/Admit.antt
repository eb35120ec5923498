-- ===== src/Booking/Create/Admit.antt =====
-- The checks of `create_booking` of app/services/booking_service.py before the lock is taken.
use booking_api_service.Common.{ℕ, none, ◌&&◌, ◌==◌, find}
use booking_api_service.Exceptions.{Result, ok, text, hall_not_found, default_user_not_found}
use booking_api_service.Exceptions.Results.{◌>>=◌, ◌>>◌, or_raise}
use booking_api_service.Settings.{Settings}
use booking_api_service.Model.{User, Hall, Db}
use booking_api_service.Schemas.{BookingCreate}
use booking_api_service.Booking.Slot.{validate_time_slot}
use booking_api_service.Booking.Seats.{validate_seats_exist}
use booking_api_service.Booking.Conflicts.{check_seat_conflicts}

unfoldable pub admit : Settings → ℕ → BookingCreate → Db → Result (Hall × User)
admit settings user_id rq db = do
  hall ←
      or_raise (find (λ h. h.id == rq.hall_id && h.is_active) db.halls)
        (hall_not_found (text "Hall not found or inactive"))
  user ← or_raise (find (λ u. u.id == user_id) db.users) default_user_not_found
  validate_time_slot settings rq.start_time rq.end_time
  validate_seats_exist db rq.hall_id rq.seat_ids
  check_seat_conflicts db rq.hall_id rq.seat_ids rq.start_time rq.end_time none
  ok (hall, user)
