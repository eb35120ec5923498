-- ===== src/Booking/Slot.antt =====
-- `validate_time_slot` and `calculate_price` of app/services/booking_service.py.
-- `total_seconds() / 3600` is a float, which is compared with whole hours and truncated: for the
-- durations of a booking that is exact, so the model compares microseconds.
pub mod Accepted
use booking_api_service.Common.{ℕ, ◌-◌, ◌*◌, ◌/◌, not, ◌||◌, ltb, leb, ◌==◌}
use booking_api_service.Exceptions.{
  Result, ok, invalid_time_slot, text, min_duration, max_duration, starts_before, ends_after,
}
use booking_api_service.Exceptions.Results.{◌>>=◌, ◌>>◌, raise_if}
use booking_api_service.Settings.{Settings}
use booking_api_service.Datetime.{Datetime, hour_length, instant}

unfoldable pub validate_time_slot : Settings → Datetime → Datetime → Result (Unit {0})
validate_time_slot settings start_time end_time = do
  raise_if (leb (instant end_time) (instant start_time))
      (invalid_time_slot (text "End time must be after start time"))
  let duration = instant end_time - instant start_time
  raise_if (ltb duration (settings.min_booking_hours * hour_length))
      (invalid_time_slot (min_duration settings.min_booking_hours))
  raise_if (ltb (settings.max_booking_hours * hour_length) duration)
      (invalid_time_slot (max_duration settings.max_booking_hours))
  raise_if (not (start_time.minute == 0) || not (end_time.minute == 0))
      (invalid_time_slot (text "Booking must start and end on the hour"))
  raise_if (ltb start_time.hour settings.session_start_hour)
      (invalid_time_slot (starts_before settings.session_start_hour))
  raise_if (ltb settings.session_end_hour end_time.hour)
      (invalid_time_slot (ends_after settings.session_end_hour))

-- `int((end_time - start_time).total_seconds() / 3600)`
unfoldable pub booked_hours : Datetime → Datetime → ℕ
booked_hours start_time end_time = (instant end_time - instant start_time) / hour_length

unfoldable pub calculate_price : ℕ → ℕ → ℕ
calculate_price hourly_rate hours = hourly_rate * hours
