-- ===== src/Booking/Slot/Accepted.antt =====
-- Which time slots `validate_time_slot` accepts, and what they cost.
use booking_api_service.Common.{ap, ℕ, ◌+◌, ◌-◌, ◌*◌, ◌≤◌, ◌<◌, ◌≡◌, ◌↔◌, arith}
use booking_api_service.Exceptions.{ok}
use booking_api_service.Settings.{Settings, default_settings}
use booking_api_service.Datetime.{Datetime, hour_length, instant, combine}
use booking_api_service.Booking.Slot.{validate_time_slot, booked_hours, calculate_price}

-- The documented rules: a slot after its start, of a length between the limits, on the hour,
-- within the opening hours.
pub record IsAccepted (settings : Settings) (start_time end_time : Datetime) : Type 0 where
  pub ordered : instant start_time < instant end_time
  pub long_enough : instant start_time + settings.min_booking_hours * hour_length ≤ instant end_time
  pub short_enough :
      instant end_time ≤ instant start_time + settings.max_booking_hours * hour_length
  pub start_on_hour : start_time.minute ≡ 0
  pub end_on_hour : end_time.minute ≡ 0
  pub opens : settings.session_start_hour ≤ start_time.hour
  pub closes : end_time.hour ≤ settings.session_end_hour

accepted→valid :
    (settings : Settings) (start_time end_time : Datetime)
    → validate_time_slot settings start_time end_time ≡ ok tt
    → IsAccepted settings start_time end_time
unfolding validate_time_slot
accepted→valid settings start_time end_time h = ground arith

valid→accepted :
    (settings : Settings) (start_time end_time : Datetime)
    → IsAccepted settings start_time end_time
    → validate_time_slot settings start_time end_time ≡ ok tt
unfolding validate_time_slot
valid→accepted settings start_time end_time h = ground arith

-- A slot is accepted exactly when it ends after its start, is no shorter and no longer than the
-- settings allow, starts and ends in minute 0, starts at the opening hour or later, and the hour
-- of its end is no later than the closing hour.
pub validate_time_slot_iff :
    (settings : Settings) (start_time end_time : Datetime)
    → (validate_time_slot settings start_time end_time ≡ ok tt)
      ↔ IsAccepted settings start_time end_time
validate_time_slot_iff settings start_time end_time =
    (accepted→valid settings start_time end_time, valid→accepted settings start_time end_time)

-- The hours that are billed for an accepted slot lie between the limits of the settings.
pub booked_hours_bounds :
    (settings : Settings) (start_time end_time : Datetime)
    → validate_time_slot settings start_time end_time ≡ ok tt
    → (settings.min_booking_hours ≤ booked_hours start_time end_time)
      × (booked_hours start_time end_time ≤ settings.max_booking_hours)
unfolding booked_hours
booked_hours_bounds settings start_time end_time h =
    let v = accepted→valid settings start_time end_time h in (omega arith, omega arith)

-- Between two datetimes of the same date on the full hour (no seconds), of which the second is no
-- earlier, the price is the rate for each hour from the one to the other.
pub calculate_price_on_hour :
    (rate : ℕ) (start_time end_time : Datetime)
    → start_time.date ≡ end_time.date
    → start_time ≡ combine start_time.date start_time.hour
    → end_time ≡ combine end_time.date end_time.hour
    → start_time.hour ≤ end_time.hour
    → calculate_price rate (booked_hours start_time end_time)
      ≡ rate * (end_time.hour - start_time.hour)
unfolding calculate_price booked_hours
calculate_price_on_hour rate start_time end_time d es ee le =
    ap (λ (n : ℕ). rate * n) (rw (ap instant es, ap instant ee) (omega arith))

-- An accepted slot may cross midnight: with the default settings, a slot from `hour` o'clock
-- to `later` o'clock of the next day is accepted whenever it is at most eight hours long, and it
-- ends after the closing hour of its day.
pub overnight_is_accepted :
    (date hour later : ℕ)
    → 9 ≤ hour
    → hour < 24
    → later + 24 ≤ hour + 8
    → (validate_time_slot default_settings (combine date hour) (combine (date + 1) later) ≡ ok tt)
      × (instant (combine date 23) < instant (combine (date + 1) later))
overnight_is_accepted date hour later a b c = (
  valid→accepted default_settings (combine date hour) (combine (date + 1) later) (omega arith),
  omega arith,
)

-- Seconds are not looked at: a slot that starts `second` seconds after a full hour and ends at a
-- full hour is accepted with the default settings, and its last hour, short by those seconds, is
-- not billed.
pub partial_hour_is_free :
    (date hour second hours : ℕ)
    → 9 ≤ hour
    → 0 < second
    → second < 60
    → 1 ≤ hours
    → hours < 8
    → hour + hours < 23
    → let start_time = record (combine date hour) { second = second } in
      let end_time = combine date (hour + hours + 1) in
      (validate_time_slot default_settings start_time end_time ≡ ok tt)
      × (booked_hours start_time end_time ≡ hours)
      × (instant start_time + (hours + 1) * hour_length ≡ instant end_time + second * 1000000)
unfolding booked_hours
partial_hour_is_free date hour second hours a b c d e f = (
  valid→accepted default_settings (record (combine date hour) { second = second })
      (combine date (hour + hours + 1)) (omega arith),
  omega arith,
  omega arith,
)
