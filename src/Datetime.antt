-- ===== src/Datetime.antt =====
-- The part of Python's `datetime` that the services use. A date is its ordinal; every datetime of
-- the model has the same offset, so that they are compared by their fields.
use booking_api_service.Common.{ℕ, ◌+◌, ◌*◌, ◌<◌}

pub record Datetime : Type 0 where
  pub date : ℕ
  pub hour : ℕ
  pub minute : ℕ
  pub second : ℕ
  pub microsecond : ℕ

-- The ranges that the constructor of `datetime` enforces.
pub record IsDatetime (t : Datetime) : Type 0 where
  pub hour_range : t.hour < 24
  pub minute_range : t.minute < 60
  pub second_range : t.second < 60
  pub microsecond_range : t.microsecond < 1000000

abbrev pub hour_length : ℕ
hour_length = 3600000000

-- The microseconds since the first date, in which datetimes are compared and subtracted.
abbrev pub instant : Datetime → ℕ
instant t =
    t.date * 86400000000
    + t.hour * 3600000000
    + t.minute * 60000000
    + t.second * 1000000
    + t.microsecond

-- `datetime.combine(date, datetime.min.time().replace(hour=hour))`
abbrev pub combine : ℕ → ℕ → Datetime
combine date hour = record { date = date; hour = hour; minute = 0; second = 0; microsecond = 0 }
