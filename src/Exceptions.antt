-- ===== src/Exceptions.antt =====
-- app/exceptions.py: the exceptions with their status codes, and the result of a call that may
-- raise. A formatted detail is kept as its parts: the numbers are not printed.
pub mod Results
use booking_api_service.Common.{ℕ, String, List}

pub data Detail : Type 0 where
  text : String → Detail
  min_duration max_duration starts_before ends_after : ℕ → Detail
  seats_not_found : List ℕ → Detail
  seats_booked : List (ℕ × ℕ) → Detail
  seat_exists : ℕ → ℕ → Detail

-- The exceptions of the module; `http` is a plain `HTTPException`. Those below it are no
-- `HTTPException`: what reaches the framework so is answered by 500.
pub data Error : Type 0 where
  booking_conflict booking_not_found hall_not_found seat_not_found : Detail → Error
  seat_already_exists user_not_found invalid_time_slot unauthorized forbidden : Detail → Error
  http : ℕ → Detail → Error
  validation_error : Error
  value_error runtime_error : Detail → Error
  key_error integrity_error database_error kafka_error : Error

unfoldable pub status_code : Error → ℕ
status_code (booking_conflict _) = 409
status_code (booking_not_found _) = 404
status_code (hall_not_found _) = 404
status_code (seat_not_found _) = 404
status_code (seat_already_exists _) = 409
status_code (user_not_found _) = 404
status_code (invalid_time_slot _) = 400
status_code (unauthorized _) = 401
status_code (forbidden _) = 403
status_code (http code _) = code
status_code validation_error = 422
status_code _ = 500

-- The details that a class gives where it is raised with no argument.
abbrev pub default_booking_not_found : Error
default_booking_not_found = booking_not_found (text "Booking not found")

abbrev pub default_hall_not_found : Error
default_hall_not_found = hall_not_found (text "Hall not found")

abbrev pub default_seat_not_found : Error
default_seat_not_found = seat_not_found (text "Seat not found")

abbrev pub default_user_not_found : Error
default_user_not_found = user_not_found (text "User not found")

pub data Result {ℓ} (A : Type ℓ) : Type ℓ where
  ok : A → Result A
  err : Error → Result A
