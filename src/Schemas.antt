-- ===== src/Schemas.antt =====
-- app/schemas: the bodies of requests and responses that the services and routers exchange.
use booking_api_service.Common.{ℕ, String, List, Bool}
use booking_api_service.Common.Int.{ℤ}
use booking_api_service.Datetime.{Datetime}
use booking_api_service.Model.{BookingStatus}

-- schemas/booking.py
pub record BookingCreate : Type 0 where
  pub hall_id : ℕ
  pub seat_ids : List ℕ
  pub start_time : Datetime
  pub end_time : Datetime

pub record BookingSeatResponse : Type 0 where
  pub id : ℕ
  pub row : ℕ
  pub number : ℕ

pub record BookingResponse : Type 0 where
  pub id : ℕ
  pub user_id : ℕ
  pub hall_id : ℕ
  pub hall_name : String
  pub seats : List BookingSeatResponse
  pub start_time : Datetime
  pub end_time : Datetime
  pub total_price : ℕ
  pub status : BookingStatus
  pub created_at : ℕ

-- The dictionary that `_calculate_slots` builds for an hour.
pub record TimeSlotResponse : Type 0 where
  pub hour : ℕ
  pub available : Bool
  pub total_seats : ℕ
  pub free_seats : ℤ
  pub booked_seats : ℕ
