-- ===== src/Kafka.antt =====
-- app/kafka.py: the events that `send_booking_event` publishes. A text that the code formats from
-- a number or a datetime is kept as that value.
pub mod Connect
pub mod Retries
use booking_api_service.Common.{ℕ, String, List, [], ◌∷◌, ◌++◌, Bool, if◌then◌else◌}
use booking_api_service.Exceptions.{Result, ok, err, kafka_error}
use booking_api_service.Datetime.{Datetime}

pub record Created : Type 0 where
  pub booking_id : ℕ
  pub user_id : ℕ
  pub user_email : String
  pub hall_name : String
  pub start_time : Datetime
  pub end_time : Datetime
  pub total_price : ℕ

pub record Cancelled : Type 0 where
  pub booking_id : ℕ
  pub user_id : ℕ
  pub user_email : String
  pub hall_name : String

pub data Event : Type 0 where
  booking_created : Created → Event
  booking_cancelled : Cancelled → Event

-- Whether the broker takes an event: `send_and_wait` and the connection before it may raise.
abbrev pub Broker : Type 0
Broker = Event → Bool

unfoldable pub send_booking_event : Broker → Event → List Event → Result (Unit {0}) × List Event
send_booking_event broker event topic =
    if broker event then (ok tt, topic ++ event ∷ []) else (err kafka_error, topic)
