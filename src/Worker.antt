-- ===== src/Worker.antt =====
-- app/worker.py, from the events to the e-mails, and app/services/notification_service.py. The text of
-- an e-mail is kept as the parts that it prints. The events are those that this service publishes.
pub mod Connect
pub mod Delivery
use booking_api_service.Common.{
  ℕ, String, List, [], ◌∷◌, ◌++◌, Bool, true, false, ◌||◌, str_eq, if◌then◌else◌,
}
use booking_api_service.Settings.{Settings}
use booking_api_service.Datetime.{Datetime}
use booking_api_service.Kafka.{Created, Cancelled, Event, booking_created, booking_cancelled}

pub data Body : Type 0 where
  confirmation :
      (booking_id : ℕ) (hall_name : String) (date from_hour from_minute to_hour to_minute : ℕ)
      (total_price : ℕ)
      → Body
  cancellation : (booking_id : ℕ) (hall_name : String) → Body

pub record Email : Type 0 where
  pub sender : String
  pub to : String
  pub body : Body

-- The settings of the mail server, and which messages `aiosmtplib.send` gets through.
pub record Smtp : Type 0 where
  pub settings : Settings
  pub accepts : Email → Bool

-- `not settings.SMTP_USER or not settings.SMTP_PASSWORD`
abbrev pub is_not_configured : Settings → Bool
is_not_configured settings = str_eq settings.smtp_user "" || str_eq settings.smtp_password ""

module _ (M : Smtp) where
  unfoldable pub send_email : Email → List Email → Bool × List Email
  send_email email sent =
      if is_not_configured M.settings
      then (false, sent)
      else (if M.accepts email then (true, sent ++ email ∷ []) else (false, sent))

  unfoldable pub send_booking_confirmation : String → Created → List Email → Bool × List Email
  send_booking_confirmation to event = send_email (record {
    sender = M.settings.smtp_from_email;
    to = to;
    body =
        confirmation event.booking_id event.hall_name event.start_time.date event.start_time.hour
          event.start_time.minute event.end_time.hour event.end_time.minute event.total_price;
  })

  unfoldable pub send_booking_cancellation : String → Cancelled → List Email → Bool × List Email
  send_booking_cancellation to event = send_email (record {
    sender = M.settings.smtp_from_email;
    to = to;
    body = cancellation event.booking_id event.hall_name;
  })

  unfoldable pub process_event : Event → List Email → List Email
  process_event (booking_created c) sent =
      if str_eq c.user_email "" then sent else (send_booking_confirmation c.user_email c sent).1
  process_event (booking_cancelled c) sent =
      if str_eq c.user_email "" then sent else (send_booking_cancellation c.user_email c sent).1

  -- `async for msg in consumer`, for the messages that have come.
  unfoldable pub run_worker : List Event → List Email → List Email
  run_worker [] sent = sent
  run_worker (event ∷ events) sent = run_worker events (process_event event sent)
