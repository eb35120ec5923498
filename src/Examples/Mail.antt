-- ===== src/Examples/Mail.antt =====
-- The e-mails about a booking of the small library.
use booking_api_service.Common.{List, [], ◌∷◌, true}
use booking_api_service.Settings.{default_settings}
use booking_api_service.Datetime.{combine}
use booking_api_service.Kafka.{Event, booking_created, booking_cancelled}
use booking_api_service.Worker.{Smtp}

abbrev pub first_event : Event
first_event = booking_created (record {
  booking_id = 1;
  user_id = 1;
  user_email = "alice@example.com";
  hall_name = "Blue";
  start_time = combine 700000 10;
  end_time = combine 700000 12;
  total_price = 3000;
})

abbrev pub events : List Event
events =
    first_event
    ∷ booking_cancelled
        (record { booking_id = 1; user_id = 1; user_email = ""; hall_name = "Blue" })
    ∷ []

abbrev pub post_office : Smtp
post_office = record {
  settings = record default_settings { smtp_user = "mailer"; smtp_password = "secret" };
  accepts = λ email. true;
}
