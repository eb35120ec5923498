-- ===== src/Worker/Delivery.antt =====
-- Which e-mails the events of the topic lead to.
use booking_api_service.Common.{
  ◌≡◌, ap, sym, ◌∙◌, inl, inr, List, [], ◌∷◌, ◌++◌, map, Bool, not, ◌&&◌, select, str_eq,
  Bool-cases, arith, if◌then◌else◌,
}
use mathlib.Core.List.{append-nil, append_assoc}
use booking_api_service.Kafka.{Event, booking_created, booking_cancelled}
use booking_api_service.Worker.{
  Email, Smtp, is_not_configured, confirmation, cancellation, send_email, send_booking_confirmation,
  send_booking_cancellation, process_event, run_worker,
}

-- The e-mail for an event: to the user whom it names, with what the event says of the booking.
abbrev pub letter : Smtp → Event → Email
letter M (booking_created c) = record {
  sender = M.settings.smtp_from_email;
  to = c.user_email;
  body =
      confirmation c.booking_id c.hall_name c.start_time.date c.start_time.hour c.start_time.minute
        c.end_time.hour c.end_time.minute c.total_price;
}
letter M (booking_cancelled c) = record {
  sender = M.settings.smtp_from_email;
  to = c.user_email;
  body = cancellation c.booking_id c.hall_name;
}

abbrev pub is_delivered : Smtp → Email → Bool
is_delivered M email =
    not (str_eq email.to "") && not (is_not_configured M.settings) && M.accepts email

module _ (M : Smtp) where
  process_event-letter :
      (event : Event) (sent : List Email)
      → process_event M event sent
        ≡ (if is_delivered M (letter M event) then sent ++ letter M event ∷ [] else sent)
  unfolding process_event send_booking_confirmation send_booking_cancellation send_email
  process_event-letter (booking_created c) sent = ground arith
  process_event-letter (booking_cancelled c) sent = ground arith

  -- The worker sends, in the order of the events, one e-mail for each event that names an address
  -- and whose message the server takes, if the server is set up at all; a message that fails is left
  -- out, and the events after it are still served.
  pub run_worker-letters :
      (events : List Event) (sent : List Email)
      → run_worker M events sent ≡ sent ++ select (is_delivered M) (map (letter M) events)
  unfolding run_worker
  run_worker-letters [] sent = sym (append-nil sent)
  run_worker-letters (event ∷ events) sent =
      ap (run_worker M events) (process_event-letter event sent)
      ∙ elim (Bool-cases (is_delivered M (letter M event))) [
        | inl d ↦ rw d (
            run_worker-letters events (sent ++ letter M event ∷ [])
            ∙ append_assoc sent (letter M event ∷ [])
                (select (is_delivered M) (map (letter M) events)))
        | inr d ↦ rw d (run_worker-letters events sent)
      ]
