-- ===== src/Kafka/Connect.antt =====
-- The producer of app/kafka.py: a global that `init_kafka` sets, and the retries around it.
use booking_api_service.Common.{ℕ, zero, suc, ◌+◌, Option, none, some, List, [], ◌∷◌, ◌++◌}
use booking_api_service.Exceptions.{Error, ok, err, kafka_error}
use booking_api_service.Action.{Action, ◌>>◌}
use booking_api_service.Kafka.{Event, Broker, send_booking_event}

abbrev pub max_retries : ℕ
max_retries = 10

abbrev pub retry_delay : ℕ
retry_delay = 2

-- How `start` of a producer ends: `refused` is a `KafkaConnectionError`.
pub data Start : Type 0 where
  connected refused : Start
  broken : Error → Start

-- The global, how many producers were made (each is named by its number), which of them were stopped,
-- the seconds slept, and the topic.
pub record Client : Type 0 where
  pub kafka_producer : Option ℕ
  pub made : ℕ
  pub stopped : List ℕ
  pub slept : ℕ
  pub topic : List Event

-- The global is set to a new producer.
abbrev pub make : Client → Client
make s = record s { kafka_producer = some s.made; made = suc s.made }

-- `except KafkaConnectionError`: the producer is stopped and dropped, and the code sleeps.
abbrev pub drop_producer : ℕ → Client → Client
drop_producer p s = record s {
  kafka_producer = none;
  stopped = s.stopped ++ p ∷ [];
  slept = s.slept + retry_delay;
}

module _ (starts : ℕ → Start) where
  -- The rounds of the loop that are left.
  unfoldable pub connect : ℕ → Action Client ℕ
  connect zero s = (err kafka_error, s)
  connect (suc rounds) s =
      let again = connect rounds (drop_producer s.made (make s)) in
      elim (starts s.made) [
        | connected ↦ (ok s.made, make s)
        | refused ↦ again
        | broken e ↦ (err e, make s)
      ]

  unfoldable pub init_kafka : Action Client ℕ
  unfolding connect
  init_kafka = connect max_retries

  abbrev pub or_init : Option ℕ → Action Client ℕ
  or_init none s = init_kafka s
  or_init (some p) s = (ok p, s)

  unfoldable pub get_kafka : Action Client ℕ
  unfolding init_kafka
  get_kafka s = or_init s.kafka_producer s

  -- `send_and_wait` of the producer.
  unfoldable pub send_and_wait : Broker → Event → Action Client (Unit {0})
  send_and_wait broker event s =
      let (r, topic) = send_booking_event broker event s.topic in (r, record s { topic = topic })

  -- `send_booking_event` with the connection that it may have to make first.
  unfoldable pub connect_and_send : Broker → Event → Action Client (Unit {0})
  unfolding get_kafka send_and_wait
  connect_and_send broker event = do get_kafka; send_and_wait broker event

abbrev pub stop_producer : Option ℕ → List ℕ → List ℕ
stop_producer none stopped = stopped
stop_producer (some p) stopped = stopped ++ p ∷ []

-- The global keeps the stopped producer.
unfoldable pub close_kafka : Client → Client
close_kafka s = record s { stopped = stop_producer s.kafka_producer s.stopped }
