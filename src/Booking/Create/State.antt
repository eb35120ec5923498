-- ===== src/Booking/Create/State.antt =====
-- What a booking request works on: its session, the Redis server and the Kafka topic.
use booking_api_service.Common.{List}
use booking_api_service.Action.{Action}
use booking_api_service.Session.{Session, end_session}
use booking_api_service.Kafka.{Event, Broker, send_booking_event}
use booking_api_service.Redis.{Redis}

pub record World (R : Redis) : Type 0 where
  pub session : Session
  pub open session use {committed, current}
  pub redis : R.Store
  pub topic : List Event

-- `get_db` around a request that also uses Redis and Kafka: only the session is rolled back.
unfoldable pub with_world : {R : Redis} {A : Type 0} → Action (World R) A → Action (World R) A
with_world handler w =
    let (r, w') = handler w in (r, record w' { session = (end_session (r, w'.session)).1 })

-- `send_booking_event`, on the topic of the world.
unfoldable pub publish : {R : Redis} → Broker → Event → Action (World R) (Unit {0})
publish broker event w =
    let (r, topic) = send_booking_event broker event w.topic in (r, record w { topic = topic })
