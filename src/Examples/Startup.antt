-- ===== src/Examples/Startup.antt =====
-- The application that starts, the worker, and the script that makes an administrator.
use booking_api_service.Common.{
  arith, ℕ, ◌+◌, ◌-◌, ◌*◌, ◌≤◌, ◌≡◌, ◌≢◌, ◌↔◌, ◌⊎◌, refl, none, some, [], ◌∷◌, ◌++◌, map, select,
  Bool, true, false, ◌==◌, if◌then◌else◌,
}
use booking_api_service.Exceptions.{Error, Result, ok, err}
use booking_api_service.Session.{Session}
use booking_api_service.Kafka.Connect.{
  Start, connected, refused, broken, Client, max_retries, init_kafka,
}
use booking_api_service.Kafka.Retries.{IsOutcome, init_kafka-IsOutcome}
use booking_api_service.Worker.Connect
use booking_api_service.Worker.Connect.{
  Consumer, run_worker_once, run_worker_once-ends, not_connected, retry_delay,
}
use booking_api_service.Worker.Delivery.{letter, is_delivered}
use booking_api_service.App.{
  Awaited, returned, timeout_error, other_exception, health_check, kafka_producer,
}
use booking_api_service.App.Healthy.{IsHealthy, health_check-IsHealthy}
use booking_api_service.App.Lifespan.{Process, lifespan}
use booking_api_service.App.Lifespan.Closes.{Connects, IsClosed, lifespan-IsClosed}
use booking_api_service.Examples.{empty_db}
use booking_api_service.Examples.Mail.{events, post_office}

-- Two producers are refused before one connects.
abbrev starts : ℕ → Start
starts n = if n == 2 then connected else refused

abbrev client : Client
client = record { kafka_producer = none; made = 0; stopped = []; slept = 0; topic = [] }

init_kafka-IsOutcome_example :
    IsOutcome starts max_retries client (init_kafka starts client).0 (init_kafka starts client).1
init_kafka-IsOutcome_example = init_kafka-IsOutcome starts client

third_connects : init_kafka starts client ≡ (
  ok 2,
  record { kafka_producer = some 2; made = 3; stopped = 0 ∷ 1 ∷ []; slept = 4; topic = [] },
)
unfolding init_kafka
third_connects = refl

never_broken : (n : ℕ) (e : Error) → starts n ≢ broken e
never_broken n e h = ground arith

-- The fourth attempt of the worker succeeds.
abbrev attempts : ℕ → Bool
attempts n = n == 4

abbrev consumer : Consumer
consumer = record { started = false; stopped = false; slept = 0 }

run_worker_once-ends_example :
    let (r, d, sent) = run_worker_once attempts post_office events consumer [] in
    (d.stopped ≡ true)
    × (((k : ℕ) × (1 ≤ k)
          × (k ≤ Connect.max_retries)
          × (attempts k ≡ true)
          × (r ≡ ok tt)
          × (d.slept ≡ 0 + (k - 1) * retry_delay)
          × (sent ≡ [] ++ select (is_delivered post_office) (map (letter post_office) events)))
        ⊎ (((i : ℕ) → 1 ≤ i → i ≤ Connect.max_retries → attempts i ≡ false)
            × (r ≡ err not_connected)
            × (d.slept ≡ 0 + 45)
            × (sent ≡ [])))
run_worker_once-ends_example = run_worker_once-ends attempts post_office events consumer []

-- Redis answers too late.
abbrev fast : Awaited (Unit {0})
fast = record { duration = 3; ending = returned tt }

abbrev late : Awaited Bool
late = record { duration = 6000; ending = returned true }

health_check-IsHealthy_example :
    ((health_check fast late kafka_producer).status ≡ "healthy")
    ↔ IsHealthy fast late kafka_producer
health_check-IsHealthy_example = health_check-IsHealthy fast late kafka_producer

redis_is_late :
    ((health_check fast late kafka_producer).status ≡ "unhealthy")
    × ((health_check fast late kafka_producer).checks.redis ≡ "timeout")
unfolding health_check booking_api_service.App.within_timeout
redis_is_late = (refl, refl)

abbrev new_process : Process
new_process = record {
  redis = record { redis_client = none; made = 0; closed = [] };
  kafka = client;
  has_tables = false;
}

lifespan-IsClosed_example :
    let (x, q) = lifespan starts (ok tt) (λ q. q) new_process in
    ((x ≡ ok tt) ↔ (
      Connects starts (ok tt) (λ q. q) new_process × (◌≡◌ {A = Result (Unit {0})} (ok tt) (ok tt))))
    × (x ≡ ok tt → IsClosed new_process q)
lifespan-IsClosed_example =
    lifespan-IsClosed starts (ok tt) (λ q. q) new_process
      (record { redis = λ q. refl; producer = λ q. refl; made = λ q. refl; stopped = λ q. refl })

abbrev opened : Session
opened = record { committed = empty_db; current = empty_db }
