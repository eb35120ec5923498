-- ===== src/App/Lifespan.antt =====
-- `lifespan` of app/main.py, and the client of app/redis.py that it opens and closes. (The schema of
-- the documentation, which it also sets, is left out.)
pub mod Closes
use booking_api_service.Common.{ℕ, suc, Option, none, some, List, [], ◌∷◌, ◌++◌, Bool, true, false}
use booking_api_service.Exceptions.{Result, ok, err}
use booking_api_service.Action.{Action, pure, ◌>>=◌, ◌>>◌}
use booking_api_service.Kafka.Connect.{Start, Client, init_kafka, close_kafka}

-- The global of app/redis.py, how many clients were made (each is named by its number; making one
-- does not yet connect), and which of them were closed.
pub record RedisConnection : Type 0 where
  pub redis_client : Option ℕ
  pub made : ℕ
  pub closed : List ℕ

unfoldable pub init_redis : Action RedisConnection ℕ
init_redis s = (ok s.made, record s { redis_client = some s.made; made = suc s.made })

abbrev pub with_closed : Option ℕ → RedisConnection → RedisConnection
with_closed none s = s
with_closed (some client) s = record s { closed = s.closed ++ client ∷ [] }

-- The global keeps the closed client.
unfoldable pub close_redis : RedisConnection → RedisConnection
close_redis s = with_closed s.redis_client s

abbrev pub or_init_redis : Option ℕ → Action RedisConnection ℕ
unfolding init_redis
or_init_redis none s = init_redis s
or_init_redis (some client) s = (ok client, s)

unfoldable pub get_redis : Action RedisConnection ℕ
get_redis s = or_init_redis s.redis_client s

pub record Process : Type 0 where
  pub redis : RedisConnection
  pub kafka : Client
  pub has_tables : Bool

abbrev pub on_redis : {A : Type 0} → Action RedisConnection A → Action Process A
on_redis m p = let (r, s) = m p.redis in (r, record p { redis = s })

abbrev pub on_kafka : {A : Type 0} → Action Client A → Action Process A
on_kafka m p = let (r, s) = m p.kafka in (r, record p { kafka = s })

-- `create_tables` of app/db.py, where `created` is how its transaction ends.
abbrev pub create_tables : Result (Unit {0}) → Action Process (Unit {0})
create_tables (ok u) p = (ok u, record p { has_tables = true })
create_tables (err e) p = (err e, p)

module _ (starts : ℕ → Start) (created : Result (Unit {0})) where
  -- What runs before `yield`.
  unfoldable pub startup : Action Process (Unit {0})
  unfolding init_redis
  startup = do on_redis init_redis; on_kafka (init_kafka starts); create_tables created

-- What runs after it.
unfoldable pub shutdown : Process → Process
unfolding close_redis
shutdown p = record p { kafka = close_kafka p.kafka; redis = close_redis p.redis }

-- The whole of it, where `served` is what the requests do to the process.
unfoldable pub lifespan :
    (ℕ → Start) → Result (Unit {0}) → (Process → Process) → Action Process (Unit {0})
unfolding startup shutdown
lifespan starts created served = do startup starts created; λ p. (ok tt, shutdown (served p))
