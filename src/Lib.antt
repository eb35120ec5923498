-- ===== src/Lib.antt =====
-- A verification library for the Booking API service: a FastAPI service in which users book seats of
-- halls for some hours of a day, and administrators keep halls, seats and users.
--
-- The parts and how they interact. A route (app/routers) runs in a session of its own (app/db.py,
-- `get_db`), which is committed after a normal end and rolled back after an exception. The booking
-- service reads and writes the tables of that session, takes a lock in Redis around the insertion of
-- a booking, caches the availability of a day in Redis, and publishes an event to Kafka for each
-- booking that is made or cancelled, from which a worker sends e-mails. Who calls is known from a
-- signed token.
--
-- The files:
--   Common          lists, options, numbers and tables, for all that follows
--   Exceptions      app/exceptions.py; `Result` is the outcome of a call that may raise
--   Action          a coroutine on a state that may raise
--   Settings        app/config.py
--   Datetime        the part of `datetime` that the services use
--   Model           app/models: a record for each row, `Db` for the tables
--   Schemas         app/schemas/booking.py; the bodies of the other parts stand with them
--   Session         app/db.py: `with_session` is `get_db`; `Database` says what is relied on of
--                   PostgreSQL: ids that are new, and the time
--   Redis           the Redis commands as an interface with their documented laws; Redis.Lock is the
--                   lock of app/services/booking_service.py
--   Kafka           app/kafka.py, `send_booking_event`; the broker may refuse any event.
--                   Kafka.Connect is the global producer with the retries of `init_kafka`
--   Sorting         the ORDER BY of one query as an interface, with a sort that meets it; rows with equal
--                   keys may be ordered differently by another query. Sorting.Unique has when they
--                   cannot
--   Pagination      app/schemas/common.py
--   Patch           `model_dump(exclude_unset=True)`, a request that sets some fields
--   Booking         app/services/booking_service.py and app/routers/bookings.py:
--     Slot          `validate_time_slot`, `calculate_price`
--     Seats         `validate_seats_exist`
--     Conflicts     `check_seat_conflicts`
--     Create        `create_booking`: `admit` is what precedes the lock, `book` the body of the `try`
--     Exclusive     the invariant of the bookings
--     Cancel        `cancel_booking`; Create.Effects and Cancel.Outcome say row by row what the two do
--     History       requests one after another, each in its session
--     Calendar      an abstract calendar of seats, which such requests are to follow
--     Race          requests of several workers at once, as a step relation in which a lock may run out
--     Slots         `get_available_slots`, `_calculate_slots`; Slots.Described says what the table should say
--     Queries       `get_booking_by_id`, `get_user_bookings`, `build_booking_response` and the routes
--   Halls           app/services/hall_service.py and app/routers/halls.py
--   Seats           app/services/seat_service.py, with the unique constraint of app/models/seat.py;
--                   Seats.Grid describes the places of a grid
--   Users           app/services/user_service.py and app/routers/users.py
--   Auth            app/services/auth_service.py, app/core and app/routers/auth.py; `Crypto` says what
--                   is relied on of passlib and jose
--   Worker          app/worker.py and app/services/notification_service.py, from events to e-mails;
--                   Worker.Connect has the retries of `wait_for_kafka` and the stop of the consumer
--   App             app/main.py: the health check, the handlers of exceptions, the middleware;
--                   App.Lifespan is the start and the stop, with app/redis.py. App.Serve puts a request
--                   through the middleware, its endpoint and the handlers
--   Api             app/routers with app/core/dependencies.py, app/schemas and app/db.py around them:
--                   `answer` serves one request. Api.Routes has the routes, what each asks of its
--                   caller and of its body, and the contents of the answers. Api.Table has the
--                   decorators with their paths, models and statuses, and the routers as app/main.py
--                   mounts them; `Starlette` says what is relied on of the dispatch
--   CreateAdmin     app/scripts/create_admin.py
--   Migrations      alembic/versions/001_initial_tables.py as two lists of operations; `Ddl` says what is
--                   relied on of Alembic and PostgreSQL to run one. Migrations.Models has the tables that
--                   app/models declares, and Migrations.Metadata what app/db.py and alembic/env.py do
--                   with a database; `Sqlalchemy` says what is relied on of create_all and drop_all, and
--                   `Alembic` which operations are pending at the revision that alembic_version holds
--   Examples        a small library of halls, seats and users, on which the theorems are tried
--
-- Conventions. A table is a list of rows in the order of insertion, a query `where` a selection from
-- it, and a query by key the first row with that key. Money is in cents. A date is its ordinal, and
-- all datetimes have the same offset from UTC. Hours, which the code computes as floats, are compared
-- as microseconds: both are exact there. A text that the code formats (an error's detail, a key of
-- Redis, the claims of a token, an event) is kept as its parts. A list in the cache is kept as the
-- list, since reading JSON gives back what was written. Every definition is total and none runs on fuel.
--
-- What the database refuses for its size, with status 500: a price or a rate past `max_money`, a capacity,
-- row or number of a seat past `max_integer`, an OFFSET past `max_offset`, an e-mail past `max_email`, and
-- the first number of a path that its column cannot hold (`numbers_fit`, of the routes in Api). The other
-- numbers of a request, the seats of a booking and the seat of a path, are within their columns, and a rate
-- has no more than two decimals.
--
-- In Booking.Create no key of Redis expires during a call. In Booking.Race a session reads what other
-- sessions have committed (READ COMMITTED), and any key may run out between two steps.
--
-- In Kafka.Connect and Worker.Connect a function of the number of the attempt says how it ends; the ten
-- attempts of the code are structural recursion on the rounds that are left. The e-mail of a body is the
-- normal form that `EmailStr` makes of the text that was sent; in `post_login` of Auth that text and how it
-- is read are arguments. In Api, which e-mails `EmailStr` accepts, the clock, the uuid of a lock, and whether the limiter lets a request pass are parameters.
--
-- A path is matched as the list of its segments, and a number in it is written as any text that is
-- neither empty nor "me". That FastAPI's own handlers answer an HTTPException and an error of validation,
-- and no other exception, is a hypothesis of App.Serve.
--
-- Not modelled: a database, Redis or broker that cannot be reached while a request is served; the reading of numbers, dates, JSON and query strings from a request, CORS and the schema
-- of the documentation (app/main.py), which are the framework's; the counting of the limiter
-- (app/limiter.py), which is the library's; the environment that app/config.py is read from, the engine
-- and the connections; the printing and the arguments of app/scripts/create_admin.py; and the
-- configuration of Alembic (alembic/env.py). Schemas that no route uses (`UserCreate`,
-- `BookingListResponse`) are left out, and so are the texts of the documentation.
pub mod Common
pub mod Examples
pub mod Exceptions
pub mod Settings
pub mod Datetime
pub mod Model
pub mod Schemas
pub mod Redis
pub mod Action
pub mod Session
pub mod Kafka
pub mod Pagination
pub mod Sorting
pub mod Patch
pub mod Halls
pub mod Booking
pub mod Seats
pub mod Users
pub mod Api
pub mod App
pub mod Auth
pub mod Worker
pub mod CreateAdmin
pub mod Migrations
