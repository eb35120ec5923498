-- ===== src/Examples/Races.antt =====
-- Two workers that serve Alice and Bob at the same time.
use booking_api_service.Common.{ℕ, zero, suc, ◌≡◌, refl, ap, String, [], ◌∷◌, none, arith}
use Prim.Native.String.{◌∷◌ as push}
use booking_api_service.Settings.{default_settings}
use booking_api_service.Redis.{table_redis, token}
use booking_api_service.Redis.Lock.{release_lock}
use booking_api_service.Booking.Create.{new_booking}
use booking_api_service.Booking.Exclusive.{IsConsistent}
use booking_api_service.Booking.Race.{
  Job, System, Reach, key_of, idle, holding, admitted, failing, finished, unwinds, passes, locks,
  here, next, update,
}
use booking_api_service.Booking.Race.Exclusion.{lock_excludes}
use booking_api_service.Booking.Race.Ownership.{Keeps, Step-Keeps}
use booking_api_service.Booking.Race.Overlap.{IsReady, seat_sold_twice, both_committed}
use booking_api_service.Examples.{small_database, hall, alice, bob, request, empty_db}

-- A token for each worker.
abbrev token_of : ℕ → String
token_of zero = ""
token_of (suc n) = push "a" (token_of n)

token_of-injective : (i j : ℕ) → token_of i ≡ token_of j → i ≡ j
token_of-injective zero zero e = refl
token_of-injective zero (suc j) e = cc
token_of-injective (suc i) zero e = cc
token_of-injective (suc i) (suc j) e = ap suc (token_of-injective i j cc)

-- Worker 0 serves Alice, from ten to twelve; the others serve Bob, from eleven to thirteen. Both
-- ask for seat 2.
abbrev jobs : ℕ → Job
jobs zero = record { user_id = 1; rq = request (1 ∷ 2 ∷ []) 10 12; token = "" }
jobs (suc i) = record { user_id = 2; rq = request (2 ∷ 3 ∷ []) 11 13; token = token_of (suc i) }

distinct : (i j : ℕ) → (jobs i).token ≡ (jobs j).token → i ≡ j
distinct zero zero e = refl
distinct zero (suc j) e = cc
distinct (suc i) zero e = cc
distinct (suc i) (suc j) e = token_of-injective (suc i) (suc j) e

abbrev Sys : Type 0
Sys = System default_settings small_database table_redis jobs

abbrev start : Sys
start = record { committed = empty_db; redis = λ k. none; pc = λ i. idle }

ready : IsReady default_settings small_database table_redis jobs start 1 2
unfolding booking_api_service.Booking.Create.admit
    booking_api_service.Booking.Slot.validate_time_slot
    booking_api_service.Booking.Seats.validate_seats_exist
    booking_api_service.Booking.Conflicts.check_seat_conflicts
    booking_api_service.Booking.Create.new_booking booking_api_service.Booking.Slot.calculate_price
    booking_api_service.Booking.Slot.booked_hours
ready = record {
  all_idle = λ k. refl;
  hall = hall;
  hall' = hall;
  user = alice;
  user' = bob;
  admitted_first = refl;
  admitted_second = refl;
  free_first = refl;
  free_second = refl;
  id_new = refl;
  id_new' = refl;
  ids_differ = λ e. omega arith;
  price_fits = omega arith;
  price_fits' = omega arith;
}

seat_sold_twice_example :
    (t : Sys) × Reach default_settings small_database table_redis jobs start t
    × (t.committed
        ≡ both_committed default_settings small_database table_redis jobs start 1 2 ready)
    × (¬ IsConsistent t.committed)
unfolding ready new_booking
seat_sold_twice_example =
    seat_sold_twice default_settings small_database table_redis jobs start 1 2 ready 2 refl refl
      refl (record { starts_before_end = omega arith; ends_after_start = omega arith })

abbrev alice_holds : Sys
alice_holds = record {
  committed = empty_db;
  redis =
      table_redis.set start.redis (key_of default_settings small_database table_redis jobs 0)
        (token "") 10;
  pc = update (update start.pc 0 (admitted hall alice)) 0 (holding hall alice);
}

alice_locks : Reach default_settings small_database table_redis jobs start alice_holds
unfolding booking_api_service.Booking.Create.admit
    booking_api_service.Booking.Slot.validate_time_slot
    booking_api_service.Booking.Seats.validate_seats_exist
    booking_api_service.Booking.Conflicts.check_seat_conflicts
    booking_api_service.Redis.Lock.acquire_lock
alice_locks =
    next (next here (passes 0 hall alice refl refl))
      (locks 0 hall alice alice_holds.redis refl refl)

lock_excludes_example : ◌≡◌ {A = ℕ} 0 0
unfolding alice_locks
lock_excludes_example =
    lock_excludes default_settings small_database table_redis jobs distinct start alice_holds
      (λ i. refl) alice_locks ((tt, tt), tt) 0 0 refl refl refl

-- Bob's request has failed; its lock ran out, and Alice took hers.
abbrev bob_fails : Sys
bob_fails = record alice_holds { pc = update alice_holds.pc 1 failing }

abbrev bob_gave_up : Sys
bob_gave_up = record {
  committed = empty_db;
  redis =
      (release_lock table_redis alice_holds.redis
        (key_of default_settings small_database table_redis jobs 1) "a").0;
  pc = update bob_fails.pc 1 finished;
}

Step-Keeps_example :
    Keeps default_settings small_database table_redis jobs distinct bob_fails bob_gave_up 0
Step-Keeps_example =
    Step-Keeps default_settings small_database table_redis jobs distinct (unwinds 1 refl) 0
      (record { inside = refl; held = refl })
