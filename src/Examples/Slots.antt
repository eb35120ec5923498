-- ===== src/Examples/Slots.antt =====
-- The table of free seats of the small library.
use booking_api_service.Common.{ℕ, ◌≡◌, refl, List, [], map, true, In, inl, inr, arith, range, ◌+◌}
use booking_api_service.Common.Int.{pos}
use booking_api_service.Exceptions.{ok}
use booking_api_service.Settings.{default_settings}
use booking_api_service.Model.{Seat, Booking, BookingSeat, confirmed}
use booking_api_service.Schemas.{TimeSlotResponse}
use booking_api_service.Redis.{table_redis, slots}
use booking_api_service.Booking.Create.{World}
use booking_api_service.Booking.Slots.{calculate_slots, get_available_slots, slot_of}
use booking_api_service.Booking.Slots.Correct.{IsTimed}
use booking_api_service.Booking.Slots.Described.{IsSlot, calculate_slots_table, free_seats_nonneg}
use booking_api_service.Booking.Slots.Cache.{get_available_slots_stale}
use booking_api_service.Examples.{hall, seat, booked_db, empty_db, world_of}

times_are_valid : (b : Booking) → In b booked_db.bookings → IsTimed b
times_are_valid b (inl e) = rw e (record {
  start_valid = record {
    hour_range = omega arith;
    minute_range = omega arith;
    second_range = omega arith;
    microsecond_range = omega arith;
  };
  end_valid = record {
    hour_range = omega arith;
    minute_range = omega arith;
    second_range = omega arith;
    microsecond_range = omega arith;
  };
  ordered = omega arith;
})
times_are_valid b (inr m) = elim m [ ]

calculate_slots_table_example :
    (table : List TimeSlotResponse) × (calculate_slots default_settings booked_db 1 700000
      ≡ ok table)
    × (map (λ (s : TimeSlotResponse). s.hour) table ≡ range 9 23)
    × ((slot : TimeSlotResponse) → In slot table → IsSlot default_settings booked_db 1 700000 slot)
calculate_slots_table_example =
    calculate_slots_table default_settings booked_db 1 700000 hall refl (omega arith) (omega arith)
      times_are_valid

active_seat_of_row :
    (b : Booking) (r : BookingSeat)
    → In b booked_db.bookings
    → b.hall_id ≡ 1
    → b.status ≡ confirmed
    → In r booked_db.booking_seats
    → r.booking_id ≡ b.id
    → (s : Seat) × In s booked_db.seats
      × (s.id ≡ r.seat_id)
      × (s.hall_id ≡ 1)
      × (s.is_active ≡ true)
active_seat_of_row b r i h c (inl e) o = (seat 1, inl refl, rw e refl, refl, refl)
active_seat_of_row b r i h c (inr (inl e)) o = (seat 2, inr (inl refl), rw e refl, refl, refl)
active_seat_of_row b r i h c (inr (inr m)) o = elim m [ ]

free_seats_nonneg_example :
    (table : List TimeSlotResponse) × (calculate_slots default_settings booked_db 1 700000
      ≡ ok table)
    × ((slot : TimeSlotResponse)
        → In slot table
        → (free : ℕ) × (slot.free_seats ≡ pos free) × (free + slot.booked_seats ≡ slot.total_seats))
free_seats_nonneg_example =
    free_seats_nonneg default_settings booked_db 1 700000 hall refl (omega arith) (omega arith)
      times_are_valid
      (λ b r i h c m o. let (s, j, e, q, a) = active_seat_of_row b r i h c m o in (s, j, e, (q, a)))

abbrev first_answer : List TimeSlotResponse
first_answer = map (λ h. slot_of 3 h []) (range 9 23)

abbrev cached_world : World table_redis
cached_world = (get_available_slots default_settings 1 700000 (world_of empty_db)).1

-- Alice's booking does not show in what was cached before it.
get_available_slots_stale_example :
    (calculate_slots default_settings empty_db 1 700000 ≡ ok first_answer)
    × ((later : World table_redis)
        → table_redis.get later.redis (slots 1 700000)
          ≡ table_redis.get cached_world.redis (slots 1 700000)
        → get_available_slots default_settings 1 700000 later ≡ (ok first_answer, later))
unfolding get_available_slots booking_api_service.Booking.Slots.store_slots calculate_slots
    booking_api_service.Booking.Slots.add_bookings booking_api_service.Booking.Slots.make_slots
    booking_api_service.Booking.Slots.no_seats
get_available_slots_stale_example =
    get_available_slots_stale default_settings table_redis 1 700000 (world_of empty_db) cached_world
      first_answer refl refl
