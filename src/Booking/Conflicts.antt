-- ===== src/Booking/Conflicts.antt =====
-- `check_seat_conflicts` of app/services/booking_service.py.
pub mod Free
use booking_api_service.Common.{
  ℕ, zero, suc, Option, none, some, List, [], ◌∷◌, map, flat_map, Bool, true, false, not, ◌&&◌,
  ◌==◌, ltb, select, contains,
}
use booking_api_service.Exceptions.{Result, ok, err, booking_conflict, seats_booked}
use booking_api_service.Datetime.{Datetime, instant}
use booking_api_service.Model.{Seat, Booking, BookingSeat, Db, is_confirmed}

-- `if exclude_booking_id: query.where(Booking.id != exclude_booking_id)`: neither `None` nor 0
-- excludes anything.
abbrev pub is_excluded : Option ℕ → ℕ → Bool
is_excluded none id = false
is_excluded (some zero) id = false
is_excluded (some (suc n)) id = id == suc n

abbrev pub is_overlapping : Datetime → Datetime → Booking → Bool
is_overlapping start_time end_time b =
    ltb (instant b.start_time) (instant end_time) && ltb (instant start_time) (instant b.end_time)

-- The conditions of the query on the joined booking.
abbrev pub is_conflicting : ℕ → Datetime → Datetime → Option ℕ → BookingSeat → Booking → Bool
is_conflicting hall_id start_time end_time exclude_booking_id bs b =
    b.id == bs.booking_id
    && b.hall_id == hall_id
    && is_confirmed b.status
    && is_overlapping start_time end_time b
    && not (is_excluded exclude_booking_id b.id)

-- The join of the seats with their `booking_seats` and the bookings of these.
unfoldable pub conflicting_seats : Db → ℕ → List ℕ → Datetime → Datetime → Option ℕ → List Seat
unfolding flat_map
conflicting_seats db hall_id seat_ids start_time end_time exclude_booking_id =
    flat_map
      (λ s.
        flat_map
          (λ bs.
            map (λ b. s)
              (select (is_conflicting hall_id start_time end_time exclude_booking_id bs)
                db.bookings))
          (select (λ bs. bs.seat_id == s.id) db.booking_seats))
      (select (λ s. contains s.id seat_ids) db.seats)

abbrev pub refuse_conflicts : List Seat → Result (List Seat)
refuse_conflicts [] = ok []
refuse_conflicts (s ∷ seats) =
    err (booking_conflict (seats_booked (map (λ x. (x.row, x.number)) (s ∷ seats))))

unfoldable pub check_seat_conflicts :
    Db → ℕ → List ℕ → Datetime → Datetime → Option ℕ → Result (List Seat)
unfolding conflicting_seats
check_seat_conflicts db hall_id seat_ids start_time end_time exclude_booking_id =
    refuse_conflicts (conflicting_seats db hall_id seat_ids start_time end_time exclude_booking_id)
