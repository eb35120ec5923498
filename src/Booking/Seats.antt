-- ===== src/Booking/Seats.antt =====
-- `validate_seats_exist` of app/services/booking_service.py.
pub mod Exist
use booking_api_service.Common.{
  ℕ, List, [], ◌∷◌, map, Bool, not, ◌&&◌, ◌==◌, if◌then◌else◌, length, select, contains,
}
use booking_api_service.Exceptions.{Result, ok, err, seat_not_found, seats_not_found}
use booking_api_service.Model.{Seat, Db}

-- `set(xs)`, in the order of the last occurrences; only its members count.
unfoldable pub to_set : List ℕ → List ℕ
to_set [] = []
to_set (x ∷ xs) = if contains x xs then to_set xs else x ∷ to_set xs

-- `set(seat_ids) - found_ids`
unfoldable pub missing_ids : List ℕ → List ℕ → List ℕ
unfolding to_set
missing_ids seat_ids found_ids = select (λ id. not (contains id found_ids)) (to_set seat_ids)

abbrev pub is_requested : ℕ → List ℕ → Seat → Bool
is_requested hall_id seat_ids s = contains s.id seat_ids && s.hall_id == hall_id && s.is_active

unfoldable pub validate_seats_exist : Db → ℕ → List ℕ → Result (List Seat)
validate_seats_exist db hall_id seat_ids =
    let seats = select (is_requested hall_id seat_ids) db.seats in
    if length seats == length seat_ids
    then ok seats
    else err (seat_not_found (seats_not_found (missing_ids seat_ids (map (λ s. s.id) seats))))
