-- ===== src/Api/Table/SlotStatuses.antt =====
-- The statuses of the errors that get_available_slots of app/services/booking_service.py raises.
use booking_api_service.Common.{
  ℕ, Option, none, some, List, [], ◌∷◌, Bool, true, false, refl, arith, find, ◌&&◌, ◌==◌,
}
use booking_api_service.Exceptions.{
  Result, ok, err, status_code, Detail, default_hall_not_found, value_error,
}
use booking_api_service.Exceptions.Results
use booking_api_service.Exceptions.Results.{or_raise}
use booking_api_service.Settings.{Settings}
use booking_api_service.Model.{Booking, Db}
use booking_api_service.Schemas.{TimeSlotResponse}
use booking_api_service.Redis.{Redis, Value, json, token, slots}
use booking_api_service.Booking.Create.{World}
use booking_api_service.Booking.Slots.{
  Hours, add_seat, add_seats, add_hours, add_bookings, make_slots, calculate_slots, store_slots,
  answer_cached, get_available_slots, no_seats, day_bookings,
}
use booking_api_service.Api.Table.Statuses.{Allows, Raises, >>=-Allows}

add_seats-Allows :
    (hour : ℕ) (ids : List ℕ) (m : Hours) → Allows (500 ∷ 404 ∷ []) (add_seats hour ids m)
unfolding add_seats add_seat status_code
add_seats-Allows hour [] m = tt
add_seats-Allows hour (id ∷ ids) m =
    >>=-Allows (500 ∷ 404 ∷ []) (add_seat hour id m) _ (ground arith) (add_seats-Allows hour ids)

add_hours-Allows :
    (ids hours : List ℕ) (m : Hours) → Allows (500 ∷ 404 ∷ []) (add_hours ids hours m)
unfolding add_hours
add_hours-Allows ids [] m = tt
add_hours-Allows ids (hour ∷ hours) m =
    >>=-Allows (500 ∷ 404 ∷ []) (add_seats hour ids m) _ (add_seats-Allows hour ids m)
      (add_hours-Allows ids hours)

add_bookings-Allows :
    (db : Db) (bs : List Booking) (m : Hours) → Allows (500 ∷ 404 ∷ []) (add_bookings db bs m)
unfolding add_bookings
add_bookings-Allows db [] m = tt
add_bookings-Allows db (b ∷ bs) m =
    >>=-Allows (500 ∷ 404 ∷ []) (add_hours _ _ m) _ (add_hours-Allows _ _ m)
      (add_bookings-Allows db bs)

make_slots-Allows :
    (total : ℕ) (m : Hours) (hours : List ℕ) → Allows (500 ∷ 404 ∷ []) (make_slots total m hours)
unfolding make_slots status_code
make_slots-Allows total m [] = tt
make_slots-Allows total m (hour ∷ hours) = ground (arith, make_slots-Allows total m hours)

raise_if-Allows :
    (b : Bool) (d : Detail) → Allows (500 ∷ 404 ∷ []) (Results.raise_if b (value_error d))
unfolding status_code
raise_if-Allows true d = refl
raise_if-Allows false d = tt

calculate_slots-Allows :
    (settings : Settings) (db : Db) (hall_id date : ℕ)
    → Allows (500 ∷ 404 ∷ []) (calculate_slots settings db hall_id date)
unfolding calculate_slots
calculate_slots-Allows settings db hall_id date =
    >>=-Allows statuses
      (or_raise (find (λ h. h.id == hall_id && h.is_active) db.halls) default_hall_not_found) _
      (unfold status_code in ground arith)
      (λ hall. >>=-Allows statuses (Results.raise_if _ _) _ (raise_if-Allows _ _) (λ u.
        >>=-Allows statuses
          (add_bookings db (day_bookings settings db hall_id date) (no_seats settings)) _
          (add_bookings-Allows db _ _) (λ m. make_slots-Allows _ m _)))
  where
    statuses : List ℕ
    statuses = 500 ∷ 404 ∷ []

module _ {R : Redis} where
  stored :
      (hall_id date : ℕ) (r : Result (List TimeSlotResponse)) (w : World R)
      → Allows (500 ∷ 404 ∷ []) r
      → Allows (500 ∷ 404 ∷ []) (store_slots hall_id date r w).0
  unfolding store_slots
  stored hall_id date (err e) w h = h
  stored hall_id date (ok xs) w h = tt

  pub get_available_slots-Raises :
      (settings : Settings) (hall_id date : ℕ)
      → Raises (500 ∷ 404 ∷ []) (get_available_slots {R = R} settings hall_id date)
  unfolding get_available_slots answer_cached status_code
  get_available_slots-Raises settings hall_id date w = cached (R.get w.redis (slots hall_id date))
    where
      cached :
          (v : Option Value)
          → Allows
              (500 ∷ 404 ∷ [])
              (answer_cached v
                (λ w'.
                  store_slots hall_id date (calculate_slots settings w'.current hall_id date) w')
                w).0
      cached none = stored hall_id date _ w (calculate_slots-Allows settings w.current hall_id date)
      cached (some (json xs)) = tt
      cached (some (token t)) = refl
