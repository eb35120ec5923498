-- ===== src/Api/Table/QueryStatuses.antt =====
-- The statuses of the errors that get_booking and list_bookings of app/services/booking_service.py
-- raise.
use booking_api_service.Common.{
  ℕ, some, List, [], ◌∷◌, true, ◌≡◌, arith, take, drop, ◌-◌, ◌*◌, inl, inr, refl, Bool-cases,
}
use booking_api_service.Exceptions.{ok, status_code}
use booking_api_service.Model.{Seat, Booking, BookingSeat, Db}
use booking_api_service.Sorting.{Sorting}
use booking_api_service.Pagination.{pagination_params, is_past_offset, page_of}
use booking_api_service.Booking.Queries
use booking_api_service.Api.Routes.{page_is_valid}
use booking_api_service.Api.Table.Statuses.{Allows, >>=-Allows}

-- `build_booking_response` looks a seat up in a dictionary.
module _ (rest : List ℕ) where
  abbrev with_500 : List ℕ
  with_500 = 500 ∷ rest

  seat_responses-Allows :
      (seats : List Seat) (rows : List BookingSeat)
      → Allows with_500 (Queries.seat_responses seats rows)
  unfolding Queries.seat_responses status_code
  seat_responses-Allows seats [] = tt
  seat_responses-Allows seats (bs ∷ rows) = ground (arith, seat_responses-Allows seats rows)

  pub build_booking_response-Allows :
      (db : Db) (b : Booking) → Allows with_500 (Queries.build_booking_response db b)
  unfolding Queries.build_booking_response
  build_booking_response-Allows db b =
      >>=-Allows with_500 _ _ (seat_responses-Allows _ _) (λ seats. tt)

  build_responses-Allows :
      (db : Db) (bs : List Booking) → Allows with_500 (Queries.build_responses db bs)
  unfolding Queries.build_responses
  build_responses-Allows db [] = tt
  build_responses-Allows db (b ∷ bs) =
      >>=-Allows with_500 (Queries.build_booking_response db b) _
        (build_booking_response-Allows db b)
        (λ response.
          >>=-Allows with_500 (Queries.build_responses db bs) _ (build_responses-Allows db bs)
            (λ rest. tt))

pub get_booking-Allows :
    (db : Db) (booking_id user_id : ℕ)
    → Allows (500 ∷ 404 ∷ []) (Queries.get_booking db booking_id user_id)
unfolding Queries.get_booking
get_booking-Allows db booking_id user_id =
    >>=-Allows (500 ∷ 404 ∷ []) (Queries.get_booking_by_id db booking_id (some user_id)) _ found
      (build_booking_response-Allows (404 ∷ []) db)
  where
    found : Allows (500 ∷ 404 ∷ []) (Queries.get_booking_by_id db booking_id (some user_id))
    found = unfold Queries.get_booking_by_id in unfold status_code in ground arith

pub valid_params :
    (page page_size : ℕ)
    → page_is_valid page page_size ≡ true
    → pagination_params page page_size ≡ ok (record { page = page; page_size = page_size })
unfolding pagination_params
valid_params page page_size h = ground arith

pub valid_page :
    {A : Type 0} (page page_size : ℕ) (rows : List A)
    → page_is_valid page page_size ≡ true
    → page_of page page_size rows ≡ ok (take page_size (drop ((page - 1) * page_size) rows))
unfolding page_of
valid_page page page_size rows h = ground arith

pub list_bookings-Allows :
    (S : Sorting) (db : Db) (user_id page page_size : ℕ)
    → page_is_valid page page_size ≡ true
    → Allows (500 ∷ []) (Queries.list_bookings S db user_id page page_size)
unfolding Queries.list_bookings Queries.get_user_bookings status_code
list_bookings-Allows S db user_id page page_size h =
    elim (Bool-cases (is_past_offset page page_size)) [
      | inl far ↦ rw (valid_params page page_size h, far) refl
      | inr near ↦
          rw
            (
              valid_params page page_size h,
              near,
              valid_page page page_size (Queries.newest_bookings S db user_id) h,
            )
            (>>=-Allows (500 ∷ []) (Queries.build_responses db _) _ (build_responses-Allows [] db _)
              (λ items. tt))
    ]
