-- ===== src/Booking/Queries.antt =====
-- The reads of app/services/booking_service.py, `build_booking_response`, and the routes of
-- app/routers/bookings.py that answer with bookings.
pub mod Owner
pub mod Known
use booking_api_service.Common.{
  ℕ, Option, none, some, List, [], ◌∷◌, map, Bool, true, ◌&&◌, ◌==◌, find, select, length, contains,
}
use booking_api_service.Exceptions.{
  Result, ok, err, key_error, database_error, default_booking_not_found,
}
use booking_api_service.Exceptions.Results.{◌>>=◌, ◌>>◌, or_raise, raise_if}
use booking_api_service.Model.{Seat, Booking, BookingSeat, Db}
use booking_api_service.Schemas.{BookingResponse, BookingSeatResponse}
use booking_api_service.Pagination.{
  PaginationParams, PaginatedResponse, pagination_params, is_past_offset, page_of, create,
}
use booking_api_service.Sorting.{Sorting}
use booking_api_service.Booking.Cancel.{name_or_unknown}

-- `where(Booking.user_id == user_id)`, unless the caller gives no user
abbrev pub is_visible : Option ℕ → Booking → Bool
is_visible none b = true
is_visible (some user_id) b = b.user_id == user_id

-- A `booking_id` of the path is within an `Integer` (`numbers_fit` of Api).
unfoldable pub get_booking_by_id : Db → ℕ → Option ℕ → Result Booking
get_booking_by_id db booking_id user_id =
    or_raise (find (λ b. b.id == booking_id && is_visible user_id b) db.bookings)
      default_booking_not_found

-- `booking.booking_seats`
abbrev pub rows_of : Db → Booking → List BookingSeat
rows_of db booking = select (λ bs. bs.booking_id == booking.id) db.booking_seats

-- `seats[bs.seat_id]` for each row, in the dictionary of the seats that the rows name
unfoldable pub seat_responses : List Seat → List BookingSeat → Result (List BookingSeatResponse)
seat_responses seats [] = ok []
seat_responses seats (bs ∷ rows) = do
  s ← or_raise (find (λ s. s.id == bs.seat_id) seats) key_error
  rest ← seat_responses seats rows
  ok (record { id = bs.seat_id; row = s.row; number = s.number } ∷ rest)

unfoldable pub build_booking_response : Db → Booking → Result BookingResponse
build_booking_response db booking = do
  seats ←
      seat_responses
        (select (λ s. contains s.id (map (λ bs. bs.seat_id) (rows_of db booking))) db.seats)
        (rows_of db booking)
  ok (record {
    id = booking.id;
    user_id = booking.user_id;
    hall_id = booking.hall_id;
    hall_name = name_or_unknown (find (λ h. h.id == booking.hall_id) db.halls);
    seats = seats;
    start_time = booking.start_time;
    end_time = booking.end_time;
    total_price = booking.total_price;
    status = booking.status;
    created_at = booking.created_at;
  })

unfoldable pub build_responses : Db → List Booking → Result (List BookingResponse)
build_responses db [] = ok []
build_responses db (b ∷ bs) = do
  response ← build_booking_response db b
  rest ← build_responses db bs
  ok (response ∷ rest)

-- The route `GET /bookings/{booking_id}`.
unfoldable pub get_booking : Db → ℕ → ℕ → Result BookingResponse
unfolding get_booking_by_id
get_booking db booking_id user_id = do
  booking ← get_booking_by_id db booking_id (some user_id)
  build_booking_response db booking

-- `S` is the sorting of one query: another query may order rows with one `created_at` otherwise.
module _ (S : Sorting) where
  -- The bookings of a user, the newest first.
  unfoldable pub newest_bookings : Db → ℕ → List Booking
  newest_bookings db user_id =
      S.order_by_desc Booking (λ b. (b.created_at, 0))
        (select (λ b. b.user_id == user_id) db.bookings)

  unfoldable pub get_user_bookings : Db → ℕ → ℕ → ℕ → Result (List Booking × ℕ)
  get_user_bookings db user_id page page_size = do
    raise_if (is_past_offset page page_size) database_error
    bookings ← page_of page page_size (newest_bookings db user_id)
    ok (bookings, length (select (λ b. b.user_id == user_id) db.bookings))

  -- The route `GET /bookings/`.
  unfoldable pub list_bookings : Db → ℕ → ℕ → ℕ → Result (PaginatedResponse BookingResponse)
  unfolding get_user_bookings
  list_bookings db user_id page page_size = do
    params ← pagination_params page page_size
    (bookings, total) ← get_user_bookings db user_id params.page params.page_size
    items ← build_responses db bookings
    ok (create items total params.page params.page_size)
