-- ===== src/Api/Routes.antt =====
-- The requests of app/routers, what each asks of its caller and of its body, and the contents of the
-- answers.
use booking_api_service.Common.{
  ℕ, string_length, String, Option, List, [], ◌∷◌, Bool, true, false, ◌&&◌, ◌||◌, leb, ltb, length,
}
use booking_api_service.Model.{max_integer}
use booking_api_service.Patch.{Patch, value}
use booking_api_service.Schemas.{BookingCreate, BookingResponse, TimeSlotResponse}
use booking_api_service.Pagination.{PaginatedResponse}
use booking_api_service.Auth.{RegisterRequest, RegisterResponse}
use booking_api_service.Users.{UserUpdate, UserResponse}
use booking_api_service.Halls.{HallCreate, HallUpdate, HallResponse}
use booking_api_service.Seats.{SeatCreate, SeatBulkCreate}

-- `SeatResponse` of app/schemas/seat.py, and `LoginRequest` of app/schemas/auth.py
pub record SeatResponse : Type 0 where
  pub id : ℕ
  pub hall_id : ℕ
  pub row : ℕ
  pub number : ℕ
  pub is_active : Bool

pub record LoginRequest : Type 0 where
  pub email : String
  pub password : String

-- The routes of app/routers/auth.py, which anyone may call.
pub data PublicRoute : Type 0 where
  signup : RegisterRequest → PublicRoute
  login : LoginRequest → PublicRoute

-- The other routes, by their endpoints.
pub data Route : Type 0 where
  get_current_user_profile : Route
  list_users : (page page_size : ℕ) → Route
  get_user : (user_id : ℕ) → Route
  update_user : (user_id : ℕ) → UserUpdate → Route
  list_halls : Route
  get_hall : (hall_id : ℕ) → Route
  create_hall : HallCreate → Route
  update_hall : (hall_id : ℕ) → HallUpdate → Route
  delete_hall : (hall_id : ℕ) → Route
  list_seats : (hall_id : ℕ) → Route
  create_seat : (hall_id : ℕ) → SeatCreate → Route
  bulk_create_seats : (hall_id : ℕ) → SeatBulkCreate → Route
  delete_seat : (hall_id seat_id : ℕ) → Route
  list_bookings : (page page_size : ℕ) → Route
  get_booking : (booking_id : ℕ) → Route
  create_booking : BookingCreate → Route
  cancel_booking : (booking_id : ℕ) → Route
  get_availability : (hall_id date : ℕ) → Route

-- A request with its `Authorization` header, where the route reads it.
pub data Request : Type 0 where
  public_request : PublicRoute → Request
  user_request : Option String → Route → Request

pub data Content : Type 0 where
  registered : RegisterResponse → Content
  access_token : String → Content
  user_content : UserResponse → Content
  user_page_content : PaginatedResponse UserResponse → Content
  hall_content : HallResponse → Content
  halls_content : List HallResponse → Content
  seat_content : SeatResponse → Content
  seats_content : List SeatResponse → Content
  booking_content : BookingResponse → Content
  booking_page_content : PaginatedResponse BookingResponse → Content
  slots_content : List TimeSlotResponse → Content
  no_content : Content

-- `AdminUser` is among the dependencies of the endpoint; otherwise it is `CurrentUser`. For the routes
-- of app/routers/users.py, app/routers/halls.py and app/routers/seats.py; those of
-- app/routers/bookings.py never ask for an administrator.
abbrev pub users_need_admin : Route → Bool
users_need_admin (list_users _ _) = true
users_need_admin (get_user _) = true
users_need_admin (update_user _ _) = true
users_need_admin _ = false

abbrev pub halls_need_admin : Route → Bool
halls_need_admin (create_hall _) = true
halls_need_admin (update_hall _ _) = true
halls_need_admin (delete_hall _) = true
halls_need_admin _ = false

abbrev pub seats_need_admin : Route → Bool
seats_need_admin (create_seat _ _) = true
seats_need_admin (bulk_create_seats _ _) = true
seats_need_admin (delete_seat _ _) = true
seats_need_admin _ = false

unfoldable pub needs_admin : Route → Bool
needs_admin route = users_need_admin route || (halls_need_admin route || seats_need_admin route)

-- `min_length` and `max_length`
abbrev pub has_length : ℕ → ℕ → String → Bool
has_length least most s = leb least (string_length s) && leb (string_length s) most

-- The test of a field that may be left out or null.
abbrev pub optional : {A : Type 0} → (A → Bool) → Patch A → Bool
optional test (value a) = test a
optional test _ = true

-- The bounds of the query parameters of a page.
abbrev pub page_is_valid : ℕ → ℕ → Bool
page_is_valid page page_size = leb 1 page && (leb 1 page_size && leb page_size 100)

-- The bounds that `Field` declares, for each schema of app/schemas.
abbrev pub hall_create_is_valid : HallCreate → Bool
hall_create_is_valid rq = has_length 1 100 rq.name && (ltb 0 rq.capacity && ltb 0 rq.hourly_rate)

abbrev pub hall_update_is_valid : HallUpdate → Bool
hall_update_is_valid rq =
    optional (has_length 1 100) rq.name
    && (optional (ltb 0) rq.capacity && optional (ltb 0) rq.hourly_rate)

abbrev pub seat_create_is_valid : SeatCreate → Bool
seat_create_is_valid rq = leb 1 rq.row && leb 1 rq.number

abbrev pub seat_bulk_create_is_valid : SeatBulkCreate → Bool
seat_bulk_create_is_valid rq = leb 1 rq.rows && leb 1 rq.seats_per_row

abbrev pub booking_create_is_valid : BookingCreate → Bool
booking_create_is_valid rq = leb 1 (length rq.seat_ids)

abbrev pub fits_integer : ℕ → Bool
fits_integer n = leb n max_integer

-- The driver refuses a number past the `Integer` column that it is compared with: the one in the path by
-- which the endpoint's first query looks.
unfoldable pub numbers_fit : Route → Bool
numbers_fit (get_user user_id) = fits_integer user_id
numbers_fit (update_user user_id _) = fits_integer user_id
numbers_fit (get_hall hall_id) = fits_integer hall_id
numbers_fit (update_hall hall_id _) = fits_integer hall_id
numbers_fit (delete_hall hall_id) = fits_integer hall_id
numbers_fit (list_seats hall_id) = fits_integer hall_id
numbers_fit (create_seat hall_id _) = fits_integer hall_id
numbers_fit (bulk_create_seats hall_id _) = fits_integer hall_id
numbers_fit (delete_seat hall_id _) = fits_integer hall_id
numbers_fit (get_booking booking_id) = fits_integer booking_id
numbers_fit (create_booking rq) = fits_integer rq.hall_id
numbers_fit (cancel_booking booking_id) = fits_integer booking_id
numbers_fit (get_availability hall_id _) = fits_integer hall_id
numbers_fit _ = true

abbrev pub all_valid : (String → Bool) → List UserResponse → Bool
all_valid valid_email [] = true
all_valid valid_email (u ∷ us) = valid_email u.email && all_valid valid_email us

-- `UserResponse.email` is an `EmailStr` too: a user whose e-mail is none cannot be answered with.
unfoldable pub content_is_valid : (String → Bool) → Content → Bool
content_is_valid valid_email (user_content u) = valid_email u.email
content_is_valid valid_email (user_page_content page) = all_valid valid_email page.items
content_is_valid valid_email _ = true

-- `EmailStr` is a test of the library pydantic. The e-mail of a body is the normal form that it makes.
module _ (valid_email : String → Bool) where
  abbrev pub register_is_valid : RegisterRequest → Bool
  register_is_valid rq = valid_email rq.email && has_length 8 100 rq.password

  abbrev pub login_is_valid : LoginRequest → Bool
  login_is_valid rq = valid_email rq.email

  abbrev pub user_update_is_valid : UserUpdate → Bool
  user_update_is_valid rq = optional valid_email rq.email

  unfoldable pub public_body_is_valid : PublicRoute → Bool
  public_body_is_valid (signup rq) = register_is_valid rq
  public_body_is_valid (login rq) = login_is_valid rq

  unfoldable pub body_is_valid : Route → Bool
  body_is_valid (list_users page page_size) = page_is_valid page page_size
  body_is_valid (list_bookings page page_size) = page_is_valid page page_size
  body_is_valid (update_user _ rq) = user_update_is_valid rq
  body_is_valid (create_hall rq) = hall_create_is_valid rq
  body_is_valid (update_hall _ rq) = hall_update_is_valid rq
  body_is_valid (create_seat _ rq) = seat_create_is_valid rq
  body_is_valid (bulk_create_seats _ rq) = seat_bulk_create_is_valid rq
  body_is_valid (create_booking rq) = booking_create_is_valid rq
  body_is_valid _ = true
