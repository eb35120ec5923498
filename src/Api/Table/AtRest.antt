-- ===== src/Api/Table/AtRest.antt =====
-- What the reads of the bookings cannot answer between requests.
use booking_api_service.Common.{
  ℕ, String, Option, some, List, [], ◌∷◌, Bool, true, false, ◌≡◌, ◌≢◌, refl, subst, sym, contains,
  arith, not, inl, inr,
}
use booking_api_service.Exceptions.{Error, Result, err, status_code}
use booking_api_service.Exceptions.Results.{Result-cases}
use booking_api_service.Pagination.{is_past_offset}
use booking_api_service.Settings.{Settings}
use booking_api_service.Model.{User, Db}
use booking_api_service.Sorting.{Sorting}
use booking_api_service.Redis.{Redis}
use booking_api_service.Auth.{Crypto}
use booking_api_service.Booking.Create.{World, with_world}
use booking_api_service.Booking.Queries
use booking_api_service.Booking.Queries.Known.{
  KnowsSeats, IsOk, build_booking_response-IsOk, build_responses-IsOk,
}
use booking_api_service.Api.{
  Outside, Route, Content, user_request, needs_admin, body_is_valid, respond, run_endpoint,
  validate_content, numbers_fit, content_is_valid, reading, handle_request, answer, list_bookings,
  get_booking, booking_content, booking_page_content, user_content, user_page_content,
}
use booking_api_service.Api.Routes.{page_is_valid}
use booking_api_service.Api.Invariant.{IsAtRest}
use booking_api_service.Api.Table.Mounting.{route_decorator}
use booking_api_service.Api.Table.Statuses.{Allows, >>=-Allows}
use booking_api_service.Api.Table.QueryStatuses.{valid_params, valid_page}
use booking_api_service.Api.Table.Shapes.{shape, Answers, mapped, user_statuses}
use booking_api_service.Api.Table.Declared.{user_request-Answers}

allowed : {A : Type 0} (statuses : List ℕ) (r : Result A) → IsOk r → Allows statuses r
allowed statuses r (a, e) = subst (Allows statuses) (sym e) tt

list_bookings-Allows :
    (S : Sorting) (db : Db) (user_id page page_size : ℕ)
    → KnowsSeats db
    → page_is_valid page page_size ≡ true
    → is_past_offset page page_size ≡ false
    → Allows (404 ∷ []) (Queries.list_bookings S db user_id page page_size)
unfolding Queries.list_bookings Queries.get_user_bookings
list_bookings-Allows S db user_id page page_size known h near =
    rw
      (
        valid_params page page_size h,
        near,
        valid_page page page_size (Queries.newest_bookings S db user_id) h,
      )
      (>>=-Allows (404 ∷ []) (Queries.build_responses db _) _
        (allowed (404 ∷ []) _ (build_responses-IsOk db known _)) (λ items. tt))

get_booking-Allows :
    (db : Db) (booking_id user_id : ℕ)
    → KnowsSeats db
    → Allows (404 ∷ []) (Queries.get_booking db booking_id user_id)
unfolding Queries.get_booking
get_booking-Allows db booking_id user_id known =
    >>=-Allows (404 ∷ []) (Queries.get_booking_by_id db booking_id (some user_id)) _
      (unfold Queries.get_booking_by_id in unfold status_code in ground arith)
      (λ b.
        allowed (404 ∷ []) (Queries.build_booking_response db b)
          (build_booking_response-IsOk db known b))

-- `GET /bookings/` and `GET /bookings/{booking_id}`
abbrev pub reads_bookings : Route → Bool
reads_bookings (list_bookings _ _) = true
reads_bookings (get_booking _) = true
reads_bookings _ = false

-- The first row of the page is one that OFFSET can count to.
abbrev pub offset_fits : Route → Bool
offset_fits (list_bookings page page_size) = not (is_past_offset page page_size)
offset_fits _ = true

not_500 :
    (statuses : List ℕ) (e : Error)
    → contains 500 statuses ≡ false
    → contains (status_code e) statuses ≡ true
    → status_code e ≢ 500
not_500 statuses e h k q = cc (rw q at k)

none_is_500 : (admin_only : Bool) → contains 500 (user_statuses admin_only (404 ∷ [])) ≡ false
none_is_500 true = refl
none_is_500 false = refl

valid_of_shape :
    (valid_email : String → Bool) (route : Route) (c : Content)
    → reads_bookings route ≡ true
    → shape c ≡ (route_decorator route).response_model
    → content_is_valid valid_email c ≡ true
unfolding booking_api_service.Api.Routes.content_is_valid
valid_of_shape valid_email (list_bookings page page_size) (user_content x) r h = ground arith
valid_of_shape valid_email (list_bookings page page_size) (user_page_content x) r h = ground arith
valid_of_shape valid_email (list_bookings page page_size) _ r h = refl
valid_of_shape valid_email (get_booking id) (user_content x) r h = ground arith
valid_of_shape valid_email (get_booking id) (user_page_content x) r h = ground arith
valid_of_shape valid_email (get_booking id) _ r h = refl
valid_of_shape valid_email _ c r h = cc

module _ (settings : Settings) (S : Sorting) (C : Crypto) (valid_email : String → Bool)
    (O : Outside) {R : Redis} where
  respond-Answers :
      (route : Route) (u : User) (w : World R)
      → KnowsSeats w.current
      → reads_bookings route ≡ true
      → offset_fits route ≡ true
      → body_is_valid valid_email route ≡ true
      → Answers
          (route_decorator route).response_model
          (404 ∷ [])
          (respond settings S C valid_email O route u w).0
  unfolding respond reading booking_api_service.Api.Routes.body_is_valid
  respond-Answers (list_bookings page page_size) u w known r near h =
      mapped _ (404 ∷ []) _ booking_page_content
        (list_bookings-Allows S w.current u.id page page_size known h (ground arith)) (λ a. refl)
  respond-Answers (get_booking id) u w known r near h =
      mapped _ (404 ∷ []) _ booking_content (get_booking-Allows w.current id u.id known) (λ a. refl)
  respond-Answers _ u w known r near h = cc

  run_endpoint-Answers :
      (route : Route) (u : User) (w : World R)
      → reads_bookings route ≡ true
      → numbers_fit route ≡ true
      → Answers
          (route_decorator route).response_model
          (404 ∷ [])
          (respond settings S C valid_email O route u w).0
      → Answers
          (route_decorator route).response_model
          (404 ∷ [])
          (run_endpoint settings S C valid_email O route u w).0
  unfolding run_endpoint validate_content
  run_endpoint-Answers route u w r fits h =
      let model = (route_decorator route).response_model in
      elim (Result-cases (respond settings S C valid_email O route u w).0) [
        | inr (e, g) ↦ rw (fits, g) (subst (Answers model (404 ∷ [])) g h)
        | inl (c, g) ↦
            let k = subst (Answers model (404 ∷ [])) g h in
            rw (fits, g, valid_of_shape valid_email route c r k) k
      ]

  -- Between requests, where nothing is uncommitted and each row of a booking names a seat of the
  -- table: the list of a user's bookings and the details of one are not answered with 500, if the
  -- number in the path and the offset of the page are within the ranges of the database:
  -- `build_booking_response` finds every seat that it looks up.
  pub answer-ne-500 :
      (authorization : Option String) (route : Route) (w : World R)
      → IsAtRest w
      → reads_bookings route ≡ true
      → numbers_fit route ≡ true
      → offset_fits route ≡ true
      → (e : Error)
      → (answer settings S C valid_email O (user_request authorization route) w).0 ≡ err e
      → status_code e ≢ 500
  unfolding answer with_world
  answer-ne-500 authorization route w rest reads fits near e h =
      let known = subst KnowsSeats (sym rest.settled) rest.sound.seats_known in
      let model = (route_decorator route).response_model in
      let may =
        user_request-Answers settings S C valid_email O model (404 ∷ []) authorization route w
          (λ u valid.
            run_endpoint-Answers route u w reads fits
              (respond-Answers route u w known reads near valid)) in
      not_500 (user_statuses (needs_admin route) (404 ∷ [])) e (none_is_500 (needs_admin route))
        (subst (Answers model (user_statuses (needs_admin route) (404 ∷ []))) h may)
