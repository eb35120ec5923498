-- ===== src/Examples/Answers.antt =====
-- The routes under a dispatcher that takes the first that fits, and what they answer.
use booking_api_service.Common.{
  arith, Option, none, ℕ, zero, suc, String, some, [], ◌∷◌, true, false, ◌≡◌, ◌≢◌, refl, ap, ◌↔◌,
  contains, str_eq,
}
use Prim.Native.String.{[] as empty, ◌∷◌ as push}
use booking_api_service.Exceptions.{
  default_booking_not_found, Error, status_code, ok, err, text, http, validation_error,
}
use booking_api_service.Settings.{default_settings}
use booking_api_service.Sorting.{insertion_sorting}
use booking_api_service.Api.{
  numbers_fit, Content, user_request, update_user, get_current_user_profile, delete_hall, get_user,
  get_booking, no_content, user_content,
}
use booking_api_service.Users.{user_response}
use booking_api_service.Api.Table
use booking_api_service.Api.Table.{get, model_of}
use booking_api_service.Api.Table.Mounting.{app_routes, decorator_of, health_check_decorator}
use booking_api_service.Api.Table.Dispatch.{Starlette, Printer, first_fit, dispatch-app_routes}
use booking_api_service.Api.Table.Shapes.{shape, error_statuses}
use booking_api_service.Api.Table.AtRest.{answer-ne-500}
use booking_api_service.Api.Table.Declared.{answer-HasModel, answer-error_statuses}
use booking_api_service.App
use booking_api_service.App.{Response, incoming, answered, responded}
use booking_api_service.App.Serve.{Fastapi, is_plain, serve_http}
use booking_api_service.App.Served.{IsServed, serve_http-IsServed}
use booking_api_service.Examples.Requests.{
  empty_db-IsAtRest, outside, any_email, bobs_header, answer_to,
}
use booking_api_service.Examples.Tokens.{toy_crypto}
use booking_api_service.Examples.{empty_db, bob, booked_db, world_of}

abbrev first_taken : Starlette
first_taken = record {
  dispatch = first_fit;
  dispatch-here = λ m routes method path h. rw h refl;
  dispatch-next = λ m routes method path h. rw h refl;
}

-- A number as that many letters "i", after one.
abbrev in_letters : ℕ → String
in_letters zero = "i"
in_letters (suc n) = push "i" (in_letters n)

not_empty : (n : ℕ) → in_letters n ≢ ""
not_empty zero = λ h. cc
not_empty (suc n) = λ h. cc

abbrev first_letter : String → String
first_letter empty = empty
first_letter (push c s) = push c empty

not_me : (n : ℕ) → in_letters n ≢ "me"
not_me zero = λ h. cc
not_me (suc n) = λ h. let e : false ≡ true = ap (λ s. str_eq (first_letter s) "m") h in cc

abbrev lettered : Printer
lettered = record { print = in_letters; print-ne-empty = not_empty; print-ne-me = not_me }

dispatch-app_routes_example :
    (first_fit app_routes get ("api" ∷ "v1" ∷ "users" ∷ "iii" ∷ [])
      ≡ some (decorator_of (user_request bobs_header (get_user 2))))
    × ((decorator_of (user_request bobs_header (get_user 2))).endpoint ≡ Table.get_user)
    × (first_fit app_routes get ("health" ∷ []) ≡ some health_check_decorator)
dispatch-app_routes_example =
    dispatch-app_routes first_taken lettered (user_request bobs_header (get_user 2))

bobs_profile :
    (answer_to (user_request bobs_header get_current_user_profile) (world_of booked_db)).0
    ≡ ok (user_content (user_response bob))
unfolding booking_api_service.Api.answer booking_api_service.Booking.Create.State.with_world
    booking_api_service.Auth.Header.get_token_from_header booking_api_service.Api.Routes.needs_admin
    booking_api_service.Auth.get_current_user booking_api_service.Api.Routes.body_is_valid
bobs_profile = refl

answer-HasModel_example :
    (shape (user_content (user_response bob)) ≡ model_of Table.user_response)
    × (((decorator_of (user_request bobs_header get_current_user_profile)).status_code ≡ 204)
        ↔ (user_content (user_response bob) ≡ no_content))
answer-HasModel_example =
    answer-HasModel default_settings insertion_sorting toy_crypto any_email outside
      (user_request bobs_header get_current_user_profile) (world_of booked_db) _ bobs_profile

bob_may_not :
    (answer_to (user_request bobs_header (delete_hall 1)) (world_of booked_db)).0
    ≡ err (http 403 (text "Admin access required"))
unfolding booking_api_service.Api.answer booking_api_service.Booking.Create.State.with_world
    booking_api_service.Auth.Header.get_token_from_header booking_api_service.Api.Routes.needs_admin
    booking_api_service.Auth.get_current_admin
bob_may_not = refl

answer-error_statuses_example :
    contains 403 (error_statuses (user_request bobs_header (delete_hall 1))) ≡ true
unfolding booking_api_service.Api.Routes.needs_admin status_code
answer-error_statuses_example =
    answer-error_statuses default_settings insertion_sorting toy_crypto any_email outside
      (user_request bobs_header (delete_hall 1)) (world_of booked_db) _ bob_may_not

abbrev plain_handlers : Error → Option Response
plain_handlers (http code d) = some (record { status_code = code; detail = some d })
plain_handlers validation_error = some (record { status_code = 422; detail = none })
plain_handlers e = none

nothing_else : (e : Error) → is_plain e ≡ true → plain_handlers e ≡ none
nothing_else (http code d) h = cc
nothing_else e h = ground arith

abbrev small_fastapi : Fastapi
small_fastapi = record {
  handlers = plain_handlers;
  handlers-http = λ code d. (record { status_code = code; detail = some d }, refl, refl);
  handlers-validation_error = (record { status_code = 422; detail = none }, refl, refl);
  handlers_plain = nothing_else;
}

abbrev profile_line : App.Request
profile_line = record { method = "GET"; path = "/api/v1/users/me" }

profile_is_logged :
    (serve_http small_fastapi default_settings insertion_sorting toy_crypto any_email outside 20 1 2
      profile_line
      (user_request bobs_header get_current_user_profile)
      (world_of booked_db)
      []).0.1
    ≡ incoming "GET" "/api/v1/users/me" ∷ answered "GET" "/api/v1/users/me" 200 "OK" none ∷ []
unfolding serve_http App.log_requests booking_api_service.Api.answer
    booking_api_service.Booking.Create.State.with_world
    booking_api_service.Auth.Header.get_token_from_header booking_api_service.Api.Routes.needs_admin
    booking_api_service.Auth.get_current_user booking_api_service.Api.Routes.body_is_valid
profile_is_logged = refl

serve_http-IsServed_example :
    IsServed 20 1 2 profile_line
      (user_request bobs_header get_current_user_profile)
      []
      (ok (user_content (user_response bob)))
      (responded (record { status_code = 200; detail = none }))
      (incoming "GET" "/api/v1/users/me" ∷ answered "GET" "/api/v1/users/me" 200 "OK" none ∷ [])
unfolding booking_api_service.Api.answer serve_http
    booking_api_service.Booking.Create.State.with_world App.log_requests
    booking_api_service.Auth.Header.get_token_from_header booking_api_service.Api.Routes.needs_admin
    booking_api_service.Auth.get_current_user booking_api_service.Api.Routes.body_is_valid
serve_http-IsServed_example =
    serve_http-IsServed 20 1 2 profile_line (user_request bobs_header get_current_user_profile) []
      small_fastapi default_settings insertion_sorting toy_crypto any_email outside
      (world_of booked_db)

no_such_booking :
    (answer_to (user_request bobs_header (get_booking 5)) (world_of empty_db)).0
    ≡ err default_booking_not_found
unfolding booking_api_service.Api.answer booking_api_service.Booking.Create.State.with_world
    booking_api_service.Auth.Header.get_token_from_header booking_api_service.Api.Routes.needs_admin
    booking_api_service.Auth.get_current_user booking_api_service.Api.Routes.body_is_valid
    booking_api_service.Booking.Queries.get_booking
no_such_booking = refl

fits_five : numbers_fit (get_booking 5) ≡ true
unfolding booking_api_service.Api.Routes.numbers_fit
fits_five = refl

answer-ne-500_example : status_code default_booking_not_found ≢ 500
answer-ne-500_example =
    answer-ne-500 default_settings insertion_sorting toy_crypto any_email outside bobs_header
      (get_booking 5) (world_of empty_db) empty_db-IsAtRest refl fits_five refl _ no_such_booking
