-- ===== src/Examples/Requests.antt =====
-- Requests to the routes, in the small library.
use booking_api_service.Common.{
  List, [], ◌∷◌, ◌≡◌, ◌⊎◌, refl, String, Option, some, [], ◌∷◌, Bool, true, false,
}
use booking_api_service.Exceptions.{Error, Result, ok, err, status_code, text, http}
use booking_api_service.Settings.{default_settings}
use booking_api_service.Model.{User}
use booking_api_service.Sorting.{insertion_sorting}
use booking_api_service.Redis.{table_redis}
use booking_api_service.Auth.{get_current_user, get_current_admin}
use booking_api_service.Auth.Header.{get_token_from_header}
use booking_api_service.Booking.Create.{World}
use booking_api_service.Api.{
  Outside, Route, Request, Content, user_request, create_hall, create_booking, list_bookings,
  needs_admin, authorize, admit_request, answer, respond,
}
use booking_api_service.Api.Guards.{IsAllowed, answer-IsAllowed}
use booking_api_service.Api.Others.{KeepsOthers}
use booking_api_service.Api.Invariant.{IsAtRest, serve_requests, serve_requests-IsAtRest}
use booking_api_service.Api.Own.{answer-KeepsOthers}
use booking_api_service.Api.Atomic.{answer-committed}
use booking_api_service.Examples.{
  small_database, open_broker, empty_db, booked_db, world_of, request, bob,
}
use booking_api_service.Examples.Bookings.{nothing_booked}
use booking_api_service.Examples.People.{two_emails}
use booking_api_service.Examples.Tokens.{toy_crypto}

abbrev pub outside : Outside
outside = record {
  database = small_database;
  clock = 10;
  uuid = "t";
  broker = open_broker;
  within_limit = true;
}

-- Bob's token: his id and one, his role, and its last second, each spelled by letters "a" up to the
-- next "b", then his e-mail.
abbrev pub bobs_header : Option String
bobs_header = some "Bearer aaabbaaaaaaaaaaaabbob@example.com"

abbrev pub any_email : String → Bool
any_email s = true

abbrev new_hall : Route
new_hall = create_hall (record { name = "Red"; capacity = 10; hourly_rate = 100 })

abbrev pub answer_to : Request → World table_redis → Result Content × World table_redis
answer_to = answer default_settings insertion_sorting toy_crypto any_email outside

answer-IsAllowed_example :
    ((u : User) × IsAllowed toy_crypto 10 (needs_admin new_hall) bobs_header empty_db u)
    ⊎ ((e : Error) × (answer_to (user_request bobs_header new_hall) (world_of empty_db)
          ≡ (err e, world_of empty_db))
        × ((status_code e ≡ 401) ⊎ ((status_code e ≡ 403) × (needs_admin new_hall ≡ true))))
answer-IsAllowed_example =
    answer-IsAllowed default_settings insertion_sorting toy_crypto any_email outside bobs_header
      new_hall (world_of empty_db) refl

-- Bob books a seat beside Alice's booking.
abbrev bobs_booking : Route
bobs_booking = create_booking (request (3 ∷ []) 10 12)

answer-KeepsOthers_example :
    let db' =
      (answer_to (user_request bobs_header bobs_booking) (world_of booked_db)).1.committed in
    ((u : User) × (authorize toy_crypto 10 false bobs_header booked_db ≡ ok u)
      × KeepsOthers u.id booked_db db')
    ⊎ ((e : Error) × (authorize toy_crypto 10 false bobs_header booked_db ≡ err e)
        × (db' ≡ booked_db))
unfolding booking_api_service.Api.Routes.needs_admin
answer-KeepsOthers_example =
    answer-KeepsOthers default_settings insertion_sorting toy_crypto any_email outside bobs_header
      bobs_booking (world_of booked_db) refl (refl, tt) refl

answer-committed_example :
    let (r, w) = answer_to (user_request bobs_header bobs_booking) (world_of booked_db) in
    (w.current ≡ w.committed) × ((e : Error) → r ≡ err e → w.committed ≡ booked_db)
answer-committed_example =
    answer-committed default_settings insertion_sorting toy_crypto any_email outside
      (user_request bobs_header bobs_booking) (world_of booked_db)

-- Bob is let in, and is no administrator.
bob_is_let_in : authorize toy_crypto 10 false bobs_header booked_db ≡ ok bob
unfolding authorize get_token_from_header get_current_user
bob_is_let_in = refl

bob_makes_no_hall :
    (answer_to (user_request bobs_header new_hall) (world_of empty_db)).0
    ≡ err (http 403 (text "Admin access required"))
unfolding answer booking_api_service.Booking.Create.with_world get_token_from_header
    booking_api_service.Api.Routes.needs_admin get_current_admin
bob_makes_no_hall = refl

-- Bob books, is refused a hall, and asks for a page of his bookings.
abbrev day : List (Outside × Request)
day =
    (outside, user_request bobs_header bobs_booking)
    ∷ (outside, user_request bobs_header new_hall)
    ∷ (outside, user_request bobs_header (list_bookings 1 20))
    ∷ []

pub empty_db-IsAtRest : IsAtRest (world_of empty_db)
empty_db-IsAtRest = record {
  settled = refl;
  sound = record {
    consistent = nothing_booked;
    seats_known = λ r m. elim m [ ];
    seat_ids_unique = (refl, (refl, (refl, tt)));
    emails_unique = two_emails;
  };
}

serve_requests-IsAtRest_example :
    IsAtRest (
      serve_requests default_settings insertion_sorting toy_crypto any_email day
        (world_of empty_db))
serve_requests-IsAtRest_example =
    serve_requests-IsAtRest default_settings insertion_sorting toy_crypto any_email day
      (world_of empty_db) empty_db-IsAtRest
