-- ===== src/Api/Table/Decorators.antt =====
-- The decorators of each file of app/routers, in the order of the file, below the prefix of the router.
-- A path is split at its slashes, so that one that ends with a slash has an empty last segment.
use booking_api_service.Common.{String, some, [], ◌∷◌}
use booking_api_service.Api.Table.{
  literal, parameter, Decorator, get, post, patch, delete, no_model, model_of, list_of, paginated,
  register_response, token_response, user_response, hall_response, seat_response, booking_response,
  time_slot_response, signup, login, get_current_user_profile, list_users, get_user, update_user,
  list_halls, get_hall, create_hall, update_hall, delete_hall, list_seats, create_seat,
  bulk_create_seats, delete_seat, list_bookings, get_booking, create_booking, cancel_booking,
  get_availability,
}

-- app/limiter.py
abbrev pub auth_limit : String
auth_limit = "5/minute"

abbrev pub bookings_limit : String
bookings_limit = "10/minute"

abbrev pub halls_limit : String
halls_limit = "30/minute"

abbrev pub users_limit : String
users_limit = "20/minute"

abbrev pub seats_limit : String
seats_limit = "30/minute"

-- app/routers/auth.py
abbrev pub signup_decorator : Decorator
signup_decorator = record {
  method = post;
  path = literal "signup" ∷ [];
  response_model = model_of register_response;
  status_code = 201;
  limit = some auth_limit;
  endpoint = signup;
}

abbrev pub login_decorator : Decorator
login_decorator = record {
  method = post;
  path = literal "login" ∷ [];
  response_model = model_of token_response;
  status_code = 200;
  limit = some auth_limit;
  endpoint = login;
}

-- app/routers/users.py
abbrev pub get_current_user_profile_decorator : Decorator
get_current_user_profile_decorator = record {
  method = get;
  path = literal "me" ∷ [];
  response_model = model_of user_response;
  status_code = 200;
  limit = some users_limit;
  endpoint = get_current_user_profile;
}

abbrev pub list_users_decorator : Decorator
list_users_decorator = record {
  method = get;
  path = literal "" ∷ [];
  response_model = paginated user_response;
  status_code = 200;
  limit = some users_limit;
  endpoint = list_users;
}

abbrev pub get_user_decorator : Decorator
get_user_decorator = record {
  method = get;
  path = parameter "user_id" ∷ [];
  response_model = model_of user_response;
  status_code = 200;
  limit = some users_limit;
  endpoint = get_user;
}

abbrev pub update_user_decorator : Decorator
update_user_decorator = record {
  method = patch;
  path = parameter "user_id" ∷ [];
  response_model = model_of user_response;
  status_code = 200;
  limit = some users_limit;
  endpoint = update_user;
}

-- app/routers/halls.py
abbrev pub list_halls_decorator : Decorator
list_halls_decorator = record {
  method = get;
  path = literal "" ∷ [];
  response_model = list_of hall_response;
  status_code = 200;
  limit = some halls_limit;
  endpoint = list_halls;
}

abbrev pub get_hall_decorator : Decorator
get_hall_decorator = record {
  method = get;
  path = parameter "hall_id" ∷ [];
  response_model = model_of hall_response;
  status_code = 200;
  limit = some halls_limit;
  endpoint = get_hall;
}

abbrev pub create_hall_decorator : Decorator
create_hall_decorator = record {
  method = post;
  path = literal "" ∷ [];
  response_model = model_of hall_response;
  status_code = 201;
  limit = some halls_limit;
  endpoint = create_hall;
}

abbrev pub update_hall_decorator : Decorator
update_hall_decorator = record {
  method = patch;
  path = parameter "hall_id" ∷ [];
  response_model = model_of hall_response;
  status_code = 200;
  limit = some halls_limit;
  endpoint = update_hall;
}

abbrev pub delete_hall_decorator : Decorator
delete_hall_decorator = record {
  method = delete;
  path = parameter "hall_id" ∷ [];
  response_model = no_model;
  status_code = 204;
  limit = some halls_limit;
  endpoint = delete_hall;
}

-- app/routers/seats.py
abbrev pub list_seats_decorator : Decorator
list_seats_decorator = record {
  method = get;
  path = literal "" ∷ [];
  response_model = list_of seat_response;
  status_code = 200;
  limit = some seats_limit;
  endpoint = list_seats;
}

abbrev pub create_seat_decorator : Decorator
create_seat_decorator = record {
  method = post;
  path = literal "" ∷ [];
  response_model = model_of seat_response;
  status_code = 201;
  limit = some seats_limit;
  endpoint = create_seat;
}

abbrev pub bulk_create_seats_decorator : Decorator
bulk_create_seats_decorator = record {
  method = post;
  path = literal "bulk" ∷ [];
  response_model = list_of seat_response;
  status_code = 201;
  limit = some seats_limit;
  endpoint = bulk_create_seats;
}

abbrev pub delete_seat_decorator : Decorator
delete_seat_decorator = record {
  method = delete;
  path = parameter "seat_id" ∷ [];
  response_model = no_model;
  status_code = 204;
  limit = some seats_limit;
  endpoint = delete_seat;
}

-- app/routers/bookings.py
abbrev pub list_bookings_decorator : Decorator
list_bookings_decorator = record {
  method = get;
  path = literal "" ∷ [];
  response_model = paginated booking_response;
  status_code = 200;
  limit = some bookings_limit;
  endpoint = list_bookings;
}

abbrev pub get_booking_decorator : Decorator
get_booking_decorator = record {
  method = get;
  path = parameter "booking_id" ∷ [];
  response_model = model_of booking_response;
  status_code = 200;
  limit = some bookings_limit;
  endpoint = get_booking;
}

abbrev pub create_booking_decorator : Decorator
create_booking_decorator = record {
  method = post;
  path = literal "" ∷ [];
  response_model = model_of booking_response;
  status_code = 201;
  limit = some bookings_limit;
  endpoint = create_booking;
}

abbrev pub cancel_booking_decorator : Decorator
cancel_booking_decorator = record {
  method = delete;
  path = parameter "booking_id" ∷ [];
  response_model = no_model;
  status_code = 204;
  limit = some bookings_limit;
  endpoint = cancel_booking;
}

abbrev pub get_availability_decorator : Decorator
get_availability_decorator = record {
  method = get;
  path = literal "halls" ∷ parameter "hall_id" ∷ literal "availability" ∷ [];
  response_model = list_of time_slot_response;
  status_code = 200;
  limit = some bookings_limit;
  endpoint = get_availability;
}
