-- ===== src/Api/Table/Mounting.antt =====
-- The routers of app/routers, and the routes as app/main.py mounts them.
use booking_api_service.Common.{none, List, [], ◌∷◌, ◌++◌, map}
use booking_api_service.Api.Routes
use booking_api_service.Api.Routes.{PublicRoute, Route, Request, public_request, user_request}
use booking_api_service.Api.Table.{
  Segment, literal, parameter, Decorator, get, any_dict, health_check,
}
use booking_api_service.Api.Table.Decorators.{
  signup_decorator, login_decorator, get_current_user_profile_decorator, list_users_decorator,
  get_user_decorator, update_user_decorator, list_halls_decorator, get_hall_decorator,
  create_hall_decorator, update_hall_decorator, delete_hall_decorator, list_seats_decorator,
  create_seat_decorator, bulk_create_seats_decorator, delete_seat_decorator,
  list_bookings_decorator, get_booking_decorator, create_booking_decorator,
  cancel_booking_decorator, get_availability_decorator,
}

-- A router: its prefix, and its routes in the order of their registration.
pub record Router : Type 0 where
  pub prefix : List Segment
  pub routes : List Decorator

abbrev pub auth_router : Router
auth_router = record {
  prefix = literal "auth" ∷ [];
  routes = signup_decorator ∷ login_decorator ∷ [];
}

abbrev pub users_router : Router
users_router = record {
  prefix = literal "users" ∷ [];
  routes =
      get_current_user_profile_decorator ∷ list_users_decorator ∷ get_user_decorator
      ∷ update_user_decorator ∷ [];
}

abbrev pub halls_router : Router
halls_router = record {
  prefix = literal "halls" ∷ [];
  routes =
      list_halls_decorator ∷ get_hall_decorator ∷ create_hall_decorator ∷ update_hall_decorator
      ∷ delete_hall_decorator ∷ [];
}

abbrev pub seats_router : Router
seats_router = record {
  prefix = literal "halls" ∷ parameter "hall_id" ∷ literal "seats" ∷ [];
  routes =
      list_seats_decorator ∷ create_seat_decorator ∷ bulk_create_seats_decorator
      ∷ delete_seat_decorator ∷ [];
}

abbrev pub bookings_router : Router
bookings_router = record {
  prefix = literal "bookings" ∷ [];
  routes =
      list_bookings_decorator ∷ get_booking_decorator ∷ create_booking_decorator
      ∷ cancel_booking_decorator ∷ get_availability_decorator ∷ [];
}

-- A route as it is mounted: under the prefix that `include_router` is given and that of its router.
pub record Mounted : Type 0 where
  pub prefixes : List Segment
  pub decorator : Decorator

-- `app.include_router(router, prefix="/api/v1")`
abbrev pub include_router : Router → List Mounted
include_router router =
    map (λ d. record { prefixes = literal "api" ∷ literal "v1" ∷ router.prefix; decorator = d })
      router.routes

-- `GET /health` stands under no prefix.
abbrev pub health_check_decorator : Decorator
health_check_decorator = record {
  method = get;
  path = literal "health" ∷ [];
  response_model = any_dict;
  status_code = 200;
  limit = none;
  endpoint = health_check;
}

-- The routes of the application, in the order in which `create_app` includes the routers.
unfoldable pub app_routes : List Mounted
app_routes =
    include_router auth_router
    ++ include_router users_router
    ++ include_router halls_router
    ++ include_router seats_router
    ++ include_router bookings_router
    ++ record { prefixes = []; decorator = health_check_decorator } ∷ []

abbrev pub public_decorator : PublicRoute → Decorator
public_decorator (Routes.signup _) = signup_decorator
public_decorator (Routes.login _) = login_decorator

abbrev pub route_decorator : Route → Decorator
route_decorator Routes.get_current_user_profile = get_current_user_profile_decorator
route_decorator (Routes.list_users _ _) = list_users_decorator
route_decorator (Routes.get_user _) = get_user_decorator
route_decorator (Routes.update_user _ _) = update_user_decorator
route_decorator Routes.list_halls = list_halls_decorator
route_decorator (Routes.get_hall _) = get_hall_decorator
route_decorator (Routes.create_hall _) = create_hall_decorator
route_decorator (Routes.update_hall _ _) = update_hall_decorator
route_decorator (Routes.delete_hall _) = delete_hall_decorator
route_decorator (Routes.list_seats _) = list_seats_decorator
route_decorator (Routes.create_seat _ _) = create_seat_decorator
route_decorator (Routes.bulk_create_seats _ _) = bulk_create_seats_decorator
route_decorator (Routes.delete_seat _ _) = delete_seat_decorator
route_decorator (Routes.list_bookings _ _) = list_bookings_decorator
route_decorator (Routes.get_booking _) = get_booking_decorator
route_decorator (Routes.create_booking _) = create_booking_decorator
route_decorator (Routes.cancel_booking _) = cancel_booking_decorator
route_decorator (Routes.get_availability _ _) = get_availability_decorator

-- The decorator of the function that serves a request.
abbrev pub decorator_of : Request → Decorator
decorator_of (public_request route) = public_decorator route
decorator_of (user_request authorization route) = route_decorator route
