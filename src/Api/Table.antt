-- ===== src/Api/Table.antt =====
-- The decorators of app/routers: the method and the path of each route, the model and the status of
-- its answers, and its limit (app/limiter.py).
pub mod Decorators
pub mod Mounting
pub mod Dispatch
pub mod Statuses
pub mod BookingStatuses
pub mod QueryStatuses
pub mod SlotStatuses
pub mod Shapes
pub mod Declared
pub mod AtRest
use booking_api_service.Common.{ℕ, String, Option, List}
use booking_api_service.Api.Routes
use booking_api_service.Api.Routes.{PublicRoute, Route, Request, public_request, user_request}

pub data Method : Type 0 where
  get post patch delete : Method

-- A segment of a path: a text, or a parameter in braces.
pub data Segment : Type 0 where
  literal parameter : String → Segment

-- The schemas of app/schemas that the routes answer with.
pub data Schema : Type 0 where
  register_response token_response user_response hall_response : Schema
  seat_response booking_response time_slot_response : Schema

-- `response_model`, or what the endpoint is annotated with: `None`, or a dictionary.
pub data ResponseModel : Type 0 where
  no_model any_dict : ResponseModel
  model_of list_of paginated : Schema → ResponseModel

-- The functions under the decorators.
pub data Endpoint : Type 0 where
  signup login : Endpoint
  get_current_user_profile list_users get_user update_user : Endpoint
  list_halls get_hall create_hall update_hall delete_hall : Endpoint
  list_seats create_seat bulk_create_seats delete_seat : Endpoint
  list_bookings get_booking create_booking cancel_booking get_availability : Endpoint
  health_check : Endpoint

pub record Decorator : Type 0 where
  pub method : Method
  pub path : List Segment
  pub response_model : ResponseModel
  pub status_code : ℕ
  pub limit : Option String
  pub endpoint : Endpoint

abbrev pub public_endpoint : PublicRoute → Endpoint
public_endpoint (Routes.signup _) = signup
public_endpoint (Routes.login _) = login

abbrev pub route_endpoint : Route → Endpoint
route_endpoint Routes.get_current_user_profile = get_current_user_profile
route_endpoint (Routes.list_users _ _) = list_users
route_endpoint (Routes.get_user _) = get_user
route_endpoint (Routes.update_user _ _) = update_user
route_endpoint Routes.list_halls = list_halls
route_endpoint (Routes.get_hall _) = get_hall
route_endpoint (Routes.create_hall _) = create_hall
route_endpoint (Routes.update_hall _ _) = update_hall
route_endpoint (Routes.delete_hall _) = delete_hall
route_endpoint (Routes.list_seats _) = list_seats
route_endpoint (Routes.create_seat _ _) = create_seat
route_endpoint (Routes.bulk_create_seats _ _) = bulk_create_seats
route_endpoint (Routes.delete_seat _ _) = delete_seat
route_endpoint (Routes.list_bookings _ _) = list_bookings
route_endpoint (Routes.get_booking _) = get_booking
route_endpoint (Routes.create_booking _) = create_booking
route_endpoint (Routes.cancel_booking _) = cancel_booking
route_endpoint (Routes.get_availability _ _) = get_availability

-- The function that serves a request.
abbrev pub endpoint_of : Request → Endpoint
endpoint_of (public_request route) = public_endpoint route
endpoint_of (user_request authorization route) = route_endpoint route
