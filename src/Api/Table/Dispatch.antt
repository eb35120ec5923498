-- ===== src/Api/Table/Dispatch.antt =====
-- To which function the application hands a request, by its method and its path.
use booking_api_service.Common.{
  ℕ, String, Option, some, none, List, [], ◌∷◌, ◌++◌, Bool, true, false, not, ◌&&◌, str_eq,
  str_eq_iff, ◌≢◌, ◌≡◌, refl, ◌∙◌, inl, inr, Bool-cases, if◌then◌else◌,
}
use booking_api_service.Api.Routes
use booking_api_service.Api.Routes.{PublicRoute, Route, Request, public_request, user_request}
use booking_api_service.Api.Table.{
  Method, Segment, Decorator, get, post, patch, delete, literal, parameter, public_endpoint,
  route_endpoint, endpoint_of,
}
use booking_api_service.Api.Table.Mounting.{
  Mounted, app_routes, health_check_decorator, public_decorator, route_decorator, decorator_of,
}

abbrev pub same_method : Method → Method → Bool
same_method get get = true
same_method post post = true
same_method patch patch = true
same_method delete delete = true
same_method _ _ = false

-- A literal segment fits itself, and a parameter any segment that is not empty.
abbrev pub fits_segment : Segment → String → Bool
fits_segment (literal text) s = str_eq s text
fits_segment (parameter name) s = not (str_eq s "")

abbrev pub fits_path : List Segment → List String → Bool
fits_path [] [] = true
fits_path (segment ∷ segments) (s ∷ path) = fits_segment segment s && fits_path segments path
fits_path _ _ = false

abbrev pub fits : Mounted → Method → List String → Bool
fits m method path =
    same_method m.decorator.method method && fits_path (m.prefixes ++ m.decorator.path) path

-- What the application relies on of Starlette: the first route that fits is taken.
pub record Starlette : Type 0 where
  pub dispatch : List Mounted → Method → List String → Option Decorator
  pub dispatch-here :
      (m : Mounted) (routes : List Mounted) (method : Method) (path : List String)
      → fits m method path ≡ true
      → dispatch (m ∷ routes) method path ≡ some m.decorator
  pub dispatch-next :
      (m : Mounted) (routes : List Mounted) (method : Method) (path : List String)
      → fits m method path ≡ false
      → dispatch (m ∷ routes) method path ≡ dispatch routes method path

-- What a client writes for a number.
pub record Printer : Type 0 where
  pub print : ℕ → String
  pub print-ne-empty : (n : ℕ) → print n ≢ ""
  pub print-ne-me : (n : ℕ) → print n ≢ "me"

abbrev pub public_method : PublicRoute → Method
public_method _ = post

-- The requests as the table of the README lists them, with those that it leaves out.
abbrev pub route_method : Route → Method
route_method (Routes.update_user _ _) = patch
route_method (Routes.create_hall _) = post
route_method (Routes.update_hall _ _) = patch
route_method (Routes.delete_hall _) = delete
route_method (Routes.create_seat _ _) = post
route_method (Routes.bulk_create_seats _ _) = post
route_method (Routes.delete_seat _ _) = delete
route_method (Routes.create_booking _) = post
route_method (Routes.cancel_booking _) = delete
route_method _ = get

abbrev pub public_path : PublicRoute → List String
public_path (Routes.signup _) = "auth" ∷ "signup" ∷ []
public_path (Routes.login _) = "auth" ∷ "login" ∷ []

module _ (P : Printer) where
  abbrev pub route_path : Route → List String
  route_path Routes.get_current_user_profile = "users" ∷ "me" ∷ []
  route_path (Routes.list_users _ _) = "users" ∷ "" ∷ []
  route_path (Routes.get_user id) = "users" ∷ P.print id ∷ []
  route_path (Routes.update_user id _) = "users" ∷ P.print id ∷ []
  route_path Routes.list_halls = "halls" ∷ "" ∷ []
  route_path (Routes.get_hall id) = "halls" ∷ P.print id ∷ []
  route_path (Routes.create_hall _) = "halls" ∷ "" ∷ []
  route_path (Routes.update_hall id _) = "halls" ∷ P.print id ∷ []
  route_path (Routes.delete_hall id) = "halls" ∷ P.print id ∷ []
  route_path (Routes.list_seats hall_id) = "halls" ∷ P.print hall_id ∷ "seats" ∷ "" ∷ []
  route_path (Routes.create_seat hall_id _) = "halls" ∷ P.print hall_id ∷ "seats" ∷ "" ∷ []
  route_path (Routes.bulk_create_seats hall_id _) =
      "halls" ∷ P.print hall_id ∷ "seats" ∷ "bulk" ∷ []
  route_path (Routes.delete_seat hall_id id) = "halls" ∷ P.print hall_id ∷ "seats" ∷ P.print id ∷ []
  route_path (Routes.list_bookings _ _) = "bookings" ∷ "" ∷ []
  route_path (Routes.get_booking id) = "bookings" ∷ P.print id ∷ []
  route_path (Routes.create_booking _) = "bookings" ∷ "" ∷ []
  route_path (Routes.cancel_booking id) = "bookings" ∷ P.print id ∷ []
  route_path (Routes.get_availability hall_id _) =
      "bookings" ∷ "halls" ∷ P.print hall_id ∷ "availability" ∷ []

  abbrev pub path_of : Request → List String
  path_of (public_request route) = "api" ∷ "v1" ∷ public_path route
  path_of (user_request authorization route) = "api" ∷ "v1" ∷ route_path route

abbrev pub method_of : Request → Method
method_of (public_request route) = public_method route
method_of (user_request authorization route) = route_method route

abbrev pub first_fit : List Mounted → Method → List String → Option Decorator
first_fit [] method path = none
first_fit (m ∷ routes) method path =
    if fits m method path then some m.decorator else first_fit routes method path

dispatch-first_fit :
    (F : Starlette) (routes : List Mounted) (method : Method) (path : List String) {d : Decorator}
    → first_fit routes method path ≡ some d
    → F.dispatch routes method path ≡ some d
dispatch-first_fit F [] method path h = cc
dispatch-first_fit F (m ∷ routes) method path h = elim (Bool-cases (fits m method path)) [
  | inl yes_fits ↦ F.dispatch-here m routes method path yes_fits ∙ (rw yes_fits at h)
  | inr misses ↦
      F.dispatch-next m routes method path misses
      ∙ dispatch-first_fit F routes method path (rw misses at h)
]

first_health : first_fit app_routes get ("health" ∷ []) ≡ some health_check_decorator
unfolding app_routes
first_health = refl

str_eq-eq-false : (a b : String) → a ≢ b → str_eq a b ≡ false
str_eq-eq-false a b ne = elim (Bool-cases (str_eq a b)) [
  | inl e ↦ absurd (ne ((str_eq_iff a b).0 e))
  | inr e ↦ e
]

module _ (P : Printer) where
  not_empty : (n : ℕ) → str_eq (P.print n) "" ≡ false
  not_empty n = str_eq-eq-false (P.print n) "" (P.print-ne-empty n)

  not_me : (n : ℕ) → str_eq (P.print n) "me" ≡ false
  not_me n = str_eq-eq-false (P.print n) "me" (P.print-ne-me n)

  first_public :
      (route : PublicRoute)
      → first_fit app_routes post (path_of P (public_request route)) ≡ some (public_decorator route)
  unfolding app_routes
  first_public (Routes.signup _) = refl
  first_public (Routes.login _) = refl

  first_route :
      (authorization : Option String) (route : Route)
      → first_fit app_routes (route_method route) (path_of P (user_request authorization route))
        ≡ some (route_decorator route)
  unfolding app_routes
  first_route _ Routes.get_current_user_profile = refl
  first_route _ (Routes.list_users _ _) = refl
  first_route _ (Routes.get_user id) = rw (not_me id, not_empty id) refl
  first_route _ (Routes.update_user id _) = rw (not_empty id) refl
  first_route _ Routes.list_halls = refl
  first_route _ (Routes.get_hall id) = rw (not_empty id) refl
  first_route _ (Routes.create_hall _) = refl
  first_route _ (Routes.update_hall id _) = rw (not_empty id) refl
  first_route _ (Routes.delete_hall id) = rw (not_empty id) refl
  first_route _ (Routes.list_seats hall_id) = rw (not_empty hall_id) refl
  first_route _ (Routes.create_seat hall_id _) = rw (not_empty hall_id) refl
  first_route _ (Routes.bulk_create_seats hall_id _) = rw (not_empty hall_id) refl
  first_route _ (Routes.delete_seat hall_id id) = rw (not_empty hall_id, not_empty id) refl
  first_route _ (Routes.list_bookings _ _) = refl
  first_route _ (Routes.get_booking id) = rw (not_empty id) refl
  first_route _ (Routes.create_booking _) = refl
  first_route _ (Routes.cancel_booking id) = rw (not_empty id) refl
  first_route _ (Routes.get_availability hall_id _) = rw (not_empty hall_id) refl

public_endpoint_lem :
    (route : PublicRoute) → (public_decorator route).endpoint ≡ public_endpoint route
public_endpoint_lem (Routes.signup _) = refl
public_endpoint_lem (Routes.login _) = refl

route_endpoint_lem : (route : Route) → (route_decorator route).endpoint ≡ route_endpoint route
route_endpoint_lem Routes.get_current_user_profile = refl
route_endpoint_lem (Routes.list_users _ _) = refl
route_endpoint_lem (Routes.get_user _) = refl
route_endpoint_lem (Routes.update_user _ _) = refl
route_endpoint_lem Routes.list_halls = refl
route_endpoint_lem (Routes.get_hall _) = refl
route_endpoint_lem (Routes.create_hall _) = refl
route_endpoint_lem (Routes.update_hall _ _) = refl
route_endpoint_lem (Routes.delete_hall _) = refl
route_endpoint_lem (Routes.list_seats _) = refl
route_endpoint_lem (Routes.create_seat _ _) = refl
route_endpoint_lem (Routes.bulk_create_seats _ _) = refl
route_endpoint_lem (Routes.delete_seat _ _) = refl
route_endpoint_lem (Routes.list_bookings _ _) = refl
route_endpoint_lem (Routes.get_booking _) = refl
route_endpoint_lem (Routes.create_booking _) = refl
route_endpoint_lem (Routes.cancel_booking _) = refl
route_endpoint_lem (Routes.get_availability _ _) = refl

-- Whatever the numbers in its path, each request reaches the decorated function written for it, and
-- GET /health the health check: no route that was registered before takes it, though a parameter fits
-- every segment that is not empty.
pub dispatch-app_routes :
    (F : Starlette) (P : Printer) (request : Request)
    → (F.dispatch app_routes (method_of request) (path_of P request) ≡ some (decorator_of request))
      × ((decorator_of request).endpoint ≡ endpoint_of request)
      × (F.dispatch app_routes get ("health" ∷ []) ≡ some health_check_decorator)
dispatch-app_routes F P (public_request route) = (
  dispatch-first_fit F app_routes _ _ (first_public P route),
  public_endpoint_lem route,
  dispatch-first_fit F app_routes _ _ first_health,
)
dispatch-app_routes F P (user_request authorization route) = (
  dispatch-first_fit F app_routes _ _ (first_route P authorization route),
  route_endpoint_lem route,
  dispatch-first_fit F app_routes _ _ first_health,
)
