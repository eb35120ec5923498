-- ===== src/Api/Table/Shapes.antt =====
-- The models of the contents, and the statuses of the errors of each route of app/routers.
use booking_api_service.Common.{
  ℕ, List, [], ◌∷◌, Bool, true, false, ◌≡◌, refl, contains, arith, ◌↔◌, if◌then◌else◌,
}
use booking_api_service.Exceptions.{Result, ok, err, status_code}
use booking_api_service.Exceptions.Results
use booking_api_service.Exceptions.Results.{Result-cases}
use booking_api_service.Action.{Action, continue}
use booking_api_service.Api.{
  PublicRoute, signup, login, Route, Request, Content, public_request, user_request, needs_admin,
  get_current_user_profile, list_users, get_user, update_user, list_halls, create_hall, get_hall,
  update_hall, delete_hall, list_seats, create_seat, bulk_create_seats, delete_seat, list_bookings,
  get_booking, create_booking, cancel_booking, get_availability, registered, access_token,
  user_content, user_page_content, hall_content, halls_content, seat_content, seats_content,
  booking_content, booking_page_content, slots_content, no_content,
}
use booking_api_service.Api.Table
use booking_api_service.Api.Table.{ResponseModel, no_model, model_of, list_of, paginated}
use booking_api_service.Api.Table.Mounting.{decorator_of, route_decorator, public_decorator}
use booking_api_service.Api.Table.Statuses.{Allows}

-- The model that a content has.
abbrev pub shape : Content → ResponseModel
shape (registered _) = model_of Table.register_response
shape (access_token _) = model_of Table.token_response
shape (user_content _) = model_of Table.user_response
shape (user_page_content _) = paginated Table.user_response
shape (hall_content _) = model_of Table.hall_response
shape (halls_content _) = list_of Table.hall_response
shape (seat_content _) = model_of Table.seat_response
shape (seats_content _) = list_of Table.seat_response
shape (booking_content _) = model_of Table.booking_response
shape (booking_page_content _) = paginated Table.booking_response
shape (slots_content _) = list_of Table.time_slot_response
shape no_content = no_model

-- The statuses of the errors that the function of each route raises.
abbrev pub raised_statuses : Route → List ℕ
raised_statuses (list_users _ _) = 500 ∷ []
raised_statuses (get_user _) = 404 ∷ []
raised_statuses (update_user _ _) = 404 ∷ 500 ∷ []
raised_statuses (get_hall _) = 404 ∷ []
raised_statuses (update_hall _ _) = 404 ∷ 500 ∷ []
raised_statuses (delete_hall _) = 404 ∷ []
raised_statuses (list_seats _) = 404 ∷ []
raised_statuses (create_hall _) = 500 ∷ []
raised_statuses (create_seat _ _) = 404 ∷ 409 ∷ 500 ∷ []
raised_statuses (bulk_create_seats _ _) = 404 ∷ 409 ∷ 500 ∷ []
raised_statuses (delete_seat _ _) = 404 ∷ []
raised_statuses (list_bookings _ _) = 500 ∷ []
raised_statuses (get_booking _) = 500 ∷ 404 ∷ []
raised_statuses (create_booking _) = 500 ∷ 404 ∷ 400 ∷ 409 ∷ []
raised_statuses (cancel_booking _) = 500 ∷ 404 ∷ 409 ∷ []
raised_statuses (get_availability _ _) = 500 ∷ 404 ∷ []
raised_statuses _ = []

-- With those of the driver and of the model of the answer, beside those of the token, the body and the
-- limiter.
abbrev pub own_statuses : Route → List ℕ
own_statuses list_halls = []
own_statuses route = 500 ∷ raised_statuses route

-- With those; only a route that asks for an administrator answers 403.
abbrev pub user_statuses : Bool → List ℕ → List ℕ
user_statuses admin_only own = 401 ∷ 422 ∷ 429 ∷ (if admin_only then 403 ∷ own else own)

abbrev pub error_statuses : Request → List ℕ
error_statuses (public_request route) = 401 ∷ 422 ∷ 429 ∷ []
error_statuses (user_request authorization route) =
    user_statuses (needs_admin route) (own_statuses route)

abbrev pub Answers : ResponseModel → List ℕ → Result Content → Type 0
Answers model statuses (ok content) = shape content ≡ model
Answers model statuses (err e) = contains (status_code e) statuses ≡ true

pub weaker :
    (model : ResponseModel) (xs ys : List ℕ) (r : Result Content)
    → ((n : ℕ) → contains n xs ≡ true → contains n ys ≡ true)
    → Answers model xs r
    → Answers model ys r
weaker model xs ys (ok c) sub h = h
weaker model xs ys (err e) sub h = sub (status_code e) h

pub one_of_them :
    (admin_only : Bool) (own : List ℕ) (n : ℕ)
    → contains n own ≡ true
    → contains n (user_statuses admin_only own) ≡ true
one_of_them true own n h = ground arith
one_of_them false own n h = ground arith

pub is_403 :
    (admin_only : Bool) (own : List ℕ) (n : ℕ)
    → n ≡ 403
    → admin_only ≡ true
    → contains n (user_statuses admin_only own) ≡ true
is_403 true own n r k = ground arith
is_403 false own n r k = cc

module _ (model : ResponseModel) (statuses : List ℕ) where
  pub mapped :
      {A : Type 0} (r : Result A) (content : A → Content)
      → Allows statuses r
      → ((a : A) → shape (content a) ≡ model)
      → Answers model statuses (Results.◌>>=◌ r (λ a. ok (content a)))
  mapped (ok a) content h k = k a
  mapped (err e) content h k = h

  pub continued :
      {S A : Type 0} (r : Result A) (f : A → Action S Content) (s : S)
      → Allows statuses r
      → ((a : A) (t : S) → Answers model statuses (f a t).0)
      → Answers model statuses (continue r f s).0
  continued (ok a) f s h k = k a s
  continued (err e) f s h k = h

pub shape-eq-no_model : (c : Content) → (shape c ≡ no_model) ↔ (c ≡ no_content)
shape-eq-no_model no_content = (λ h. refl, λ h. refl)
shape-eq-no_model _ = ground arith

public_status :
    (route : PublicRoute)
    → ((public_decorator route).status_code ≡ 204)
      ↔ ((public_decorator route).response_model ≡ no_model)
public_status (signup rq) = ground arith
public_status (login rq) = ground arith

route_status :
    (route : Route)
    → ((route_decorator route).status_code ≡ 204)
      ↔ ((route_decorator route).response_model ≡ no_model)
route_status get_current_user_profile = ground arith
route_status _ = ground arith

pub status_iff :
    (request : Request)
    → ((decorator_of request).status_code ≡ 204)
      ↔ ((decorator_of request).response_model ≡ no_model)
status_iff (public_request route) = public_status route
status_iff (user_request authorization route) = route_status route
