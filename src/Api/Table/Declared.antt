-- ===== src/Api/Table/Declared.antt =====
-- What the routes of app/routers answer: the contents against the decorators, and the statuses.
use booking_api_service.Common.{
  ℕ, String, Option, List, [], ◌∷◌, Bool, true, false, ◌≡◌, subst, refl, inl, inr, contains, arith,
  ◌↔◌, if◌then◌else◌, Bool-cases, ◌∙◌, sym,
}
use booking_api_service.Exceptions.{Error, ok, err, status_code}
use booking_api_service.Exceptions.Results.{Result-cases}
use booking_api_service.Action.{Action, ◌>>◌}
use booking_api_service.Settings.{Settings}
use booking_api_service.Model.{User}
use booking_api_service.Sorting.{Sorting}
use booking_api_service.Redis.{Redis}
use booking_api_service.Auth.{Crypto}
use booking_api_service.Booking.Create
use booking_api_service.Booking.Create.{World, with_world}
use booking_api_service.Api.{
  Outside, PublicRoute, signup, login, Route, Request, Content, public_request, user_request,
  needs_admin, public_body_is_valid, body_is_valid, authorize, admit_request, respond_public,
  respond, run_endpoint, validate_content, numbers_fit, content_is_valid, reading, after,
  in_session, handle_request, answer, get_current_user_profile, list_users, get_user, update_user,
  list_halls, get_hall, create_hall, update_hall, delete_hall, list_seats, create_seat,
  bulk_create_seats, delete_seat, list_bookings, get_booking, create_booking, cancel_booking,
  get_availability, registered, access_token, user_content, user_page_content, hall_content,
  halls_content, seat_content, seats_content, booking_content, booking_page_content, slots_content,
  no_content,
}
use booking_api_service.Api.Guards.{authorize-Decides}
use booking_api_service.Api.Table.{ResponseModel}
use booking_api_service.Api.Table.Mounting.{decorator_of, route_decorator, public_decorator}
use booking_api_service.Api.Table.Statuses.{
  get_user-Allows, get_hall-Allows, user_page-Allows, signup-Raises, login-Allows,
  update_user-Raises, update_hall-Raises, create_hall-Raises, delete_hall-Raises, list_seats-Allows,
  delete_seat-Raises, create_seat-Raises, bulk_create_seats-Raises,
}
use booking_api_service.Api.Table.BookingStatuses.{cancel_booking-Raises, create_booking-Raises}
use booking_api_service.Api.Table.QueryStatuses.{
  build_booking_response-Allows, get_booking-Allows, list_bookings-Allows,
}
use booking_api_service.Api.Table.SlotStatuses.{get_available_slots-Raises}
use booking_api_service.Api.Table.Shapes.{
  shape, raised_statuses, own_statuses, error_statuses, user_statuses, Answers, weaker, one_of_them,
  is_403, mapped, continued, shape-eq-no_model, status_iff,
}

module _ (settings : Settings) (S : Sorting) (C : Crypto) (valid_email : String → Bool)
    (O : Outside) {R : Redis} where
  respond_public-Answers :
      (route : PublicRoute) (w : World R)
      → Answers
          (public_decorator route).response_model
          (401 ∷ [])
          (respond_public settings S C valid_email O route w).0
  unfolding respond_public in_session reading
  respond_public-Answers (signup rq) w =
      mapped _ (401 ∷ []) _ registered (signup-Raises C O.database rq w.session) (λ a. refl)
  respond_public-Answers (login rq) w =
      mapped _ (401 ∷ []) _ access_token
        (login-Allows C settings O.clock w.current rq.email rq.password) (λ a. refl)

  respond-Answers :
      (route : Route) (u : User) (w : World R)
      → body_is_valid valid_email route ≡ true
      → Answers
          (route_decorator route).response_model
          (raised_statuses route)
          (respond settings S C valid_email O route u w).0
  unfolding respond in_session reading after booking_api_service.Api.Routes.body_is_valid
  respond-Answers get_current_user_profile u w h = refl
  respond-Answers (list_users page page_size) u w h =
      mapped _ (500 ∷ []) _ user_page_content (user_page-Allows S w.current page page_size h)
        (λ a. refl)
  respond-Answers (get_user id) u w h =
      mapped _ (404 ∷ []) _ user_content (get_user-Allows w.current id) (λ a. refl)
  respond-Answers (update_user id rq) u w h =
      mapped _ (404 ∷ 500 ∷ []) _ _ (update_user-Raises id rq w.session) (λ a. refl)
  respond-Answers list_halls u w h = refl
  respond-Answers (get_hall id) u w h =
      mapped _ (404 ∷ []) _ hall_content (get_hall-Allows w.current id) (λ a. refl)
  respond-Answers (create_hall rq) u w h =
      mapped _ (500 ∷ []) _ hall_content (create_hall-Raises O.database rq w.session) (λ a. refl)
  respond-Answers (update_hall id rq) u w h =
      mapped _ (404 ∷ 500 ∷ []) _ hall_content (update_hall-Raises id rq w.session) (λ a. refl)
  respond-Answers (delete_hall id) u w h =
      mapped _ (404 ∷ []) _ _ (delete_hall-Raises id w.session) (λ a. refl)
  respond-Answers (list_seats hall_id) u w h =
      mapped _ (404 ∷ []) _ _ (list_seats-Allows S w.current hall_id) (λ a. refl)
  respond-Answers (create_seat hall_id rq) u w h =
      mapped _ (404 ∷ 409 ∷ 500 ∷ []) _ _ (create_seat-Raises O.database hall_id rq w.session)
        (λ a. refl)
  respond-Answers (bulk_create_seats hall_id rq) u w h =
      mapped _ (404 ∷ 409 ∷ 500 ∷ []) _ _ (bulk_create_seats-Raises O.database hall_id rq w.session)
        (λ a. refl)
  respond-Answers (delete_seat hall_id id) u w h =
      mapped _ (404 ∷ []) _ _ (delete_seat-Raises hall_id id w.session) (λ a. refl)
  respond-Answers (list_bookings page page_size) u w h =
      mapped _ (500 ∷ []) _ booking_page_content
        (list_bookings-Allows S w.current u.id page page_size h) (λ a. refl)
  respond-Answers (get_booking id) u w h =
      mapped _ (500 ∷ 404 ∷ []) _ booking_content (get_booking-Allows w.current id u.id) (λ a. refl)
  respond-Answers (create_booking rq) u w h =
      continued _ (500 ∷ 404 ∷ 400 ∷ 409 ∷ [])
        (Create.create_booking settings O.database R O.broker O.uuid u.id rq w).0 _ _
        (create_booking-Raises settings O.database R O.broker O.uuid u.id rq w)
        (λ b v.
          mapped _ (500 ∷ 404 ∷ 400 ∷ 409 ∷ []) _ booking_content
            (build_booking_response-Allows (404 ∷ 400 ∷ 409 ∷ []) v.current b) (λ a. refl))
  respond-Answers (cancel_booking id) u w h =
      mapped _ (500 ∷ 404 ∷ 409 ∷ []) _ _ (cancel_booking-Raises O.broker id u.id w) (λ a. refl)
  respond-Answers (get_availability hall_id date) u w h =
      mapped _ (500 ∷ 404 ∷ []) _ slots_content (get_available_slots-Raises settings hall_id date w)
        (λ a. refl)

  -- The driver and the model of the answer add 500.
  checked-Answers :
      (model : ResponseModel) (statuses : List ℕ) (route : Route) (u : User) (w : World R)
      → Answers model statuses (respond settings S C valid_email O route u w).0
      → Answers model (500 ∷ statuses) (run_endpoint settings S C valid_email O route u w).0
  unfolding run_endpoint validate_content status_code
  checked-Answers model statuses route u w h = elim (Bool-cases (numbers_fit route)) [
    | inr large ↦ rw large refl
    | inl fits ↦ elim (Result-cases (respond settings S C valid_email O route u w).0) [
      | inr (e, g) ↦ let k = subst (Answers model statuses) g h in rw (fits, g) (ground (arith, k))
      | inl (c, g) ↦
          let k = subst (Answers model statuses) g h in
          elim (Bool-cases (content_is_valid valid_email c)) [
            | inl valid ↦ rw (fits, g, valid) k
            | inr bad ↦ rw (fits, g, bad) refl
          ]
    ]
  ]

  run_endpoint-Answers :
      (route : Route) (u : User) (w : World R)
      → body_is_valid valid_email route ≡ true
      → Answers
          (route_decorator route).response_model
          (own_statuses route)
          (run_endpoint settings S C valid_email O route u w).0
  unfolding run_endpoint respond reading validate_content booking_api_service.Api.Routes.numbers_fit
      booking_api_service.Api.Routes.content_is_valid
  run_endpoint-Answers list_halls u w h = refl
  run_endpoint-Answers route u w h =
      checked-Answers (route_decorator route).response_model (raised_statuses route) route u w
        (respond-Answers route u w h)

  -- Validity lets the endpoint run.
  admitted-Answers :
      (model : ResponseModel) (statuses : List ℕ) (valid : Bool) (m : Action (World R) Content)
      (w : World R)
      → (valid ≡ true → Answers model (401 ∷ 422 ∷ 429 ∷ statuses) (m w).0)
      → Answers model
          (401 ∷ 422 ∷ 429 ∷ statuses)
          ((admit_request settings S C valid_email O valid >> m) w).0
  unfolding admit_request status_code
  admitted-Answers model statuses true m w h = elim (Bool-cases O.within_limit) [
    | inl t ↦ rw t (h refl)
    | inr f ↦ rw f refl
  ]
  admitted-Answers model statuses false m w h = refl

  -- What the function of a route may answer decides what the route may.
  pub user_request-Answers :
      (model : ResponseModel) (own : List ℕ) (authorization : Option String) (route : Route)
      (w : World R)
      → ((u : User)
          → body_is_valid valid_email route ≡ true
          → Answers model own (run_endpoint settings S C valid_email O route u w).0)
      → Answers model
          (user_statuses (needs_admin route) own)
          (handle_request settings S C valid_email O (user_request authorization route) w).0
  unfolding handle_request
  user_request-Answers model own authorization route w may =
      elim (authorize-Decides C O.clock authorization w.current (needs_admin route)) [
        | inl (u, a, k) ↦ rw a (
            admitted-Answers model (if needs_admin route then 403 ∷ own else own)
              (body_is_valid valid_email route) (run_endpoint settings S C valid_email O route u) w
              (λ valid.
                weaker model own (user_statuses (needs_admin route) own)
                  (run_endpoint settings S C valid_email O route u w).0
                  (one_of_them (needs_admin route) own) (may u valid)))
        | inr (e, a, inl r) ↦ rw a (rw r refl)
        | inr (e, a, inr (r, k)) ↦ rw a (is_403 (needs_admin route) own (status_code e) r k)
      ]

  handle_request-Answers :
      (request : Request) (w : World R)
      → Answers
          (decorator_of request).response_model
          (error_statuses request)
          (handle_request settings S C valid_email O request w).0
  unfolding handle_request
  handle_request-Answers (public_request route) w =
      admitted-Answers _ [] (public_body_is_valid valid_email route)
        (respond_public settings S C valid_email O route) w
        (λ valid.
          weaker _ (401 ∷ []) (401 ∷ 422 ∷ 429 ∷ [])
            (respond_public settings S C valid_email O route w).0 (λ n h. ground arith)
            (respond_public-Answers route w))
  handle_request-Answers (user_request authorization route) w =
      user_request-Answers (route_decorator route).response_model (own_statuses route) authorization
        route w (λ u valid. run_endpoint-Answers route u w valid)

  answer-Answers :
      (request : Request) (w : World R)
      → Answers
          (decorator_of request).response_model
          (error_statuses request)
          (answer settings S C valid_email O request w).0
  unfolding answer with_world
  answer-Answers request w = handle_request-Answers request w

  -- A request that is answered with no error has a content of the model that the decorator of its
  -- function declares; and the status that the decorator declares is 204 exactly if there is no
  -- content.
  pub answer-HasModel :
      (request : Request) (w : World R) (c : Content)
      → (answer settings S C valid_email O request w).0 ≡ ok c
      → (shape c ≡ (decorator_of request).response_model)
        × (((decorator_of request).status_code ≡ 204) ↔ (c ≡ no_content))
  answer-HasModel request w c h =
      let fits =
        subst (Answers (decorator_of request).response_model (error_statuses request)) h
          (answer-Answers request w) in
      (
        fits,
        (
          λ s. (shape-eq-no_model c).0 (fits ∙ (status_iff request).0 s),
          λ e. (status_iff request).1 (sym fits ∙ (shape-eq-no_model c).1 e),
        ),
      )

  -- A request that is answered with an error has a status that its route may answer with: 401, 422 or
  -- 429, 403 only where an administrator is asked for, and those listed for its function, of which
  -- 500 is one but for signing up, logging in and the list of halls.
  pub answer-error_statuses :
      (request : Request) (w : World R) (e : Error)
      → (answer settings S C valid_email O request w).0 ≡ err e
      → contains (status_code e) (error_statuses request) ≡ true
  answer-error_statuses request w e h =
      subst (Answers (decorator_of request).response_model (error_statuses request)) h
        (answer-Answers request w)
