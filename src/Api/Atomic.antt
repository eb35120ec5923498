-- ===== src/Api/Atomic.antt =====
-- A request of app/routers is one transaction.
use booking_api_service.Common.{
  ℕ, String, List, [], ◌∷◌, Bool, not, ◌≡◌, refl, ap, ◌∙◌, inl, inr, arith,
}
use booking_api_service.Exceptions.{Error, Result, ok, err, integrity_error, database_error}
use booking_api_service.Exceptions.Results.{Result-cases}
use booking_api_service.Action.{Action, continue, raise_if, ◌>>=◌}
use booking_api_service.Settings.{Settings}
use booking_api_service.Model.{User, Db}
use booking_api_service.Session.{Database, Session}
use booking_api_service.Sorting.{Sorting}
use booking_api_service.Redis.{Redis}
use booking_api_service.Auth
use booking_api_service.Auth.{Crypto, RegisterRequest}
use booking_api_service.Users
use booking_api_service.Users.{UserUpdate}
use booking_api_service.Halls
use booking_api_service.Halls.{HallCreate, HallUpdate}
use booking_api_service.Seats
use booking_api_service.Seats.{
  SeatCreate, SeatBulkCreate, insert_seats, insert_seat, grid, replace_integrity_error, recover,
}
use booking_api_service.Booking.Create.{World, with_world}
use booking_api_service.Booking.Create
use booking_api_service.Booking.Create.Outcome.{committed-create_booking}
use booking_api_service.Booking.Cancel.Effects.{committed-cancel_booking}
use booking_api_service.Api.Own.{slots_session}
use booking_api_service.Api.{
  Outside, PublicRoute, signup, login, Route, Request, public_request, user_request, needs_admin,
  public_body_is_valid, body_is_valid, authorize, admit_request, respond_public, respond,
  run_endpoint, validate_content, numbers_fit, reading, after, in_session, handle_request, answer,
  get_current_user_profile, list_users, get_user, update_user, list_halls, get_hall, create_hall,
  update_hall, delete_hall, list_seats, create_seat, bulk_create_seats, delete_seat, list_bookings,
  get_booking, create_booking, cancel_booking, get_availability,
}

-- An action that commits nothing, whatever its outcome.
module _ {S : Type 0} (committed : S → Db) where
  abbrev Leaves : {A : Type 0} → Action S A → Type 0
  Leaves m = (s : S) → committed (m s).1 ≡ committed s

  continue_lem :
      {A B : Type 0} (r : Result A) (f : A → Action S B) (s : S)
      → ((a : A) → Leaves (f a))
      → committed (continue r f s).1 ≡ committed s
  continue_lem (ok a) f s h = h a s
  continue_lem (err e) f s h = refl

  then_lem :
      {A B : Type 0} (m : Action S A) (f : A → Action S B)
      → Leaves m
      → ((a : A) → Leaves (f a))
      → Leaves (m >>= f)
  then_lem m f h k s = continue_lem (m s).0 f (m s).1 k ∙ h s

abbrev of_session : Session → Db
of_session s = s.committed

abbrev CommitsNothing : {A : Type 0} → Action Session A → Type 0
CommitsNothing m = Leaves of_session m

signup_lem :
    (C : Crypto) (D : Database) (rq : RegisterRequest) → CommitsNothing (Auth.signup C D rq)
unfolding Auth.signup Auth.register_user Auth.as_unauthorized
signup_lem C D rq s = ground arith

update_user_lem : (id : ℕ) (rq : UserUpdate) → CommitsNothing (Users.update_user id rq)
unfolding Users.update_user Users.write_user
update_user_lem id rq s = ground arith

update_hall_lem : (id : ℕ) (rq : HallUpdate) → CommitsNothing (Halls.update_hall id rq)
unfolding Halls.update_hall Halls.write_hall
update_hall_lem id rq s = ground arith

delete_hall_lem : (id : ℕ) → CommitsNothing (Halls.delete_hall id)
unfolding Halls.delete_hall Halls.write_hall
delete_hall_lem id s = ground arith

delete_seat_lem : (hall_id id : ℕ) → CommitsNothing (Seats.delete_seat hall_id id)
unfolding Seats.delete_seat
delete_seat_lem hall_id id s = ground arith

module _ (D : Database) (hall_id : ℕ) where
  insert_seat_lem : (row number : ℕ) → CommitsNothing (insert_seat D hall_id row number)
  unfolding insert_seat
  insert_seat_lem row number s = ground arith

  insert_seats_lem : (places : List (ℕ × ℕ)) → CommitsNothing (insert_seats D hall_id places)
  unfolding insert_seats
  insert_seats_lem [] s = refl
  insert_seats_lem ((row, number) ∷ places) s =
      then_lem of_session (insert_seat D hall_id row number) _ (insert_seat_lem row number)
        (λ seat.
          then_lem of_session (insert_seats D hall_id places) _ (insert_seats_lem places)
            (λ xs t. refl))
        s

  recovered :
      {A : Type 0} (e : Error) (r : Result A) (s : Session)
      → (recover e r s).1.committed ≡ s.committed
  unfolding recover
  recovered e (err integrity_error) s = refl
  recovered e r s = refl

  recover_lem :
      {A : Type 0} (e : Error) (m : Action Session A)
      → CommitsNothing m
      → CommitsNothing (replace_integrity_error e m)
  unfolding replace_integrity_error
  recover_lem e m h s = recovered e (m s).0 (m s).1 ∙ h s

  create_seat_lem : (rq : SeatCreate) → CommitsNothing (Seats.create_seat D hall_id rq)
  unfolding Seats.create_seat
  create_seat_lem rq =
      then_lem of_session (λ s. (Halls.get_hall_or_raise s.current hall_id, s)) _ (λ s. refl)
        (λ _.
          recover_lem _ (insert_seat D hall_id rq.row rq.number) (insert_seat_lem rq.row rq.number))

  bulk_create_seats_lem :
      (rq : SeatBulkCreate) → CommitsNothing (Seats.bulk_create_seats D hall_id rq)
  unfolding Seats.bulk_create_seats
  bulk_create_seats_lem rq =
      then_lem of_session (λ s. (Halls.get_hall_or_raise s.current hall_id, s)) _ (λ s. refl)
        (λ _.
          recover_lem _ (insert_seats D hall_id (grid rq.rows rq.seats_per_row))
            (insert_seats_lem (grid rq.rows rq.seats_per_row)))

module _ (settings : Settings) (S : Sorting) (C : Crypto) (valid_email : String → Bool)
    (O : Outside) {R : Redis} where
  abbrev of_world : World R → Db
  of_world w = w.committed

  respond_public_lem :
      (route : PublicRoute) → Leaves of_world (respond_public settings S C valid_email O route)
  unfolding respond_public in_session reading
  respond_public_lem (signup rq) w = signup_lem C O.database rq w.session
  respond_public_lem (login rq) w = refl

  respond_lem :
      (u : User) (route : Route) → Leaves of_world (respond settings S C valid_email O route u)
  unfolding respond reading after in_session
  respond_lem u get_current_user_profile w = refl
  respond_lem u (list_users page page_size) w = refl
  respond_lem u (get_user user_id) w = refl
  respond_lem u (update_user user_id rq) w = update_user_lem user_id rq w.session
  respond_lem u list_halls w = refl
  respond_lem u (get_hall hall_id) w = refl
  respond_lem u (create_hall rq) w = unfold Halls.create_hall in ground arith
  respond_lem u (update_hall hall_id rq) w = update_hall_lem hall_id rq w.session
  respond_lem u (delete_hall hall_id) w = delete_hall_lem hall_id w.session
  respond_lem u (list_seats hall_id) w = refl
  respond_lem u (create_seat hall_id rq) w = create_seat_lem O.database hall_id rq w.session
  respond_lem u (bulk_create_seats hall_id rq) w =
      bulk_create_seats_lem O.database hall_id rq w.session
  respond_lem u (delete_seat hall_id seat_id) w = delete_seat_lem hall_id seat_id w.session
  respond_lem u (list_bookings page page_size) w = refl
  respond_lem u (get_booking booking_id) w = refl
  respond_lem u (create_booking rq) w =
      then_lem of_world (Create.create_booking settings O.database R O.broker O.uuid u.id rq) _
        (committed-create_booking settings O.database R O.broker O.uuid u.id rq) (λ b v. refl) w
  respond_lem u (cancel_booking booking_id) w = committed-cancel_booking O.broker booking_id u.id w
  respond_lem u (get_availability hall_id date) w =
      ap (λ (s : Session). s.committed) (slots_session settings hall_id date w)

  run_endpoint_lem :
      (u : User) (route : Route) → Leaves of_world (run_endpoint settings S C valid_email O route u)
  unfolding run_endpoint
  run_endpoint_lem u route =
      then_lem of_world (raise_if (not (numbers_fit route)) database_error) _ (λ w. refl)
        (λ _.
          then_lem of_world (respond settings S C valid_email O route u) _ (respond_lem u route)
            (λ content w. unfold validate_content in refl))

  admit_lem : (valid : Bool) → Leaves of_world (admit_request settings S C valid_email O valid)
  unfolding admit_request
  admit_lem valid w = ground arith

  handle_request_lem :
      (request : Request) → Leaves of_world (handle_request settings S C valid_email O request)
  unfolding handle_request
  handle_request_lem (public_request route) =
      then_lem of_world
        (admit_request settings S C valid_email O (public_body_is_valid valid_email route)) _
        (admit_lem _) (λ _. respond_public_lem route)
  handle_request_lem (user_request authorization route) =
      then_lem of_world (λ w. (authorize C O.clock (needs_admin route) authorization w.current, w))
        _ (λ w. refl)
        (λ u.
          then_lem of_world
            (admit_request settings S C valid_email O (body_is_valid valid_email route)) _
            (admit_lem _) (λ _. run_endpoint_lem u route))

  -- Every request, to whatever route, leaves nothing uncommitted behind; and if it is answered with
  -- an error, raised anywhere between its dependencies and the end of its endpoint, the committed
  -- tables are as they were before it.
  pub answer-committed :
      (request : Request) (w : World R)
      → let (r, w') = answer settings S C valid_email O request w in
        (w'.current ≡ w'.committed) × ((e : Error) → r ≡ err e → w'.committed ≡ w.committed)
  unfolding answer with_world
  answer-committed request w =
      elim (Result-cases (handle_request settings S C valid_email O request w).0) [
        | inl (c, h) ↦ rw h (refl, λ e k. ground arith)
        | inr (e, h) ↦ rw h (refl, λ x k. handle_request_lem request w)
      ]
