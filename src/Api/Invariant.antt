-- ===== src/Api/Invariant.antt =====
-- What every request to app/routers keeps true of the tables.
use booking_api_service.Common.{
  ℕ, String, List, [], ◌∷◌, Bool, true, false, not, ◌≡◌, sym, inl, inr, IsUnique, subst, Bool-cases,
}
use booking_api_service.Exceptions.{Result, ok, validation_error}
use booking_api_service.Exceptions.Results.{Result-cases}
use booking_api_service.Action.{Action, continue, raise_if, ◌>>◌}
use booking_api_service.Settings.{Settings}
use booking_api_service.Model.{User, Db}
use booking_api_service.Session.{Session}
use booking_api_service.Users
use booking_api_service.Users.{UserUpdate}
use booking_api_service.Users.Emails.{HasUniqueEmails}
use booking_api_service.Auth
use booking_api_service.Auth.{Crypto, RegisterRequest}
use booking_api_service.Halls
use booking_api_service.Halls.{HallCreate, HallUpdate}
use booking_api_service.Seats
use booking_api_service.Seats.{
  SeatCreate, SeatBulkCreate, insert_seat, insert_seats, recover, replace_integrity_error, grid,
  removed,
}
use booking_api_service.Booking.Seats.Exist.{seat_ids_of}
use booking_api_service.Sorting.{Sorting}
use booking_api_service.Redis.{Redis}
use booking_api_service.Schemas.{BookingCreate}
use booking_api_service.Booking.Create
use booking_api_service.Booking.Create.{World, with_world, insert_booking}
use booking_api_service.Booking.Create.Outcome.{create_booking-Inserts}
use booking_api_service.Booking.Create.Safe.{create_booking-IsConsistent, create_booking-KnowsSeats}
use booking_api_service.Booking.Cancel
use booking_api_service.Booking.Cancel.{mark_cancelled}
use booking_api_service.Booking.Cancel.Effects.{cancel_booking-Marks, mark_cancelled-IsConsistent}
use booking_api_service.Api.Sound.{
  IsSound, KeepsSound, create_seat-KeepsSound, bulk_create_seats-KeepsSound, delete_seat-KeepsSound,
  update_hall-KeepsSound, delete_hall-KeepsSound, create_hall-KeepsSound, update_user-KeepsSound,
  signup-KeepsSound,
}
use booking_api_service.Api.Own.{slots_session}
use booking_api_service.Api.Atomic.{answer-committed}
use booking_api_service.Api.{
  Outside, PublicRoute, signup, login, Route, Request, public_request, user_request, registered,
  needs_admin, authorize, admit_request, respond_public, respond, run_endpoint, validate_content,
  numbers_fit, reading, after, in_session, rate_limit_exceeded, handle_request, answer,
  get_current_user_profile, list_users, get_user, update_user, list_halls, get_hall, create_hall,
  update_hall, delete_hall, list_seats, create_seat, bulk_create_seats, delete_seat, list_bookings,
  get_booking, create_booking, cancel_booking, get_availability, create_booking_route,
  cancel_booking_route,
}

-- Between requests: nothing is uncommitted, and the tables are sound.
pub record IsAtRest {R : Redis} (w : World R) : Type 0 where
  pub settled : w.current ≡ w.committed
  pub sound : IsSound w.committed

module _ (settings : Settings) (S : Sorting) (C : Crypto) (valid_email : String → Bool)
    (O : Outside) {R : Redis} where
  -- The same of a request, which also has the cache and the topic.
  abbrev Keeps : {A : Type 0} → Action (World R) A → Type 0
  Keeps {A} m =
      (w : World R) → IsSound w.current → (a : A) → (m w).0 ≡ ok a → IsSound (m w).1.current

  in_session-Keeps :
      {A B : Type 0} (content : A → B) (m : Action Session A)
      → KeepsSound m
      → Keeps (in_session content m)
  unfolding in_session
  in_session-Keeps content m keeps w k b h = elim (Result-cases (m w.session).0) [
    | inl (a, g) ↦ keeps w.session k a g
    | inr (e, g) ↦ absurd (cc (rw g at h))
  ]

  respond_public-Keeps :
      (route : PublicRoute) → Keeps (respond_public settings S C valid_email O route)
  unfolding respond_public
  respond_public-Keeps (signup rq) =
      in_session-Keeps registered (Auth.signup C O.database rq) (signup-KeepsSound C O.database rq)
  respond_public-Keeps (login rq) = λ w k c h. unfold reading in k

  create_booking-Keeps :
      (u : User) (rq : BookingCreate) → Keeps (create_booking_route settings O rq u)
  unfolding reading
  create_booking-Keeps u rq w k c h =
      elim (Result-cases
        (Create.create_booking settings O.database R O.broker O.uuid u.id rq w).0) [
          | inr (e, g) ↦ absurd (cc (rw g at h))
          | inl (b, g) ↦
              let w' = (Create.create_booking settings O.database R O.broker O.uuid u.id rq w).1 in
              let done : Create.create_booking settings O.database R O.broker O.uuid u.id rq w
                  ≡ (ok b, w') =
                λ i. (g i, w') in
              let x =
                create_booking-Inserts settings O.database R O.broker O.uuid u.id rq w b w' done in
              rw g (record {
                consistent =
                    create_booking-IsConsistent settings O.database R O.broker O.uuid u.id rq w b w'
                      k.consistent k.seat_ids_unique done;
                seats_known =
                    create_booking-KnowsSeats settings O.database R O.broker O.uuid u.id rq w b w'
                      k.seats_known k.seat_ids_unique done;
                seat_ids_unique =
                    subst (λ (db : Db). IsUnique (seat_ids_of db.seats)) (sym x.current)
                      (unfold insert_booking in k.seat_ids_unique);
                emails_unique =
                    subst (λ (db : Db). HasUniqueEmails db.users) (sym x.current)
                      (unfold insert_booking in k.emails_unique);
              })
        ]

  cancel_booking-Keeps : (u : User) (booking_id : ℕ) → Keeps (cancel_booking_route O booking_id u)
  unfolding after
  cancel_booking-Keeps u booking_id w k c h =
      elim (Result-cases (Cancel.cancel_booking O.broker booking_id u.id w).0) [
        | inr (e, g) ↦ absurd (cc (rw g at h))
        | inl (b, g) ↦
            let w' = (Cancel.cancel_booking O.broker booking_id u.id w).1 in
            let x = cancel_booking-Marks O.broker booking_id u.id w b w' (λ i. (g i, w')) in
            subst IsSound (sym x.current) (record {
              consistent = mark_cancelled-IsConsistent booking_id w.current k.consistent;
              seats_known = unfold mark_cancelled in k.seats_known;
              seat_ids_unique = unfold mark_cancelled in k.seat_ids_unique;
              emails_unique = unfold mark_cancelled in k.emails_unique;
            })
      ]

  respond-Keeps : (u : User) (route : Route) → Keeps (respond settings S C valid_email O route u)
  unfolding respond reading after
  respond-Keeps u get_current_user_profile w k c h = k
  respond-Keeps u (list_users page page_size) w k c h = k
  respond-Keeps u (get_user user_id) w k c h = k
  respond-Keeps u (update_user user_id rq) w k c h =
      in_session-Keeps _ (Users.update_user user_id rq) (update_user-KeepsSound user_id rq) w k c h
  respond-Keeps u list_halls w k c h = k
  respond-Keeps u (get_hall hall_id) w k c h = k
  respond-Keeps u (create_hall rq) w k c h =
      in_session-Keeps _ (Halls.create_hall O.database rq) (create_hall-KeepsSound O.database rq) w
        k c h
  respond-Keeps u (update_hall hall_id rq) w k c h =
      in_session-Keeps _ (Halls.update_hall hall_id rq) (update_hall-KeepsSound hall_id rq) w k c h
  respond-Keeps u (delete_hall hall_id) w k c h =
      in_session-Keeps _ (Halls.delete_hall hall_id) (delete_hall-KeepsSound hall_id) w k c h
  respond-Keeps u (list_seats hall_id) w k c h = k
  respond-Keeps u (create_seat hall_id rq) w k c h =
      in_session-Keeps _ (Seats.create_seat O.database hall_id rq)
        (create_seat-KeepsSound O.database hall_id rq) w k c h
  respond-Keeps u (bulk_create_seats hall_id rq) w k c h =
      in_session-Keeps _ (Seats.bulk_create_seats O.database hall_id rq)
        (bulk_create_seats-KeepsSound O.database hall_id rq) w k c h
  respond-Keeps u (delete_seat hall_id seat_id) w k c h =
      in_session-Keeps _ (Seats.delete_seat hall_id seat_id)
        (delete_seat-KeepsSound hall_id seat_id) w k c h
  respond-Keeps u (list_bookings page page_size) w k c h = k
  respond-Keeps u (get_booking booking_id) w k c h = k
  respond-Keeps u (create_booking rq) w k c h = create_booking-Keeps u rq w k c h
  respond-Keeps u (cancel_booking booking_id) w k c h = cancel_booking-Keeps u booking_id w k c h
  respond-Keeps u (get_availability hall_id date) w k c h =
      subst (λ (s : Session). IsSound s.current) (sym (slots_session settings hall_id date w)) k

  run_endpoint-Keeps :
      (u : User) (route : Route) → Keeps (run_endpoint settings S C valid_email O route u)
  unfolding run_endpoint validate_content
  run_endpoint-Keeps u route w k c h = elim (Bool-cases (numbers_fit route)) [
    | inr large ↦ rw large k
    | inl fits ↦
        let h' = rw fits at h in
        elim (Result-cases (respond settings S C valid_email O route u w).0) [
          | inr (e, g) ↦ absurd (cc (rw g at h'))
          | inl (b, g) ↦ rw (fits, g) (respond-Keeps u route w k b g)
        ]
  ]

  -- A step that changes nothing before one that keeps the tables sound.
  after_check :
      {A B : Type 0} (check : World R → Result A) (next : A → Action (World R) B)
      → ((a : A) → Keeps (next a))
      → Keeps (λ w. continue (check w) next w)
  after_check check next f w k b h = elim (Result-cases (check w)) [
    | inl (a, g) ↦ rw g (f a w k b (rw g at h))
    | inr (e, g) ↦ rw g k
  ]

  checked-Keeps :
      {B : Type 0} (valid within_limit : Bool) (next : Action (World R) B)
      → Keeps next
      → Keeps (
          (raise_if (not valid) validation_error >> raise_if (not within_limit) rate_limit_exceeded)
          >> next)
  checked-Keeps false within_limit next f w k b h = k
  checked-Keeps true false next f w k b h = k
  checked-Keeps true true next f w k b h = f w k b h

  admit_request-Keeps :
      {B : Type 0} (valid : Bool) (next : Action (World R) B)
      → Keeps next
      → Keeps (admit_request settings S C valid_email O valid >> next)
  unfolding admit_request
  admit_request-Keeps valid next f = checked-Keeps valid O.within_limit next f

  handle_request-Keeps :
      (request : Request) → Keeps (handle_request settings S C valid_email O request)
  unfolding handle_request
  handle_request-Keeps (public_request route) =
      admit_request-Keeps _ (respond_public settings S C valid_email O route)
        (respond_public-Keeps route)
  handle_request-Keeps (user_request authorization route) =
      after_check (λ w. authorize C O.clock (needs_admin route) authorization w.current) _
        (λ u.
          admit_request-Keeps _ (run_endpoint settings S C valid_email O route u)
            (run_endpoint-Keeps u route))

  pub answer-IsAtRest :
      (request : Request) (w : World R)
      → IsAtRest w
      → IsAtRest (answer settings S C valid_email O request w).1
  answer-IsAtRest request w k =
      let (settled, failed) = answer-committed settings S C valid_email O request w in
      record {
        settled = settled;
        sound = elim (Result-cases (handle_request settings S C valid_email O request w).0) [
          | inl (c, h) ↦
              unfold answer with_world in
              rw h (handle_request-Keeps request w (subst IsSound (sym k.settled) k.sound) c h)
          | inr (e, h) ↦ subst IsSound (sym (failed e (unfold answer with_world in h))) k.sound
        ];
      }

module _ (settings : Settings) (S : Sorting) (C : Crypto) (valid_email : String → Bool)
    {R : Redis} where
  -- Requests to any routes, one after another, each with what the outside decides for it.
  unfoldable pub serve_requests : List (Outside × Request) → World R → World R
  serve_requests [] w = w
  serve_requests ((O, request) ∷ requests) w =
      serve_requests requests (answer settings S C valid_email O request w).1

  -- However many requests are served one after another, to whatever routes, of whatever callers and
  -- with whatever answers: if it was so at the start, then at the end nothing is uncommitted, the
  -- bookings are consistent and name seats of the table, the ids of the seats are distinct, and no two
  -- users have one e-mail.
  pub serve_requests-IsAtRest :
      (requests : List (Outside × Request)) (w : World R)
      → IsAtRest w
      → IsAtRest (serve_requests requests w)
  unfolding serve_requests
  serve_requests-IsAtRest [] w k = k
  serve_requests-IsAtRest ((O, request) ∷ requests) w k =
      serve_requests-IsAtRest requests (answer settings S C valid_email O request w).1
        (answer-IsAtRest settings S C valid_email O request w k)
