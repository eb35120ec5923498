-- ===== src/Api/Own.antt =====
-- What a user who is no administrator can change through the routes of app/routers.
use booking_api_service.Common.{
  ℕ, String, Option, none, some, List, Bool, true, false, not, ◌≡◌, refl, ap, sym, ◌⊎◌, inl, inr,
  subst, IsUnique, arith, Bool-cases,
}
use booking_api_service.Exceptions.{Error, Result, ok, err, validation_error}
use booking_api_service.Exceptions.Results.{Result-cases}
use booking_api_service.Action.{Action, raise_if, ◌>>◌}
use booking_api_service.Settings.{Settings}
use booking_api_service.Model.{User, Booking}
use booking_api_service.Session.{Session}
use booking_api_service.Sorting.{Sorting}
use booking_api_service.Redis.{Redis, Value, token, json, slots}
use booking_api_service.Auth.{Crypto}
use booking_api_service.Booking.Create.{World, with_world, insert_booking, new_booking}
use booking_api_service.Booking.Create.Outcome.{create_booking-Inserts, committed-create_booking}
use booking_api_service.Booking.Cancel.{booking_with, as_cancelled, mark_cancelled}
use booking_api_service.Booking.Cancel.Effects.{cancel_booking-Marks, committed-cancel_booking}
use booking_api_service.Booking.Exclusive.{booking_ids}
use booking_api_service.Booking.Create
use booking_api_service.Booking.Cancel
use booking_api_service.Booking.Slots.{
  get_available_slots, answer_cached, store_slots, calculate_slots,
}
use booking_api_service.Schemas.{BookingCreate, TimeSlotResponse}
use booking_api_service.Api.Others.{
  KeepsOthers, unchanged, insertion-KeepsOthers, cancellation-KeepsOthers,
}
use booking_api_service.Api.{
  Outside, Route, Request, user_request, Content, needs_admin, body_is_valid, authorize,
  admit_request, respond, run_endpoint, validate_content, numbers_fit, reading, after, in_session,
  rate_limit_exceeded, handle_request, answer, get_current_user_profile, list_users, get_user,
  update_user, list_halls, get_hall, create_hall, update_hall, delete_hall, list_seats, create_seat,
  bulk_create_seats, delete_seat, list_bookings, get_booking, create_booking, cancel_booking,
  get_availability,
}

module _ {R : Redis} (user_id : ℕ) (w : World R) where
  -- What holds of an endpoint, whatever its outcome.
  record Behaves {A : Type 0} (r : Result A) (w' : World R) : Type 0 where
    pub committed : w'.committed ≡ w.committed
    pub current : (a : A) → r ≡ ok a → KeepsOthers user_id w.current w'.current

  reads_only : {A : Type 0} (r : Result A) (w' : World R) → w'.session ≡ w.session → Behaves r w'
  reads_only r w' e = record {
    committed = ap (λ (s : Session). s.committed) e;
    current = λ a h.
        subst (λ (s : Session). KeepsOthers user_id w.current s.current) (sym e)
          (unchanged user_id w.current);
  }

module _ {R : Redis} where
  store_session :
      (hall_id date : ℕ) (r : Result (List TimeSlotResponse)) (w : World R)
      → (store_slots hall_id date r w).1.session ≡ w.session
  unfolding store_slots
  store_session hall_id date (err e) w = refl
  store_session hall_id date (ok xs) w = refl

  cached_session :
      (v : Option Value) (fresh : Action (World R) (List TimeSlotResponse)) (w : World R)
      → (fresh w).1.session ≡ w.session
      → (answer_cached v fresh w).1.session ≡ w.session
  unfolding answer_cached
  cached_session none fresh w h = h
  cached_session (some (json xs)) fresh w h = refl
  cached_session (some (token t)) fresh w h = refl

  pub slots_session :
      (settings : Settings) (hall_id date : ℕ) (w : World R)
      → (get_available_slots settings hall_id date w).1.session ≡ w.session
  unfolding get_available_slots
  slots_session settings hall_id date w =
      cached_session (R.get w.redis (slots hall_id date)) _ w
        (store_session hall_id date (calculate_slots settings w.current hall_id date) w)

module _ (settings : Settings) (S : Sorting) (C : Crypto) (valid_email : String → Bool)
    (O : Outside) {R : Redis} (u : User) (w : World R)
    (unique : IsUnique (booking_ids w.current)) where
  create-Behaves :
      (rq : BookingCreate)
      → let (r, w') = respond settings S C valid_email O (create_booking rq) u w in
        Behaves u.id w r w'
  unfolding respond reading
  create-Behaves rq =
      elim (Result-cases
        (Create.create_booking settings O.database R O.broker O.uuid u.id rq w).0) [
          | inr (e, h) ↦ rw h (record {
            committed = committed-create_booking settings O.database R O.broker O.uuid u.id rq w;
            current = λ a k. ground arith;
          })
          | inl (b, h) ↦
              let w' = (Create.create_booking settings O.database R O.broker O.uuid u.id rq w).1 in
              let k =
                create_booking-Inserts settings O.database R O.broker O.uuid u.id rq w b w'
                  (λ i. (h i, w')) in
              let owner : b.user_id ≡ u.id =
                unfold new_booking in ap (λ (x : Booking). x.user_id) k.row in
              rw h (record {
                committed =
                    committed-create_booking settings O.database R O.broker O.uuid u.id rq w;
                current = λ a d. rw k.current (
                    subst
                      (λ x.
                        KeepsOthers x w.current (insert_booking O.database b rq.seat_ids w.current))
                      owner (insertion-KeepsOthers O.database b rq.seat_ids w.current));
              })
        ]

  cancel-Behaves :
      (booking_id : ℕ)
      → let (r, w') = respond settings S C valid_email O (cancel_booking booking_id) u w in
        Behaves u.id w r w'
  unfolding respond after
  cancel-Behaves booking_id = record {
    committed = committed-cancel_booking O.broker booking_id u.id w;
    current = λ a d. elim (Result-cases (Cancel.cancel_booking O.broker booking_id u.id w).0) [
      | inr (e, h) ↦ absurd (cc (rw h at d))
      | inl (b, h) ↦
          let w' = (Cancel.cancel_booking O.broker booking_id u.id w).1 in
          let k = cancel_booking-Marks O.broker booking_id u.id w b w' (λ i. (h i, w')) in
          rw k.current (
            subst (λ x. KeepsOthers x w.current (mark_cancelled booking_id w.current)) k.owned
              (cancellation-KeepsOthers booking_id k.booking w.current unique k.found))
    ];
  }

  respond-Behaves :
      (route : Route)
      → needs_admin route ≡ false
      → let (r, w') = respond settings S C valid_email O route u w in Behaves u.id w r w'
  unfolding respond reading after booking_api_service.Api.Routes.needs_admin
  respond-Behaves get_current_user_profile free = reads_only u.id w _ w refl
  respond-Behaves list_halls free = reads_only u.id w _ w refl
  respond-Behaves (get_hall hall_id) free = reads_only u.id w _ w refl
  respond-Behaves (list_seats hall_id) free = reads_only u.id w _ w refl
  respond-Behaves (list_bookings page page_size) free = reads_only u.id w _ w refl
  respond-Behaves (get_booking booking_id) free = reads_only u.id w _ w refl
  respond-Behaves (get_availability hall_id date) free =
      reads_only u.id w _ (get_available_slots settings hall_id date w).1
        (slots_session settings hall_id date w)
  respond-Behaves (create_booking rq) free = create-Behaves rq
  respond-Behaves (cancel_booking booking_id) free = cancel-Behaves booking_id
  respond-Behaves (list_users page page_size) free = ground arith
  respond-Behaves (get_user user_id) free = ground arith
  respond-Behaves (update_user user_id rq) free = ground arith
  respond-Behaves (create_hall rq) free = ground arith
  respond-Behaves (update_hall hall_id rq) free = ground arith
  respond-Behaves (delete_hall hall_id) free = ground arith
  respond-Behaves (create_seat hall_id rq) free = ground arith
  respond-Behaves (bulk_create_seats hall_id rq) free = ground arith
  respond-Behaves (delete_seat hall_id seat_id) free = ground arith

  run_endpoint-Behaves :
      (route : Route)
      → needs_admin route ≡ false
      → let (r, w') = run_endpoint settings S C valid_email O route u w in Behaves u.id w r w'
  unfolding run_endpoint validate_content
  run_endpoint-Behaves route free = elim (Bool-cases (numbers_fit route)) [
    | inr large ↦ rw large (reads_only u.id w _ w refl)
    | inl fits ↦
        let k = respond-Behaves route free in
        rw fits (elim (Result-cases (respond settings S C valid_email O route u w).0) [
          | inr (e, g) ↦ rw g (record { committed = k.committed; current = λ c h. cc })
          | inl (b, g) ↦ rw g (record { committed = k.committed; current = λ c h. k.current b g })
        ])
  ]

  checked-Behaves :
      (valid within_limit : Bool) (route : Route)
      → needs_admin route ≡ false
      → let (r, w') =
          ((raise_if (not valid) validation_error
                >> raise_if (not within_limit) rate_limit_exceeded)
              >> run_endpoint settings S C valid_email O route u)
            w in
        Behaves u.id w r w'
  checked-Behaves false within_limit route free = reads_only u.id w _ w refl
  checked-Behaves true false route free = reads_only u.id w _ w refl
  checked-Behaves true true route free = run_endpoint-Behaves route free

  admit_request-Behaves :
      (valid : Bool) (route : Route)
      → needs_admin route ≡ false
      → let (r, w') =
          (admit_request settings S C valid_email O valid
              >> run_endpoint settings S C valid_email O route u)
            w in
        Behaves u.id w r w'
  unfolding admit_request
  admit_request-Behaves valid route free = checked-Behaves valid O.within_limit route free

module _ (settings : Settings) (S : Sorting) (C : Crypto) (valid_email : String → Bool)
    (O : Outside) {R : Redis} (authorization : Option String) (route : Route) (w : World R) where
  closed :
      (u : User) (r : Result Content) (w' : World R)
      → Behaves u.id w r w'
      → w.current ≡ w.committed
      → KeepsOthers u.id w.committed (with_world (λ _. (r, w')) w).1.committed
  unfolding with_world
  closed u (err e) w' k settled =
      subst (KeepsOthers u.id w.committed) (sym k.committed) (unchanged u.id w.committed)
  closed u (ok c) w' k settled =
      subst (λ db. KeepsOthers u.id db w'.current) settled (k.current c refl)

  -- In a session that has just been opened, for a route that does not ask for an administrator: the
  -- request, whatever its answer, leaves the committed users, halls and seats as they were, and of
  -- the bookings changes only those of the user whom the token names: every booking of another user
  -- is still there unchanged, none is added to another user, no seat of a booking is given up, and a
  -- seat is added only to a booking of that user.
  -- A request that names no user changes none of the tables. The ids of the bookings are unique.
  pub answer-KeepsOthers :
      w.current ≡ w.committed
      → IsUnique (booking_ids w.committed)
      → needs_admin route ≡ false
      → let db' =
          (answer settings S C valid_email O (user_request authorization route) w).1.committed in
        ((u : User) × (authorize C O.clock false authorization w.committed ≡ ok u)
          × KeepsOthers u.id w.committed db')
        ⊎ ((e : Error) × (authorize C O.clock false authorization w.committed ≡ err e)
            × (db' ≡ w.committed))
  unfolding answer handle_request with_world
  answer-KeepsOthers settled unique free =
      elim (Result-cases (authorize C O.clock false authorization w.current)) [
        | inr (e, a) ↦ inr (e, rw settled at a, rw free (rw a refl))
        | inl (u, a) ↦ inl (
          u,
          rw settled at a,
          rw free (
              rw a (
                closed u _ _
                  (admit_request-Behaves settings S C valid_email O u w (rw settled unique)
                    (body_is_valid valid_email route) route free)
                  settled)),
        )
      ]
