-- ===== src/Booking/Create/Safe.antt =====
-- `create_booking` sells no seat twice, as long as requests come one after another.
use booking_api_service.Common.{
  ℕ, String, none, ◌≡◌, ap, some, [], arith, ◌∙◌, inl, inr, IsUnique, ◌==◌, find, ◌&&◌, List, In,
  In-map, subst, sym, contains, true,
}
use booking_api_service.Exceptions.{Result, ok}
use booking_api_service.Exceptions.Results.{Result-cases}
use booking_api_service.Settings.{Settings}
use booking_api_service.Model.{User, Hall, Seat, Booking, Db}
use booking_api_service.Schemas.{BookingCreate}
use booking_api_service.Session.{Database}
use booking_api_service.Kafka.{Broker}
use booking_api_service.Redis.{Redis}
use booking_api_service.Booking.Slot.{validate_time_slot}
use booking_api_service.Booking.Seats.{validate_seats_exist}
use booking_api_service.Booking.Seats.Exist.{seat_ids_of, IsBookable, validate_seats_exist_iff}
use booking_api_service.Booking.Conflicts.{check_seat_conflicts}
use booking_api_service.Booking.Conflicts.Free.{check_seat_conflicts_iff, check_seat_conflicts-ok}
use booking_api_service.Booking.Create.{World, admit, new_booking, insert_booking, create_booking}
use booking_api_service.Booking.Create.Outcome.{create_booking-Inserts}
use booking_api_service.Booking.Queries.Known.{KnowsSeats}
use booking_api_service.Booking.Exclusive.{
  IsConsistent, insert_booking-IsConsistent, In-add_booking_seats, booking_ids,
}

-- What every check of `admit` has found.
pub record IsAdmitted (settings : Settings) (user_id : ℕ) (rq : BookingCreate) (db : Db)
    (hall : Hall) (user : User) : Type 0 where
  pub hall_found : find (λ h. h.id == rq.hall_id && h.is_active) db.halls ≡ some hall
  pub user_found : find (λ u. u.id == user_id) db.users ≡ some user
  pub slot_accepted : validate_time_slot settings rq.start_time rq.end_time ≡ ok tt
  pub seats_found :
      (seats : List Seat) × (validate_seats_exist db rq.hall_id rq.seat_ids ≡ ok seats)
  pub no_conflict :
      check_seat_conflicts db rq.hall_id rq.seat_ids rq.start_time rq.end_time none ≡ ok []

pub admit-IsAdmitted :
    (settings : Settings) (user_id : ℕ) (rq : BookingCreate) (db : Db) (hall : Hall) (user : User)
    → admit settings user_id rq db ≡ ok (hall, user)
    → IsAdmitted settings user_id rq db hall user
unfolding admit
admit-IsAdmitted settings user_id rq db hall user h =
    elim (Result-cases (validate_seats_exist db rq.hall_id rq.seat_ids)) [
      | inr (e, d) ↦ ground arith
      | inl (seats, d) ↦ record {
        hall_found = ground arith;
        user_found = ground arith;
        slot_accepted = ground arith;
        seats_found = (seats, d);
        no_conflict =
            elim (Result-cases
              (check_seat_conflicts db rq.hall_id rq.seat_ids rq.start_time rq.end_time none)) [
                | inr (e, c) ↦ ground arith
                | inl (xs, c) ↦
                    c
                    ∙ ap ok (
                        check_seat_conflicts-ok db rq.hall_id rq.seat_ids rq.start_time rq.end_time
                          none xs c)
              ];
      }
    ]

module _ (settings : Settings) (D : Database) (R : Redis) (broker : Broker) (token : String)
    (user_id : ℕ) (rq : BookingCreate) (w : World R) where
  abbrev call : Result Booking × World R
  call = create_booking settings D R broker token user_id rq w

  -- A successful call keeps the invariant: the booking that it adds shares no seat with a confirmed
  -- booking that overlaps it.
  pub create_booking-IsConsistent :
      (b : Booking) (w' : World R)
      → IsConsistent w.current
      → IsUnique (seat_ids_of w.current.seats)
      → call ≡ (ok b, w')
      → IsConsistent w'.current
  create_booking-IsConsistent b w' valid unique done =
      let k = create_booking-Inserts settings D R broker token user_id rq w b w' done in
      let a = admit-IsAdmitted settings user_id rq w.current k.hall k.user k.was_admitted in
      let seats =
        ((validate_seats_exist_iff w.current rq.hall_id rq.seat_ids unique).0 a.seats_found).1 in
      let new = new_booking D user_id k.hall rq w.current in
      rw (k.current, k.row)
        (unfold new_booking in
          insert_booking-IsConsistent D w.current new rq.seat_ids valid
            (D.next_id-fresh (booking_ids w.current))
            (λ id m. let (s, i, e, h, act) = seats id m in (s, i, e))
            ((check_seat_conflicts_iff w.current rq.hall_id rq.seat_ids rq.start_time rq.end_time
                none).0
              a.no_conflict))

  -- So does the knowledge of the seats: those of the new rows were found in the table.
  pub create_booking-KnowsSeats :
      (b : Booking) (w' : World R)
      → KnowsSeats w.current
      → IsUnique (seat_ids_of w.current.seats)
      → call ≡ (ok b, w')
      → KnowsSeats w'.current
  create_booking-KnowsSeats b w' known unique done =
      let k = create_booking-Inserts settings D R broker token user_id rq w b w' done in
      let a = admit-IsAdmitted settings user_id rq w.current k.hall k.user k.was_admitted in
      let seats =
        ((validate_seats_exist_iff w.current rq.hall_id rq.seat_ids unique).0 a.seats_found).1 in
      subst KnowsSeats (sym k.current) (inserted seats)
    where
      inserted :
          ((id : ℕ) → contains id rq.seat_ids ≡ true → IsBookable w.current rq.hall_id id)
          → KnowsSeats (insert_booking D b rq.seat_ids w.current)
      inserted seats r m =
          unfold insert_booking in
          elim (In-add_booking_seats D b.id r rq.seat_ids w.current.booking_seats
            (unfold insert_booking in m)) [
              | inl old ↦ known r old
              | inr (e, c) ↦
                  let (s, i, q, h, act) = seats r.seat_id c in
                  subst (λ id. In id (seat_ids_of w.current.seats)) q
                    (In-map (λ (x : Seat). x.id) s w.current.seats i)
            ]
