-- ===== src/Booking/Create/Effects.antt =====
-- What a call of `create_booking` that returns a booking has done, row by row.
use booking_api_service.Common.{
  ℕ, ◌-◌, ◌*◌, ◌/◌, String, List, [], ◌∷◌, ◌++◌, map, none, true, false, ◌≤◌, ◌≡◌, refl, ap, sym,
  ◌∙◌, inl, inr, contains, In,
}
use mathlib.Core.List.{append-nil, append_assoc}
use booking_api_service.Exceptions.{ok}
use booking_api_service.Settings.{Settings}
use booking_api_service.Datetime.{instant, hour_length}
use booking_api_service.Model.{User, Hall, Booking, BookingSeat, Db, confirmed, max_money}
use booking_api_service.Schemas.{BookingCreate}
use booking_api_service.Session.{Database}
use booking_api_service.Kafka.{Event, booking_created, Broker}
use booking_api_service.Redis.{Redis}
use booking_api_service.Booking.Slot.{calculate_price, booked_hours}
use booking_api_service.Booking.Create.{
  World, admit, new_booking, insert_booking, add_booking_seats, created_event, lock_key,
  create_booking,
}
use booking_api_service.Booking.Create.Outcome.{create_booking-Inserts}
use booking_api_service.Booking.Exclusive.{booking_ids}

-- The rows that a booking adds: one for each seat, in order, under its id.
pub record HasRows (booking_id : ℕ) (seat_ids : List ℕ) (old new : List BookingSeat) : Type 0 where
  pub rows : List BookingSeat
  pub added : new ≡ old ++ rows
  pub seats : map (λ (r : BookingSeat). r.seat_id) rows ≡ seat_ids
  pub of_booking : (r : BookingSeat) → In r rows → r.booking_id ≡ booking_id

add_booking_seats-HasRows :
    (D : Database) (id : ℕ) (seat_ids : List ℕ) (old : List BookingSeat)
    → HasRows id seat_ids old (add_booking_seats D id seat_ids old)
unfolding add_booking_seats
add_booking_seats-HasRows D id [] old = record {
  rows = [];
  added = sym (append-nil old);
  seats = refl;
  of_booking = λ r m. elim m [ ];
}
add_booking_seats-HasRows D id (x ∷ xs) old =
    let row : BookingSeat = record {
      id = D.next_id (map (λ r. r.id) old);
      booking_id = id;
      seat_id = x;
    } in
    let k = add_booking_seats-HasRows D id xs (old ++ row ∷ []) in
    record {
      rows = row ∷ k.rows;
      added = k.added ∙ append_assoc old (row ∷ []) k.rows;
      seats = ap (◌∷◌ x) k.seats;
      of_booking = λ r m. elim m [
        | inl e ↦ ap (λ (y : BookingSeat). y.booking_id) e
        | inr i ↦ k.of_booking r i
      ];
    }

module _ (settings : Settings) (D : Database) (R : Redis) (broker : Broker) (token : String)
    (user_id : ℕ) (rq : BookingCreate) (w : World R) where
  -- The booking is new, has what was asked for, and costs the rate of its hall for each full hour.
  pub record IsDraft (hall : Hall) (b : Booking) : Type 0 where
    pub id_is_new : contains b.id (booking_ids w.current) ≡ false
    pub owner : b.user_id ≡ user_id
    pub in_hall : b.hall_id ≡ rq.hall_id
    pub starts : b.start_time ≡ rq.start_time
    pub ends : b.end_time ≡ rq.end_time
    pub status : b.status ≡ confirmed
    pub price :
        b.total_price
        ≡ hall.hourly_rate * ((instant rq.end_time - instant rq.start_time) / hour_length)
    pub price_fits : b.total_price ≤ max_money

  -- Nothing has changed in the session but one booking at the end of its table, and its rows.
  pub record IsAdded (b : Booking) (db db' : Db) : Type 0 where
    pub users : db'.users ≡ db.users
    pub halls : db'.halls ≡ db.halls
    pub seats : db'.seats ≡ db.seats
    pub bookings : db'.bookings ≡ db.bookings ++ b ∷ []
    pub booking_seats : HasRows b.id rq.seat_ids db.booking_seats db'.booking_seats

  abbrev pub announcement : Hall → User → Booking → Event
  announcement hall user b = booking_created (record {
    booking_id = b.id;
    user_id = user_id;
    user_email = user.email;
    hall_name = hall.name;
    start_time = rq.start_time;
    end_time = rq.end_time;
    total_price = b.total_price;
  })

  pub record IsBooked (b : Booking) (w' : World R) : Type 0 where
    pub hall : Hall
    pub user : User
    pub was_admitted : admit settings user_id rq w.current ≡ ok (hall, user)
    pub lock_was_free : R.get w.redis (lock_key rq) ≡ none
    pub drafted : IsDraft hall b
    pub current : IsAdded b w.current w'.current
    pub committed : w'.committed ≡ w.committed
    pub announced : broker (announcement hall user b) ≡ true
    pub topic : w'.topic ≡ w.topic ++ announcement hall user b ∷ []

  new_booking-IsDraft :
      (hall : Hall)
      → (new_booking D user_id hall rq w.current).total_price ≤ max_money
      → IsDraft hall (new_booking D user_id hall rq w.current)
  unfolding new_booking calculate_price booked_hours
  new_booking-IsDraft hall fits = record {
    id_is_new = D.next_id-fresh (map (λ (b : Booking). b.id) w.current.bookings);
    owner = refl;
    in_hall = refl;
    starts = refl;
    ends = refl;
    status = refl;
    price = refl;
    price_fits = fits;
  }

  announced_as :
      (hall : Hall) (user : User) (b : Booking)
      → b ≡ new_booking D user_id hall rq w.current
      → created_event user_id hall user b ≡ announcement hall user b
  unfolding created_event new_booking
  announced_as hall user b row = rw row refl

  insert_booking-IsAdded :
      (b : Booking) → IsAdded b w.current (insert_booking D b rq.seat_ids w.current)
  unfolding insert_booking
  insert_booking-IsAdded b = record {
    users = refl;
    halls = refl;
    seats = refl;
    bookings = refl;
    booking_seats = add_booking_seats-HasRows D b.id rq.seat_ids w.current.booking_seats;
  }

  -- A call of `create_booking` that returns a booking passed every check and found the lock free. The
  -- booking has an id that no other has, the user, hall and times of the request, the status
  -- "confirmed", and a price of the hall's rate for each full hour, which its column holds. The call
  -- has added that booking to the session, with one row for each requested seat, and changed no other
  -- row; it has committed nothing, and published one event with the data of the booking.
  pub create_booking-IsBooked :
      (b : Booking) (w' : World R)
      → create_booking settings D R broker token user_id rq w ≡ (ok b, w')
      → IsBooked b w'
  create_booking-IsBooked b w' done =
      let k = create_booking-Inserts settings D R broker token user_id rq w b w' done in
      record {
        hall = k.hall;
        user = k.user;
        was_admitted = k.was_admitted;
        lock_was_free = k.lock_was_free;
        drafted = rw k.row (new_booking-IsDraft k.hall (rw k.row at (k.price_fits)));
        current = rw k.current (insert_booking-IsAdded b);
        committed = k.committed;
        announced = sym (ap broker (announced_as k.hall k.user b k.row)) ∙ k.announced;
        topic = k.topic ∙ ap (λ e. w.topic ++ e ∷ []) (announced_as k.hall k.user b k.row);
      }
