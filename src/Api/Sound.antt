-- ===== src/Api/Sound.antt =====
-- What the actions of the services keep true of the tables.
use booking_api_service.Common.{
  ℕ, ◌||◌, ltb, String, List, [], ◌∷◌, Bool, ◌≡◌, refl, ap, sym, inl, inr, arith, IsUnique,
  IsUnique-snoc, subst, In-append_left, update_where, ◌==◌, Bool-cases,
}
use mathlib.Core.List.{map-append}
use booking_api_service.Exceptions.{Error, Result, ok, err, integrity_error}
use booking_api_service.Exceptions.Results.{Result-cases}
use booking_api_service.Action.{Action, continue}
use booking_api_service.Model.{UserRole, Seat, Db, user, max_integer}
use booking_api_service.Session.{Database, Session}
use booking_api_service.Users
use booking_api_service.Users.{UserUpdate}
use booking_api_service.Users.Emails.{
  HasUniqueEmails, update_user-HasUniqueEmails, update_user-IsUpdated,
}
use booking_api_service.Auth
use booking_api_service.Auth.{Crypto, RegisterRequest}
use booking_api_service.Auth.Login.{register_user-HasUniqueEmails}
use booking_api_service.Halls
use booking_api_service.Halls.{HallCreate, HallUpdate}
use booking_api_service.Seats
use booking_api_service.Seats.{
  SeatCreate, SeatBulkCreate, insert_seat, insert_seats, recover, replace_integrity_error, grid,
  removed,
}
use booking_api_service.Booking.Seats.Exist.{seat_ids_of}
use booking_api_service.Booking.Queries.Known.{KnowsSeats}
use booking_api_service.Booking.Exclusive.{IsConsistent}

-- The bookings are consistent and name seats of the table, the ids of the seats are distinct, and no
-- two users have one e-mail.
pub record IsSound (db : Db) : Type 0 where
  pub consistent : IsConsistent db
  pub seats_known : KnowsSeats db
  pub seat_ids_unique : IsUnique (seat_ids_of db.seats)
  pub emails_unique : HasUniqueEmails db.users

-- The tables that `IsSound` reads, but for those that a change may write.
same_bookings :
    (db db' : Db)
    → db'.bookings ≡ db.bookings
    → db'.booking_seats ≡ db.booking_seats
    → IsConsistent db
    → IsConsistent db'
same_bookings db db' e f k = record {
  ids_unique = rw e k.ids_unique;
  rows_refer = λ r m. rw e (k.rows_refer r (rw f at m));
  exclusive =
      λ a b r s i j m n. k.exclusive a b r s (rw e at i) (rw e at j) (rw f at m) (rw f at n);
}

-- What an action that returns makes of sound tables.
abbrev pub KeepsSound : {A : Type 0} → Action Session A → Type 0
KeepsSound {A} m =
    (s : Session) → IsSound s.current → (a : A) → (m s).0 ≡ ok a → IsSound (m s).1.current

module _ (D : Database) (hall_id : ℕ) where
  insert_seat-IsSound :
      (row number : ℕ) (s : Session)
      → IsSound s.current
      → IsSound (insert_seat D hall_id row number s).1.current
  unfolding insert_seat
  insert_seat-IsSound row number s k =
      elim (Bool-cases (Seats.is_taken s.current.seats hall_id row number)) [
        | inl e ↦ rw e k
        | inr e ↦ elim (Bool-cases (ltb max_integer row || ltb max_integer number)) [
          | inl large ↦ rw (e, large) k
          | inr small ↦
              let new = Seats.new_seat D hall_id row number s.current.seats in
              let ids = map-append (λ (x : Seat). x.id) s.current.seats (new ∷ []) in
              rw (e, small)
                (record {
                  consistent = same_bookings s.current _ refl refl k.consistent;
                  seats_known = λ r m. rw ids (
                      In-append_left r.seat_id (seat_ids_of s.current.seats) (new.id ∷ [])
                        (k.seats_known r m));
                  seat_ids_unique = rw ids (
                      IsUnique-snoc new.id (seat_ids_of s.current.seats) k.seat_ids_unique
                        (D.next_id-fresh (seat_ids_of s.current.seats)));
                  emails_unique = k.emails_unique;
                })
        ]
      ]

  insert_seats-IsSound :
      (places : List (ℕ × ℕ)) (s : Session)
      → IsSound s.current
      → IsSound (insert_seats D hall_id places s).1.current
  unfolding insert_seats
  insert_seats-IsSound [] s k = k
  insert_seats-IsSound ((row, number) ∷ places) s k =
      elim (Result-cases (insert_seat D hall_id row number s).0) [
        | inr (e, h) ↦ rw h (insert_seat-IsSound row number s k)
        | inl (x, h) ↦
            let later =
              insert_seats-IsSound places (insert_seat D hall_id row number s).1
                (insert_seat-IsSound row number s k) in
            rw h
              (elim (Result-cases
                (insert_seats D hall_id places (insert_seat D hall_id row number s).1).0) [
                  | inr (e, g) ↦ rw g later
                  | inl (xs, g) ↦ rw g later
                ])
      ]

framed :
    (db db' : Db)
    → db'.bookings ≡ db.bookings
    → db'.booking_seats ≡ db.booking_seats
    → seat_ids_of db'.seats ≡ seat_ids_of db.seats
    → HasUniqueEmails db'.users
    → IsSound db
    → IsSound db'
framed db db' a b c d k = record {
  consistent = same_bookings db db' a b k.consistent;
  seats_known = λ r m. rw c (k.seats_known r (rw b at m));
  seat_ids_unique = rw c k.seat_ids_unique;
  emails_unique = d;
}

untouched :
    (db db' : Db)
    → db'.bookings ≡ db.bookings
    → db'.booking_seats ≡ db.booking_seats
    → seat_ids_of db'.seats ≡ seat_ids_of db.seats
    → db'.users ≡ db.users
    → IsSound db
    → IsSound db'
untouched db db' a b c d k = framed db db' a b c (subst HasUniqueEmails (sym d) k.emails_unique) k

removed_ids :
    (p : Seat → Bool) (xs : List Seat) → seat_ids_of (update_where p removed xs) ≡ seat_ids_of xs
removed_ids p [] = refl
removed_ids p (x ∷ xs) = ground (arith, removed_ids p xs)

recover-ok :
    {A : Type 0} (e : Error) (r : Result A) (s : Session) (a : A)
    → (recover e r s).0 ≡ ok a
    → (recover e r s).1 ≡ s
unfolding recover
recover-ok e (err integrity_error) s a h = ground arith
recover-ok e r s a h = refl

-- What is made of a result changes no state.
continue_state :
    {A B S : Type 0} (r : Result A) (f : A → B) (s : S)
    → (continue r (λ a t. (ok (f a), t)) s).1 ≡ s
continue_state (ok a) f s = refl
continue_state (err e) f s = refl

pub create_seat-KeepsSound :
    (D : Database) (hall_id : ℕ) (rq : SeatCreate) → KeepsSound (Seats.create_seat D hall_id rq)
unfolding Seats.create_seat replace_integrity_error
create_seat-KeepsSound D hall_id rq s k a h =
    elim (Result-cases (Halls.get_hall_or_raise s.current hall_id)) [
      | inr (e, g) ↦ rw g k
      | inl (x, g) ↦
          let h' = rw g at h in
          rw g (
            rw
              (recover-ok _ (insert_seat D hall_id rq.row rq.number s).0
                (insert_seat D hall_id rq.row rq.number s).1 a h')
              (insert_seat-IsSound D hall_id rq.row rq.number s k))
    ]

pub bulk_create_seats-KeepsSound :
    (D : Database) (hall_id : ℕ) (rq : SeatBulkCreate)
    → KeepsSound (Seats.bulk_create_seats D hall_id rq)
unfolding Seats.bulk_create_seats replace_integrity_error
bulk_create_seats-KeepsSound D hall_id rq s k a h =
    let places = grid rq.rows rq.seats_per_row in
    elim (Result-cases (Halls.get_hall_or_raise s.current hall_id)) [
      | inr (e, g) ↦ rw g k
      | inl (x, g) ↦
          let h' = rw g at h in
          rw g (
            rw
              (recover-ok _ (insert_seats D hall_id places s).0 (insert_seats D hall_id places s).1
                a h')
              (insert_seats-IsSound D hall_id places s k))
    ]

pub delete_seat-KeepsSound : (hall_id id : ℕ) → KeepsSound (Seats.delete_seat hall_id id)
unfolding Seats.delete_seat
delete_seat-KeepsSound hall_id id s k a h =
    let ids = removed_ids (λ x. x.id == id) s.current.seats in
    untouched s.current _ (ground arith) (ground arith) (ground (arith, ids)) (ground arith) k

pub update_hall-KeepsSound : (id : ℕ) (rq : HallUpdate) → KeepsSound (Halls.update_hall id rq)
unfolding Halls.update_hall Halls.write_hall
update_hall-KeepsSound id rq s k a h =
    untouched s.current _ (ground arith) (ground arith) (ground arith) (ground arith) k

pub delete_hall-KeepsSound : (id : ℕ) → KeepsSound (Halls.delete_hall id)
unfolding Halls.delete_hall Halls.write_hall
delete_hall-KeepsSound id s k a h =
    untouched s.current _ (ground arith) (ground arith) (ground arith) (ground arith) k

pub create_hall-KeepsSound : (D : Database) (rq : HallCreate) → KeepsSound (Halls.create_hall D rq)
unfolding Halls.create_hall
create_hall-KeepsSound D rq s k a h =
    elim (Bool-cases (Halls.is_past_columns rq.capacity rq.hourly_rate)) [
      | inl large ↦ rw large k
      | inr small ↦ rw small (untouched s.current _ refl refl refl refl k)
    ]

pub update_user-KeepsSound : (id : ℕ) (rq : UserUpdate) → KeepsSound (Users.update_user id rq)
update_user-KeepsSound id rq s k a h =
    let s' = (Users.update_user id rq s).1 in
    let done = update_user-IsUpdated id rq s a s' (λ i. (h i, s')) in
    framed s.current s'.current (ap (λ (db : Db). db.bookings) done.current)
      (ap (λ (db : Db). db.booking_seats) done.current)
      (ap (λ (db : Db). seat_ids_of db.seats) done.current)
      (update_user-HasUniqueEmails id rq s a s' k.emails_unique (λ i. (h i, s'))) k

register_user-KeepsSound :
    (C : Crypto) (D : Database) (email password : String) (role : UserRole)
    → KeepsSound (Auth.register_user C D email password role)
unfolding Auth.register_user
register_user-KeepsSound C D email password role s k a h =
    let s' = (Auth.register_user C D email password role s).1 in
    framed s.current s'.current (ground arith) (ground arith) (ground arith)
      (register_user-HasUniqueEmails C D email password role s a s' k.emails_unique
        (λ i. (h i, s')))
      k

register_user-IsSound :
    (C : Crypto) (D : Database) (email password : String) (role : UserRole) (s : Session)
    → IsSound s.current
    → IsSound (Auth.register_user C D email password role s).1.current
register_user-IsSound C D email password role s k =
    elim (Result-cases (Auth.register_user C D email password role s).0) [
      | inl (u, g) ↦ register_user-KeepsSound C D email password role s k u g
      | inr (e, g) ↦ subst IsSound (sym (failed e g)) k
    ]
  where
    failed :
        (e : Error)
        → (Auth.register_user C D email password role s).0 ≡ err e
        → (Auth.register_user C D email password role s).1.current ≡ s.current
    failed e g = unfold Auth.register_user in ground arith

pub signup-KeepsSound :
    (C : Crypto) (D : Database) (rq : RegisterRequest) → KeepsSound (Auth.signup C D rq)
unfolding Auth.signup
signup-KeepsSound C D rq s k a h =
    let (r, s') = Auth.register_user C D rq.email rq.password user s in
    subst (λ (t : Session). IsSound t.current)
      (sym (continue_state (Auth.as_unauthorized C r) _ s'))
      (register_user-IsSound C D rq.email rq.password user s k)
