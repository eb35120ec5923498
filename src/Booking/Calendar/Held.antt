-- ===== src/Booking/Calendar/Held.antt =====
-- The calendar that the tables stand for, and what an insertion and a cancellation do to it.
use booking_api_service.Common.{
  ℕ, List, ◌≡◌, ◌≤◌, ◌<◌, ◌⊎◌, ap, sym, ◌∙◌, inl, inr, none, refl, arith, true, false, [], ◌∷◌,
  contains, In, In-append_left, In-append_right, subst,
}
use booking_api_service.Datetime.{instant}
use booking_api_service.Model.{Booking, BookingSeat, Seat, Db, confirmed}
use booking_api_service.Session.{Database}
use booking_api_service.Booking.Conflicts.Free.{IsFree}
use booking_api_service.Booking.Create.{insert_booking}
use booking_api_service.Booking.Cancel.{mark_cancelled}
use booking_api_service.Booking.Cancel.Effects.{confirmed_before}
use booking_api_service.Booking.Cancel.Frees.{In-update_where_other}
use booking_api_service.Booking.Exclusive.{
  IsConsistent, booking_ids, no_rival, row_of_old, row_of_new, old_or_new, old_id,
  In-add_booking_seats_old, In-add_booking_seats_new,
}
use booking_api_service.Booking.Calendar.{IsCell, Reserved, Released}

-- A confirmed booking of the hall, under way at that instant, has a row for the seat.
pub record Holds (db : Db) (hall seat time id : ℕ) : Type 0 where
  pub booking : Booking
  pub row : BookingSeat
  pub is_booking : In booking db.bookings
  pub is_row : In row db.booking_seats
  pub is_confirmed : booking.status ≡ confirmed
  pub has_id : booking.id ≡ id
  pub in_hall : booking.hall_id ≡ hall
  pub started : instant booking.start_time ≤ time
  pub not_ended : time < instant booking.end_time
  pub of_booking : row.booking_id ≡ booking.id
  pub of_seat : row.seat_id ≡ seat

-- Who holds a seat still holds it in tables that keep the two rows.
kept :
    {db db' : Db} {h seat time i : ℕ} (k : Holds db h seat time i)
    → In k.booking db'.bookings
    → In k.row db'.booking_seats
    → Holds db' h seat time i
kept k m n = record {
  booking = k.booking;
  row = k.row;
  is_booking = m;
  is_row = n;
  is_confirmed = k.is_confirmed;
  has_id = k.has_id;
  in_hall = k.in_hall;
  started = k.started;
  not_ended = k.not_ended;
  of_booking = k.of_booking;
  of_seat = k.of_seat;
}

module _ (D : Database) (db : Db) (new : Booking) (seat_ids : List ℕ) (valid : IsConsistent db)
    (fresh : contains new.id (booking_ids db) ≡ false)
    (known : (id : ℕ) → contains id seat_ids ≡ true → (s : Seat) × In s db.seats × (s.id ≡ id))
    (free : IsFree db new.hall_id seat_ids new.start_time new.end_time none)
    (is_confirmed : new.status ≡ confirmed) where
  abbrev result : Db
  result = insert_booking D new seat_ids db

  abbrev IsNew : ℕ → ℕ → ℕ → ℕ → Type 0
  IsNew = IsCell new.hall_id seat_ids (instant new.start_time) (instant new.end_time) new.id

  holder :
      (h seat time i : ℕ)
      → Holds result h seat time i
      → Holds db h seat time i ⊎ IsNew h seat time i
  holder h seat time i k =
      elim (old_or_new D db new seat_ids valid fresh known free k.booking k.is_booking) [
        | inl old ↦ inl (
            kept k old (
              row_of_old D db new seat_ids valid fresh known free k.booking k.row old k.is_row
                k.of_booking))
        | inr e ↦ inr (record {
          same_id = sym k.has_id ∙ ap (λ (b : Booking). b.id) e;
          same_hall = sym k.in_hall ∙ ap (λ (b : Booking). b.hall_id) e;
          is_seat =
              ap (λ x. contains x seat_ids) (sym k.of_seat)
              ∙ row_of_new D db new seat_ids valid fresh known free k.row k.is_row
                  (k.of_booking ∙ ap (λ (b : Booking). b.id) e);
          from_start = subst (λ (b : Booking). instant b.start_time ≤ time) e k.started;
          before_end = subst (λ (b : Booking). time < instant b.end_time) e k.not_ended;
        })
      ]

  held :
      (h seat time i : ℕ)
      → Holds db h seat time i ⊎ IsNew h seat time i
      → Holds result h seat time i
  unfolding insert_booking
  held h seat time i (inl k) =
      kept k (In-append_left k.booking db.bookings (new ∷ []) k.is_booking)
        (In-add_booking_seats_old D new.id k.row seat_ids db.booking_seats k.is_row)
  held h seat time i (inr z) =
      let (row, m, e, f) =
        In-add_booking_seats_new D new.id seat seat_ids db.booking_seats z.is_seat in
      record {
        booking = new;
        row = row;
        is_booking = In-append_right new db.bookings (new ∷ []) (inl refl);
        is_row = m;
        is_confirmed = is_confirmed;
        has_id = sym z.same_id;
        in_hall = sym z.same_hall;
        started = z.from_start;
        not_ended = z.before_end;
        of_booking = e;
        of_seat = f;
      }

  -- The insertion of a booking of free seats reserves its cells.
  pub insert_booking-Reserved :
      Reserved
        (Holds db)
        (Holds result)
        new.hall_id
        seat_ids
        (instant new.start_time)
        (instant new.end_time)
        new.id
  unfolding insert_booking
  insert_booking-Reserved = record {
    was_free = λ seat time i m from to k.
        no_rival D db new seat_ids valid fresh known free k.booking k.row k.is_booking k.is_row
          k.is_confirmed k.in_hall
          (let a = k.started in
            let b = k.not_ended in
            record { starts_before_end = omega arith; ends_after_start = omega arith })
          k.of_booking (ap (λ x. contains x seat_ids) k.of_seat ∙ m);
    was_unknown = λ h seat time k.
        let m =
          ap (λ x. contains x (booking_ids db)) (sym k.has_id)
          ∙ old_id D db new seat_ids valid fresh known free k.booking k.is_booking in
        cc (m, fresh);
    filled = λ h seat time i. (holder h seat time i, held h seat time i);
  }

-- Marking a booking as cancelled releases its cells.
pub mark_cancelled-Released :
    (id : ℕ) (db : Db) → Released (Holds db) (Holds (mark_cancelled id db)) id
unfolding mark_cancelled
mark_cancelled-Released id db h seat time i = (
  λ k.
      let (old, ne) = confirmed_before id db k.booking k.is_booking k.is_confirmed in
      (kept k old k.is_row, λ e. ne (k.has_id ∙ e)),
  λ (k, ne).
      kept k
        (In-update_where_other id k.booking db.bookings k.is_booking (λ e. ne (sym k.has_id ∙ e)))
        k.is_row,
)
