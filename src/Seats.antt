-- ===== src/Seats.antt =====
-- app/services/seat_service.py, app/schemas/seat.py and the constraint `uq_seat_position` of
-- app/models/seat.py. The routes of app/routers/seats.py pass on what the service returns.
pub mod Places
pub mod Grid
use booking_api_service.Common.{
  ℕ, ◌+◌, List, [], ◌∷◌, ◌++◌, map, flat_map, range, any, find, select, update_where, Bool, true,
  false, ◌&&◌, ◌||◌, ◌==◌, ltb, if◌then◌else◌,
}
use booking_api_service.Exceptions.{
  Error, Result, ok, err, Detail, text, seat_exists, seat_already_exists, integrity_error,
  database_error, default_seat_not_found,
}
use booking_api_service.Exceptions.Results
use booking_api_service.Action.{Action, pure, raise, asks, gets, or_raise, raise_if, ◌>>=◌, ◌>>◌}
use booking_api_service.Model.{Seat, Db, max_integer}
use booking_api_service.Session.{Database, Session, rollback}
use booking_api_service.Sorting.{Sorting}
use booking_api_service.Halls.{get_hall_or_raise}

pub record SeatCreate : Type 0 where
  pub row : ℕ
  pub number : ℕ

pub record SeatBulkCreate : Type 0 where
  pub rows : ℕ
  pub seats_per_row : ℕ

unfoldable pub list_seats : Sorting → Db → ℕ → Result (List Seat)
list_seats S db hall_id = Results.◌>>◌ (get_hall_or_raise db hall_id) (
    ok (
      S.order_by Seat (λ s. (s.row, s.number))
        (select (λ s. s.hall_id == hall_id && s.is_active) db.seats)))

-- Some seat of the table, active or not, stands there: `uq_seat_position`.
abbrev pub is_taken : List Seat → ℕ → ℕ → ℕ → Bool
is_taken seats hall_id row number =
    any (λ s. s.hall_id == hall_id && s.row == row && s.number == number) seats

abbrev pub with_seats : List Seat → Session → Session
with_seats seats s = record s { current = record s.current { seats = seats } }

-- `range(1, rows + 1)` by `range(1, seats_per_row + 1)`
unfoldable pub grid : ℕ → ℕ → List (ℕ × ℕ)
unfolding flat_map
grid rows seats_per_row =
    flat_map (λ row. map (λ number. (row, number)) (range 1 (seats_per_row + 1)))
      (range 1 (rows + 1))

unfoldable pub recover : {A : Type 0} → Error → Result A → Session → Result A × Session
recover e (err integrity_error) s = (err e, rollback s)
recover e r s = (r, s)

-- `try: flush; except IntegrityError: rollback; raise e`
unfoldable pub replace_integrity_error : {A : Type 0} → Error → Action Session A → Action Session A
unfolding recover
replace_integrity_error e flush s = let (r, s') = flush s in recover e r s'

module _ (D : Database) (hall_id : ℕ) where
  abbrev pub new_seat : ℕ → ℕ → List Seat → Seat
  new_seat row number seats = record {
    id = D.next_id (map (λ s. s.id) seats);
    hall_id = hall_id;
    row = row;
    number = number;
    is_active = true;
  }

  -- The insertion of one row, which the constraint may refuse, or a column: a number past an `Integer`
  -- (no such number is taken).
  unfoldable pub insert_seat : ℕ → ℕ → Action Session Seat
  insert_seat row number s =
      if is_taken s.current.seats hall_id row number
      then (err integrity_error, s)
      else if ltb max_integer row || ltb max_integer number
      then (err database_error, s)
      else (let seat = new_seat row number s.current.seats in
          (ok seat, with_seats (s.current.seats ++ seat ∷ []) s))

  unfoldable pub insert_seats : List (ℕ × ℕ) → Action Session (List Seat)
  unfolding insert_seat
  insert_seats [] = pure []
  insert_seats ((row, number) ∷ places) = do
    seat ← insert_seat row number
    seats ← insert_seats places
    pure (seat ∷ seats)

  unfoldable pub create_seat : SeatCreate → Action Session Seat
  unfolding insert_seat replace_integrity_error
  create_seat rq = do
    asks (λ s. get_hall_or_raise s.current hall_id)
    replace_integrity_error (seat_already_exists (seat_exists rq.row rq.number))
        (insert_seat rq.row rq.number)

  unfoldable pub bulk_create_seats : SeatBulkCreate → Action Session (List Seat)
  unfolding insert_seats replace_integrity_error grid
  bulk_create_seats rq = do
    asks (λ s. get_hall_or_raise s.current hall_id)
    replace_integrity_error (seat_already_exists (text "Some seats already exist"))
        (insert_seats (grid rq.rows rq.seats_per_row))

abbrev pub removed : Seat → Seat
removed seat = record seat { is_active = false }

unfoldable pub delete_seat : ℕ → ℕ → Action Session (Unit {0})
delete_seat hall_id seat_id = do
  asks (λ s. get_hall_or_raise s.current hall_id)
  found ← gets (λ s. find (λ x. x.id == seat_id && x.hall_id == hall_id) s.current.seats)
  or_raise found default_seat_not_found
  λ s. (ok tt, with_seats (update_where (λ x. x.id == seat_id) removed s.current.seats) s)
