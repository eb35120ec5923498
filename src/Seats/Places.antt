-- ===== src/Seats/Places.antt =====
-- No two seats of a hall stand at one place, and what the operations on seats do to that.
use booking_api_service.Common.{
  ℕ, ◌≤◌, ltb, find-In, &&_true, ==_iff, ==_false, ◌≡◌, refl, ap, sym, ◌∙◌, inl, inr, ◌⊎◌, List, [],
  ◌∷◌, ◌++◌, map, some, true, false, ◌&&◌, ◌||◌, ◌==◌, find, update_where, In, In-update_where,
  arith, Bool-cases,
}
use mathlib.Core.List.{append-nil, append_assoc}
use booking_api_service.Exceptions.{
  ok, err, integrity_error, seat_already_exists, seat_exists, text,
}
use booking_api_service.Model.{Hall, Seat, Db, max_integer}
use booking_api_service.Session.{Database, Session}
use booking_api_service.Halls.{get_hall_or_raise}
use booking_api_service.Booking.Seats.Exist.{IsBookable}
use booking_api_service.Seats.{
  SeatCreate, SeatBulkCreate, is_taken, new_seat, with_seats, grid, removed,
  replace_integrity_error, insert_seat, insert_seats, create_seat, bulk_create_seats, delete_seat,
}

-- No two seats of the list stand at the same place of the same hall.
abbrev pub IsPlaced : List Seat → Type 0
IsPlaced [] = Unit
IsPlaced (s ∷ seats) = (is_taken seats s.hall_id s.row s.number ≡ false) × IsPlaced seats

is_taken-snoc :
    (hall_id row number : ℕ) (seats : List Seat) (new : Seat)
    → is_taken (seats ++ new ∷ []) hall_id row number ≡ (
        is_taken seats hall_id row number
        || (new.hall_id == hall_id && new.row == row && new.number == number))
is_taken-snoc hall_id row number [] new = ground arith
is_taken-snoc hall_id row number (s ∷ seats) new =
    ground (arith, is_taken-snoc hall_id row number seats new)

IsPlaced-snoc :
    (seats : List Seat) (new : Seat)
    → IsPlaced seats
    → is_taken seats new.hall_id new.row new.number ≡ false
    → IsPlaced (seats ++ new ∷ [])
IsPlaced-snoc [] new p h = (refl, tt)
IsPlaced-snoc (s ∷ seats) new p h = (
  ground (arith, is_taken-snoc s.hall_id s.row s.number seats new),
  IsPlaced-snoc seats new p.1 (ground arith),
)

-- Both numbers of a place are within an `Integer`.
abbrev pub FitsColumns : ℕ × ℕ → Type 0
FitsColumns (row, number) = (row ≤ max_integer) × (number ≤ max_integer)

abbrev pub place : Seat → ℕ × ℕ
place s = (s.row, s.number)

module _ (D : Database) (hall_id : ℕ) where
  -- What a successful insertion of some places has done to a session.
  pub record IsInserted (places : List (ℕ × ℕ)) (s : Session) (seats : List Seat) (s' : Session)
      : Type 0 where
    pub at_places : map place seats ≡ places
    pub in_hall : (x : Seat) → In x seats → (x.hall_id ≡ hall_id) × (x.is_active ≡ true)
    pub current : s'.current ≡ record s.current { seats = s.current.seats ++ seats }
    pub committed : s'.committed ≡ s.committed
    pub keeps_places : IsPlaced s.current.seats → IsPlaced s'.current.seats

  insert_seats-outcome :
      (places : List (ℕ × ℕ)) (s : Session)
      → ((p : ℕ × ℕ) → In p places → FitsColumns p)
      → let (r, s') = insert_seats D hall_id places s in
        ((r ≡ err integrity_error) × (s'.committed ≡ s.committed))
        ⊎ ((seats : List Seat) × (r ≡ ok seats) × IsInserted places s seats s')
  unfolding insert_seats insert_seat
  insert_seats-outcome [] s fits = inr (
    [],
    refl,
    record {
      at_places = refl;
      in_hall = λ x m. elim m [ ];
      current = ap (λ z. record s.current { seats = z }) (sym (append-nil s.current.seats));
      committed = refl;
      keeps_places = λ p. p;
    },
  )
  insert_seats-outcome ((row, number) ∷ places) s fits =
      elim (Bool-cases (is_taken s.current.seats hall_id row number)) [
        | inl e ↦ inl (rw e (refl, refl))
        | inr e ↦
            let seat = new_seat D hall_id row number s.current.seats in
            let small : (ltb max_integer row || ltb max_integer number) ≡ false =
              let k = fits (row, number) (inl refl) in ground arith in
            let s₁ = with_seats (s.current.seats ++ seat ∷ []) s in
            elim (insert_seats-outcome places s₁ (λ p m. fits p (inr m))) [
              | inl (r, c) ↦ inl (rw e (rw small (rw r (refl, c))))
              | inr (seats, r, k) ↦ inr (
                seat ∷ seats,
                rw e (rw small (rw r refl)),
                rw e (
                    rw small (
                      rw r (record {
                        at_places = ap (◌∷◌ (row, number)) k.at_places;
                        in_hall = λ x m. elim m [
                          | inl q ↦
                              (ap (λ (y : Seat). y.hall_id) q, ap (λ (y : Seat). y.is_active) q)
                          | inr i ↦ k.in_hall x i
                        ];
                        current =
                            k.current
                            ∙ ap (λ z. record s.current { seats = z })
                                (append_assoc s.current.seats (seat ∷ []) seats);
                        committed = k.committed;
                        keeps_places = λ p. k.keeps_places (IsPlaced-snoc s.current.seats seat p e);
                      }))),
              )
            ]
      ]

  -- What creating a grid of seats does to the session, in terms of the code's grid.
  pub bulk_create_seats-IsInserted :
      (rq : SeatBulkCreate) (hall : Hall) (s : Session)
      → get_hall_or_raise s.current hall_id ≡ ok hall
      → ((p : ℕ × ℕ) → In p (grid rq.rows rq.seats_per_row) → FitsColumns p)
      → let (r, s') = bulk_create_seats D hall_id rq s in
        ((r ≡ err (seat_already_exists (text "Some seats already exist")))
          × (s'.current ≡ s.committed)
          × (s'.committed ≡ s.committed))
        ⊎ ((seats : List Seat) × (r ≡ ok seats)
            × IsInserted (grid rq.rows rq.seats_per_row) s seats s')
  unfolding bulk_create_seats replace_integrity_error
  bulk_create_seats-IsInserted rq hall s e fits =
      elim (insert_seats-outcome (grid rq.rows rq.seats_per_row) s fits) [
        | inl (r, c) ↦ inl (rw e (rw r (refl, c, c)))
        | inr (seats, r, k) ↦ inr (seats, rw e (rw r refl), rw e (rw r k))
      ]

  create_seat_refused :
      (rq : SeatCreate) (hall : Hall) (s : Session)
      → get_hall_or_raise s.current hall_id ≡ ok hall
      → is_taken s.current.seats hall_id rq.row rq.number ≡ true
      → (create_seat D hall_id rq s).0 ≡ err (seat_already_exists (seat_exists rq.row rq.number))
  unfolding create_seat replace_integrity_error insert_seat
  create_seat_refused rq hall s e t = rw e (rw t refl)

is_taken-removed :
    (id hall_id row number : ℕ) (seats : List Seat)
    → is_taken (update_where (λ x. x.id == id) removed seats) hall_id row number
      ≡ is_taken seats hall_id row number
is_taken-removed id hall_id row number [] = refl
is_taken-removed id hall_id row number (s ∷ seats) =
    ground (arith, is_taken-removed id hall_id row number seats)

In-is_taken :
    (x : Seat) (seats : List Seat) → In x seats → is_taken seats x.hall_id x.row x.number ≡ true
In-is_taken x [] m = elim m [ ]
In-is_taken x (s ∷ seats) (inl e) = rw e (ground arith)
In-is_taken x (s ∷ seats) (inr m) = ground (arith, In-is_taken x seats m)

removed_is_lost :
    (hall_id id : ℕ) (db db' : Db)
    → db'.seats ≡ update_where (λ x. x.id == id) removed db.seats
    → ¬ IsBookable db' hall_id id
removed_is_lost hall_id id db db' e (x, m, same, h, active) =
    let (y, i, q) = In-update_where (λ x. x.id == id) removed x db.seats (rw e at m) in
    elim (Bool-cases (y.id == id)) [
      | inl k ↦ let z : x ≡ removed y = rw k at q in cc (active, ap (λ (w : Seat). w.is_active) z)
      | inr k ↦
          let z : x ≡ y = rw k at q in ==_false y.id id k (ap (λ (w : Seat). w.id) (sym z) ∙ same)
    ]

-- A deleted seat can no longer be booked, and its place stays taken: creating a seat there is
-- refused with "already exists".
pub deleted_seat_blocks_place :
    (D : Database) (hall_id seat_id : ℕ) (hall : Hall) (seat : Seat) (s : Session)
    → get_hall_or_raise s.current hall_id ≡ ok hall
    → find (λ x. x.id == seat_id && x.hall_id == hall_id) s.current.seats ≡ some seat
    → let (r, s') = delete_seat hall_id seat_id s in
      (r ≡ ok tt)
      × (¬ IsBookable s'.current hall_id seat_id)
      × ((create_seat D hall_id (record { row = seat.row; number = seat.number }) s').0
          ≡ err (seat_already_exists (seat_exists seat.row seat.number)))
unfolding delete_seat get_hall_or_raise
deleted_seat_blocks_place D hall_id seat_id hall seat s e f =
    let (m, q) = find-In _ seat s.current.seats f in
    let parts = &&_true (seat.id == seat_id) (seat.hall_id == hall_id) q in
    let after = with_seats (update_where (λ x. x.id == seat_id) removed s.current.seats) s in
    let taken : is_taken after.current.seats hall_id seat.row seat.number ≡ true =
      is_taken-removed seat_id hall_id seat.row seat.number s.current.seats
      ∙ ap (λ h. is_taken s.current.seats h seat.row seat.number) (sym ((==_iff _ _).0 parts.1))
      ∙ In-is_taken seat s.current.seats m in
    rw e (
      rw f (
        refl,
        removed_is_lost hall_id seat_id s.current after.current refl,
        create_seat_refused D hall_id (record { row = seat.row; number = seat.number }) hall after e
            taken,
      ))
