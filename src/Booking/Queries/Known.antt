-- ===== src/Booking/Queries/Known.antt =====
-- When `build_booking_response` finds the seats of a booking.
use booking_api_service.Common.{
  ℕ, List, [], ◌∷◌, map, ◌≡◌, refl, ap, subst, sym, inl, inr, some, true, select, contains, find,
  find-eq-none, In, In-map, In-map_inv, In-contains, In-select, In-select_intro, Option-cases, ◌==◌,
  arith,
}
use booking_api_service.Exceptions.{Result, ok, err, key_error}
use booking_api_service.Exceptions.Results.{◌>>=◌, or_raise}
use booking_api_service.Model.{Seat, Booking, BookingSeat, Db}
use booking_api_service.Booking.Seats.Exist.{seat_ids_of}
use booking_api_service.Booking.Queries.{
  rows_of, seat_responses, build_booking_response, build_responses,
}

-- Each row for a seat of a booking names a seat of the table.
abbrev pub KnowsSeats : Db → Type 0
KnowsSeats db = (r : BookingSeat) → In r db.booking_seats → In r.seat_id (seat_ids_of db.seats)

-- An id that is among those of the rows is found.
found_id :
    (id : ℕ) (xs : List Seat)
    → In id (seat_ids_of xs)
    → (s : Seat) × (find (λ (s : Seat). s.id == id) xs ≡ some s)
found_id id xs m = elim (Option-cases (find (λ (s : Seat). s.id == id) xs)) [
  | inr (s, e) ↦ (s, e)
  | inl n ↦
      let (s, i, e) = In-map_inv (λ (s : Seat). s.id) id xs m in
      let no = find-eq-none (λ (s : Seat). s.id == id) s xs n i in absurd (ground arith)
]

abbrev pub IsOk : {A : Type 0} → Result A → Type 0
IsOk {A} r = (a : A) × (r ≡ ok a)

then-IsOk :
    {A B : Type 0} (r : Result A) (f : A → Result B)
    → IsOk r
    → ((a : A) → IsOk (f a))
    → IsOk (r >>= f)
then-IsOk (ok a) f h k = k a
then-IsOk (err e) f h k = cc (h.1)

seat_responses-IsOk :
    (seats : List Seat) (rows : List BookingSeat)
    → ((r : BookingSeat) → In r rows → In r.seat_id (seat_ids_of seats))
    → IsOk (seat_responses seats rows)
unfolding seat_responses
seat_responses-IsOk seats [] k = ([], refl)
seat_responses-IsOk seats (bs ∷ rows) k =
    let (s, e) = found_id bs.seat_id seats (k bs (inl refl)) in
    then-IsOk (or_raise (find (λ (s : Seat). s.id == bs.seat_id) seats) key_error) _
      (s, ap (λ o. or_raise o key_error) e)
      (λ x.
        then-IsOk (seat_responses seats rows) _
          (seat_responses-IsOk seats rows (λ r m. k r (inr m))) (λ xs. (_, refl)))

module _ (db : Db) (known : KnowsSeats db) where
  -- The dictionary of the seats that the rows of a booking name has each of them.
  seats_of_rows :
      (b : Booking) (r : BookingSeat)
      → In r (rows_of db b)
      → In r.seat_id (
          seat_ids_of
            (select (λ s. contains s.id (map (λ bs. bs.seat_id) (rows_of db b))) db.seats))
  seats_of_rows b r m =
      let (row, _) = In-select (λ (x : BookingSeat). x.booking_id == b.id) r db.booking_seats m in
      let (s, i, e) = In-map_inv (λ (x : Seat). x.id) r.seat_id db.seats (known r row) in
      let named =
        In-contains r.seat_id (map (λ (x : BookingSeat). x.seat_id) (rows_of db b))
          (In-map (λ (x : BookingSeat). x.seat_id) r (rows_of db b) m) in
      subst
        (λ id. In id (
          seat_ids_of
            (select (λ x. contains x.id (map (λ bs. bs.seat_id) (rows_of db b))) db.seats)))
        (sym e)
        (In-map (λ (x : Seat). x.id) s _
          (In-select_intro (λ (x : Seat). contains x.id (map (λ bs. bs.seat_id) (rows_of db b))) s
            db.seats i
            (subst
              (λ id. contains id (map (λ (bs : BookingSeat). bs.seat_id) (rows_of db b)) ≡ true) e
              named)))

  pub build_booking_response-IsOk : (b : Booking) → IsOk (build_booking_response db b)
  unfolding build_booking_response
  build_booking_response-IsOk b =
      then-IsOk (seat_responses _ (rows_of db b)) _
        (seat_responses-IsOk _ (rows_of db b) (seats_of_rows b)) (λ xs. (_, refl))

  pub build_responses-IsOk : (bs : List Booking) → IsOk (build_responses db bs)
  unfolding build_responses
  build_responses-IsOk [] = ([], refl)
  build_responses-IsOk (b ∷ bs) =
      then-IsOk (build_booking_response db b) _ (build_booking_response-IsOk b)
        (λ x. then-IsOk (build_responses db bs) _ (build_responses-IsOk bs) (λ xs. (_, refl)))
