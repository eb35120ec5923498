-- ===== src/Booking/Seats/Exist.antt =====
-- What it means that `validate_seats_exist` lets a request pass.
use booking_api_service.Common.{
  ℕ, List, [], ◌∷◌, map, ◌≡◌, refl, sym, ◌∙◌, ap, ◌↔◌, inl, inr, true, false, arith, Bool, length,
  select, contains, In, In-select, In-select_intro, In-map, In-map_inv, In-contains, contains-In,
  IsUnique, distinct_of_length, subset_of_length, length-le_of_subset, Bool-cases, ==_refl,
}
use booking_api_service.Exceptions.{ok}
use booking_api_service.Model.{Seat, Db}
use booking_api_service.Booking.Seats.{is_requested, validate_seats_exist}

abbrev pub seat_ids_of : List Seat → List ℕ
seat_ids_of = map (λ s. s.id)

-- There is an active seat of the hall with this id.
abbrev pub IsBookable : Db → ℕ → ℕ → Type 0
IsBookable db hall_id id =
    (s : Seat) × In s db.seats × (s.id ≡ id) × (s.hall_id ≡ hall_id) × (s.is_active ≡ true)

length-ids : (xs : List Seat) → length (seat_ids_of xs) ≡ length xs
length-ids [] = refl
length-ids (x ∷ xs) = omega (arith, length-ids xs)

contains-select_ids :
    (p : Seat → Bool) (a : ℕ) (xs : List Seat)
    → contains a (seat_ids_of xs) ≡ false
    → contains a (seat_ids_of (select p xs)) ≡ false
contains-select_ids p a [] h = refl
contains-select_ids p a (x ∷ xs) h = ground (arith, contains-select_ids p a xs)

select-IsUnique :
    (p : Seat → Bool) (xs : List Seat)
    → IsUnique (seat_ids_of xs)
    → IsUnique (seat_ids_of (select p xs))
select-IsUnique p [] u = tt
select-IsUnique p (x ∷ xs) u = elim (Bool-cases (p x)) [
  | inl e ↦ rw e (contains-select_ids p x.id xs u.0, select-IsUnique p xs u.1)
  | inr e ↦ rw e (select-IsUnique p xs u.1)
]

requested_parts :
    (hall_id : ℕ) (seat_ids : List ℕ) (s : Seat)
    → is_requested hall_id seat_ids s ≡ true
    → (contains s.id seat_ids ≡ true) × (s.hall_id ≡ hall_id) × (s.is_active ≡ true)
requested_parts hall_id seat_ids s h = ground arith

requested_intro :
    (hall_id : ℕ) (seat_ids : List ℕ) (s : Seat)
    → contains s.id seat_ids ≡ true
    → s.hall_id ≡ hall_id
    → s.is_active ≡ true
    → is_requested hall_id seat_ids s ≡ true
requested_intro hall_id seat_ids s a b c = ground arith

module _ (db : Db) (hall_id : ℕ) (seat_ids : List ℕ) where
  abbrev found : List Seat
  found = select (is_requested hall_id seat_ids) db.seats

  found_row :
      (a : ℕ)
      → contains a (seat_ids_of found) ≡ true
      → (contains a seat_ids ≡ true) × IsBookable db hall_id a
  found_row a m =
      let (s, i, e) =
        In-map_inv (λ (s : Seat). s.id) a found (contains-In a (seat_ids_of found) m) in
      let q = In-select (is_requested hall_id seat_ids) s db.seats i in
      let r = requested_parts hall_id seat_ids s q.1 in
      (ap (λ x. contains x seat_ids) e ∙ r.0, (s, q.0, sym e, r.1, r.2))

  bookable→found :
      (a : ℕ)
      → contains a seat_ids ≡ true
      → IsBookable db hall_id a
      → contains a (seat_ids_of found) ≡ true
  bookable→found a m (s, i, e, h, act) =
      ap (λ x. contains x (seat_ids_of found)) (sym e)
      ∙ In-contains s.id (seat_ids_of found) (
          In-map (λ (x : Seat). x.id) s found
            (In-select_intro (is_requested hall_id seat_ids) s db.seats i
              (requested_intro hall_id seat_ids s (ap (λ x. contains x seat_ids) e ∙ m) h act)))

  accepted-length :
      {seats : List Seat}
      → validate_seats_exist db hall_id seat_ids ≡ ok seats
      → (length found ≡ length seat_ids) × (seats ≡ found)
  unfolding validate_seats_exist
  accepted-length h = ground arith

  accepted-IsUnique :
      {seats : List Seat}
      → IsUnique (seat_ids_of db.seats)
      → validate_seats_exist db hall_id seat_ids ≡ ok seats
      → IsUnique seat_ids
  accepted-IsUnique u h =
      distinct_of_length (seat_ids_of found) seat_ids
        (select-IsUnique (is_requested hall_id seat_ids) db.seats u) (λ a m. (found_row a m).0)
        (omega (arith, length-ids found, (accepted-length h).0))

  accepted→bookable :
      {seats : List Seat}
      → IsUnique (seat_ids_of db.seats)
      → validate_seats_exist db hall_id seat_ids ≡ ok seats
      → (a : ℕ) → contains a seat_ids ≡ true
      → IsBookable db hall_id a
  accepted→bookable u h a m =
      (found_row a (
        subset_of_length (seat_ids_of found) seat_ids
          (select-IsUnique (is_requested hall_id seat_ids) db.seats u) (λ b k. (found_row b k).0)
          (omega (arith, length-ids found, (accepted-length h).0)) a m)).1

  bookable→accepted :
      IsUnique (seat_ids_of db.seats)
      → IsUnique seat_ids
      → ((a : ℕ) → contains a seat_ids ≡ true → IsBookable db hall_id a)
      → validate_seats_exist db hall_id seat_ids ≡ ok found
  unfolding validate_seats_exist
  bookable→accepted u v all =
      let le =
        length-le_of_subset (seat_ids_of found) seat_ids
          (select-IsUnique (is_requested hall_id seat_ids) db.seats u) (λ a m. (found_row a m).0) in
      let ge =
        length-le_of_subset seat_ids (seat_ids_of found) v (λ a m. bookable→found a m (all a m)) in
      let same : length found ≡ length seat_ids = omega (arith, length-ids found) in
      rw same (rw ==_refl)

  -- With the seat ids of the table distinct: the request passes exactly when it names no seat
  -- twice and each of its ids is that of an active seat of the hall.
  pub validate_seats_exist_iff :
      IsUnique (seat_ids_of db.seats)
      → ((seats : List Seat) × (validate_seats_exist db hall_id seat_ids ≡ ok seats))
        ↔ (IsUnique seat_ids × ((a : ℕ) → contains a seat_ids ≡ true → IsBookable db hall_id a))
  validate_seats_exist_iff u = (
    λ (seats, h). (accepted-IsUnique u h, accepted→bookable u h),
    λ (v, all). (found, bookable→accepted u v all),
  )
