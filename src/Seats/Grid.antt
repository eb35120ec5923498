-- ===== src/Seats/Grid.antt =====
-- The grid of seats that `bulk_create_seats` makes, against a description of its places.
use booking_api_service.Common.{
  ℕ, zero, suc, ◌+◌, ◌*◌, ◌≤◌, ◌<◌, ◌↔◌, ◌≡◌, refl, ap, sym, inl, inr, ◌⊎◌, subst, List, [], ◌∷◌,
  true, ◌==◌, ==_iff, ==_false, Bool-cases, ◌++◌, map, flat_map, range, range_from, length,
  length-append, length-map, In, In-map, In-map_inv, In-append, In-flat_map, In-flat_map_intro,
  arith,
}
use booking_api_service.Exceptions.{ok, err, seat_already_exists, text}
use booking_api_service.Model.{Hall, Seat, max_integer}
use booking_api_service.Session.{Database, Session}
use booking_api_service.Halls.{get_hall_or_raise}
use booking_api_service.Seats.{SeatBulkCreate, grid, bulk_create_seats}
use booking_api_service.Seats.Places.{IsPlaced, place, bulk_create_seats-IsInserted}

-- Row by row, and in a row by the number.
abbrev pub Precedes : ℕ × ℕ → ℕ × ℕ → Type 0
Precedes (a, b) (c, d) = (a < c) ⊎ ((a ≡ c) × (b < d))

-- Each place comes before all that follow.
abbrev pub IsRising : List (ℕ × ℕ) → Type 0
IsRising [] = Unit
IsRising (x ∷ xs) = ((y : ℕ × ℕ) → In y xs → Precedes x y) × IsRising xs

-- The places of a hall with so many rows of so many seats, each once and in order.
pub record IsGrid (rows seats_per_row : ℕ) (places : List (ℕ × ℕ)) : Type 0 where
  pub places_iff :
      (row number : ℕ)
      → In (row, number) places
        ↔ ((1 ≤ row) × (row ≤ rows) × (1 ≤ number) × (number ≤ seats_per_row))
  pub count : length places ≡ rows * seats_per_row
  pub rising : IsRising places

In-range_from : (x a n : ℕ) → In x (range_from a n) ↔ ((a ≤ x) × (x < a + n))
In-range_from x a zero = (λ m. elim m [ ], λ h. absurd (omega arith))
In-range_from x a (suc n) =
    let (f, g) = In-range_from x (suc a) n in
    (
      λ m. elim m [ inl e ↦ omega arith | inr i ↦ let k = f i in omega arith ],
      λ h. elim (Bool-cases (x == a)) [
        | inl e ↦ inl ((==_iff x a).0 e)
        | inr e ↦ inr (g (ground (arith, ==_false x a e)))
      ],
    )

length-range_from : (a n : ℕ) → length (range_from a n) ≡ n
length-range_from a zero = refl
length-range_from a (suc n) = ap suc (length-range_from (suc a) n)

IsRising-append :
    (xs ys : List (ℕ × ℕ))
    → IsRising xs
    → IsRising ys
    → ((x y : ℕ × ℕ) → In x xs → In y ys → Precedes x y)
    → IsRising (xs ++ ys)
IsRising-append [] ys r s h = s
IsRising-append (x ∷ xs) ys r s h = (
  λ y m. elim (In-append y xs ys m) [ inl i ↦ r.0 y i | inr j ↦ h x y (inl refl) j ],
  IsRising-append xs ys r.1 s (λ a b i j. h a b (inr i) j),
)

abbrev row_of : ℕ → ℕ → ℕ → List (ℕ × ℕ)
row_of row start n = map (λ number. (row, number)) (range_from start n)

row_of-IsRising : (row start n : ℕ) → IsRising (row_of row start n)
row_of-IsRising row start zero = tt
row_of-IsRising row start (suc n) = (
  λ y m.
      let (k, i, e) = In-map_inv (λ (number : ℕ). (row, number)) y (range_from (suc start) n) m in
      let q = (In-range_from k (suc start) n).0 i in
      subst (Precedes (row, start)) (sym e) (inr (refl, omega arith)),
  row_of-IsRising row (suc start) n,
)

module _ (n : ℕ) where
  abbrev rows_from : ℕ → ℕ → List (ℕ × ℕ)
  rows_from start count = flat_map (λ row. row_of row 1 n) (range_from start count)

  In-rows_from :
      (row number start count : ℕ)
      → In (row, number) (rows_from start count)
        ↔ ((start ≤ row) × (row < start + count) × (1 ≤ number) × (number < 1 + n))
  In-rows_from row number start count = (
    λ m.
        let (r, i, j) =
          In-flat_map (λ row. row_of row 1 n) (row, number) (range_from start count) m in
        let (k, l, e) = In-map_inv (λ (x : ℕ). (r, x)) (row, number) (range_from 1 n) j in
        let p = (In-range_from r start count).0 i in
        let q = (In-range_from k 1 n).0 l in
        let same : row ≡ r = ap (λ (x : ℕ × ℕ). x.0) e in
        let same' : number ≡ k = ap (λ (x : ℕ × ℕ). x.1) e in
        (omega arith, omega arith, omega arith, omega arith),
    λ (a, b, c, d).
        In-flat_map_intro (λ row. row_of row 1 n) (row, number) row (range_from start count)
          ((In-range_from row start count).1 (a, b))
          (In-map (λ (x : ℕ). (row, x)) number (range_from 1 n)
            ((In-range_from number 1 n).1 (c, d))),
  )

  length-rows_from : (start count : ℕ) → length (rows_from start count) ≡ count * n
  unfolding flat_map
  length-rows_from start zero = omega arith
  length-rows_from start (suc count) =
      let a = length-append (row_of start 1 n) (rows_from (suc start) count) in
      let b = length-map {B = ℕ × ℕ} (λ (x : ℕ). (start, x)) (range_from 1 n) in
      omega (arith, a, b, length-range_from 1 n, length-rows_from (suc start) count)

  rows_from-IsRising : (start count : ℕ) → IsRising (rows_from start count)
  unfolding flat_map
  rows_from-IsRising start zero = tt
  rows_from-IsRising start (suc count) =
      IsRising-append (row_of start 1 n) (rows_from (suc start) count) (row_of-IsRising start 1 n)
        (rows_from-IsRising (suc start) count)
        λ x y i j.
          let (k, l, e) = In-map_inv (λ (z : ℕ). (start, z)) x (range_from 1 n) i in
          let q = (In-rows_from y.0 y.1 (suc start) count).0 j in
          subst (λ z. Precedes z y) (sym e) (inl (omega arith))

range-one : (n : ℕ) → range 1 (n + 1) ≡ range_from 1 n
range-one n = ap (range_from 1) (omega arith)

grid-rows_from : (rows n : ℕ) → grid rows n ≡ rows_from n 1 rows
unfolding grid
grid-rows_from rows n = rw (range-one n) (rw (range-one rows) refl)

grid-IsGrid : (rows seats_per_row : ℕ) → IsGrid rows seats_per_row (grid rows seats_per_row)
grid-IsGrid rows n = rw (grid-rows_from rows n) (record {
  places_iff = λ row number.
      let (f, g) = In-rows_from n row number 1 rows in
      (λ m. let k = f m in omega arith, λ h. g (omega arith));
  count = length-rows_from n 1 rows;
  rising = rows_from-IsRising n 1 rows;
})

module _ (D : Database) (hall_id : ℕ) (rq : SeatBulkCreate) (hall : Hall) (s : Session) where
  -- The session has gained an active seat of the hall at each place of the grid, in order, and nothing
  -- else has changed in it.
  pub record HasGrid (seats : List Seat) (s' : Session) : Type 0 where
    pub at_places : IsGrid rq.rows rq.seats_per_row (map place seats)
    pub in_hall : (x : Seat) → In x seats → (x.hall_id ≡ hall_id) × (x.is_active ≡ true)
    pub current : s'.current ≡ record s.current { seats = s.current.seats ++ seats }
    pub committed : s'.committed ≡ s.committed
    pub keeps_places : IsPlaced s.current.seats → IsPlaced s'.current.seats

  -- For an existing hall, and if the two numbers are within an `Integer`, creating a grid of seats is all or nothing: either it answers "Some seats
  -- already exist" and the session is as the last commit left it, or there is a new active seat of the
  -- hall for each row from 1 to the number of rows and each number from 1 to the seats of a row, each
  -- place once and in order; nothing else has changed, and the places of the table stay distinct if
  -- they were.
  pub bulk_create_seats_all_or_none :
      get_hall_or_raise s.current hall_id ≡ ok hall
      → rq.rows ≤ max_integer
      → rq.seats_per_row ≤ max_integer
      → let (r, s') = bulk_create_seats D hall_id rq s in
        ((r ≡ err (seat_already_exists (text "Some seats already exist")))
          × (s'.current ≡ s.committed)
          × (s'.committed ≡ s.committed))
        ⊎ ((seats : List Seat) × (r ≡ ok seats) × HasGrid seats s')
  bulk_create_seats_all_or_none e fit fit' =
      elim (bulk_create_seats-IsInserted D hall_id rq hall s e (λ p m.
        let k = ((grid-IsGrid rq.rows rq.seats_per_row).places_iff p.0 p.1).0 m in
        (omega arith, omega arith))) [
          | inl refused ↦ inl refused
          | inr (seats, r, k) ↦ inr (
            seats,
            r,
            record {
              at_places =
                  subst (IsGrid rq.rows rq.seats_per_row) (sym k.at_places)
                    (grid-IsGrid rq.rows rq.seats_per_row);
              in_hall = k.in_hall;
              current = k.current;
              committed = k.committed;
              keeps_places = k.keeps_places;
            },
          )
        ]
