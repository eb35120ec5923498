-- ===== src/Booking/Slots/Tally.antt =====
-- The loops of `_calculate_slots` collect, for each hour, the set of the seats that are booked.
use booking_api_service.Common.{
  In, ℕ, zero, suc, ◌+◌, ◌≡◌, refl, ap, ◌∙◌, inl, inr, Option, none, some, List, [], ◌∷◌, Bool,
  true, false, ◌&&◌, ◌||◌, ◌==◌, ltb, leb, if◌then◌else◌, contains, range, range_from, any,
  IsUnique, arith, Bool-cases, Option-cases, ==_iff,
}
use booking_api_service.Exceptions.{ok}
use booking_api_service.Exceptions.Results.{◌>>=◌}
use booking_api_service.Model.{Booking, Db}
use booking_api_service.Booking.Slots.{
  Hours, add_member, add_seat, add_seats, add_hours, add_bookings, seats_of_booking,
}

abbrev pub seats_at : Option (List ℕ) → List ℕ
seats_at none = []
seats_at (some xs) = xs

abbrev pub is_key : Option (List ℕ) → Bool
is_key none = false
is_key (some xs) = true

-- From `m` to `m'` exactly the seats that `p` names have been added.
pub record Adds (m m' : Hours) (p : ℕ → ℕ → Bool) : Type 0 where
  pub keys : (h : ℕ) → is_key (m' h) ≡ is_key (m h)
  pub members : (h x : ℕ) → contains x (seats_at (m' h)) ≡ (contains x (seats_at (m h)) || p h x)
  pub unique : (h : ℕ) → IsUnique (seats_at (m h)) → IsUnique (seats_at (m' h))

contains-add_member :
    (x y : ℕ) (xs : List ℕ) → contains x (add_member y xs) ≡ (contains x xs || x == y)
contains-add_member x y xs = elim (Bool-cases (x == y)) [
  | inl e ↦ ground (arith, ap (λ z. contains z xs) ((==_iff x y).0 e))
  | inr e ↦ ground arith
]

add_member-IsUnique : (y : ℕ) (xs : List ℕ) → IsUnique xs → IsUnique (add_member y xs)
add_member-IsUnique y xs u = elim (Bool-cases (contains y xs)) [
  | inl e ↦ rw e u
  | inr e ↦ rw e (e, u)
]

Adds-none : (m : Hours) → Adds m m (λ h x. false)
Adds-none m = record { keys = λ h. refl; members = λ h x. ground arith; unique = λ h u. u }

Adds-then :
    {a b c : Hours} (p q r : ℕ → ℕ → Bool)
    → Adds a b p
    → Adds b c q
    → ((h x : ℕ) → r h x ≡ (p h x || q h x))
    → Adds a c r
Adds-then p q r f g e = record {
  keys = λ h. g.keys h ∙ f.keys h;
  members = λ h x. ground (arith, f.members h x, g.members h x, e h x);
  unique = λ h u. g.unique h (f.unique h u);
}

added :
    (hour id : ℕ) (m : Hours) (seats : List ℕ)
    → m hour ≡ some seats
    → Adds m
        (λ h. if h == hour then some (add_member id seats) else m h)
        (λ h x. h == hour && x == id)
added hour id m seats e = record {
  keys = λ h. elim (Bool-cases (h == hour)) [
    | inl q ↦ rw (q, ap m ((==_iff h hour).0 q) ∙ e) refl
    | inr q ↦ rw q refl
  ];
  members = λ h x. elim (Bool-cases (h == hour)) [
    | inl q ↦ rw (q, ap m ((==_iff h hour).0 q) ∙ e) (contains-add_member x id seats)
    | inr q ↦ rw q (ground arith)
  ];
  unique = λ h u. elim (Bool-cases (h == hour)) [
    | inl q ↦ rw q (add_member-IsUnique id seats (rw (ap m ((==_iff h hour).0 q) ∙ e) at u))
    | inr q ↦ rw q u
  ];
}

add_seat-Adds :
    (hour id : ℕ) (m : Hours)
    → is_key (m hour) ≡ true
    → (m' : Hours) × (add_seat hour id m ≡ ok m') × Adds m m' (λ h x. h == hour && x == id)
unfolding add_seat
add_seat-Adds hour id m k = elim (Option-cases (m hour)) [
  | inl e ↦ cc (k, ap is_key e)
  | inr (seats, e) ↦ (
    λ h. if h == hour then some (add_member id seats) else m h,
    rw (e, add_seat) refl,
    added hour id m seats e,
  )
]

add_seats-Adds :
    (hour : ℕ) (ids : List ℕ) (m : Hours)
    → is_key (m hour) ≡ true
    → (m' : Hours) × (add_seats hour ids m ≡ ok m') × Adds m m' (λ h x. h == hour && contains x ids)
unfolding add_seats
add_seats-Adds hour [] m k =
    (m, refl, Adds-then _ _ _ (Adds-none m) (Adds-none m) (λ h x. ground arith))
add_seats-Adds hour (id ∷ ids) m k =
    let (m₁, e, f) = add_seat-Adds hour id m k in
    let (m₂, e', g) = add_seats-Adds hour ids m₁ (f.keys hour ∙ k) in
    (
      m₂,
      ap (λ r. r >>= λ m'. add_seats hour ids m') e ∙ e',
      Adds-then _ _ _ f g (λ h x. ground arith),
    )

add_hours-Adds :
    (ids hours : List ℕ) (m : Hours)
    → ((h : ℕ) → contains h hours ≡ true → is_key (m h) ≡ true)
    → (m' : Hours) × (add_hours ids hours m ≡ ok m')
      × Adds m m' (λ h x. contains h hours && contains x ids)
unfolding add_hours
add_hours-Adds ids [] m k = (m, refl, Adds-then _ _ _ (Adds-none m) (Adds-none m) (λ h x. refl))
add_hours-Adds ids (hour ∷ hours) m k =
    let (m₁, e, f) = add_seats-Adds hour ids m (k hour (ground arith)) in
    let (m₂, e', g) = add_hours-Adds ids hours m₁ (λ h c. f.keys h ∙ k h (rw c (ground arith))) in
    (
      m₂,
      ap (λ r. r >>= λ m'. add_hours ids hours m') e ∙ e',
      Adds-then _ _ _ f g (λ h x. ground arith),
    )

-- The booking covers the hour and holds the seat.
abbrev pub is_taking : Db → ℕ → ℕ → Booking → Bool
is_taking db h x b =
    contains h (range b.start_time.hour b.end_time.hour) && contains x (seats_of_booking db b)

-- If every hour of every booking is a key, no `KeyError` is raised, and what has been added is, for
-- each hour, the seats of the bookings that cover it.
pub add_bookings-Adds :
    (db : Db) (bs : List Booking) (m : Hours)
    → ((b : Booking)
        → In b bs
        → (h : ℕ) → contains h (range b.start_time.hour b.end_time.hour) ≡ true
        → is_key (m h) ≡ true)
    → (m' : Hours) × (add_bookings db bs m ≡ ok m') × Adds m m' (λ h x. any (is_taking db h x) bs)
unfolding add_bookings
add_bookings-Adds db [] m k = (m, refl, Adds-then _ _ _ (Adds-none m) (Adds-none m) (λ h x. refl))
add_bookings-Adds db (b ∷ bs) m k =
    let hours = range b.start_time.hour b.end_time.hour in
    let (m₁, e, f) = add_hours-Adds (seats_of_booking db b) hours m (k b (inl refl)) in
    let (m₂, e', g) = add_bookings-Adds db bs m₁ (λ c i h q. f.keys h ∙ k c (inr i) h q) in
    (m₂, ap (λ r. r >>= λ m'. add_bookings db bs m') e ∙ e', Adds-then _ _ _ f g (λ h x. refl))

pub contains-range_from : (h a n : ℕ) → contains h (range_from a n) ≡ (leb a h && ltb h (a + n))
contains-range_from h a zero = ground arith
contains-range_from h a (suc n) = ground (arith, contains-range_from h (suc a) n)
