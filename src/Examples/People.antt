-- ===== src/Examples/People.antt =====
-- The seats and the users of the small library as they are changed, and who may log in.
use booking_api_service.Common.{
  arith, ℕ, ap, ◌∙◌, ◌≢◌, str_eq, str_eq_iff, ◌≡◌, ◌≤◌, ◌<◌, ◌+◌, ◌*◌, ◌⊎◌, refl, sym, inl, inr,
  List, some, true,
}
use booking_api_service.Exceptions.{
  ok, err, text, unauthorized, http, seat_already_exists, seat_exists,
}
use booking_api_service.Settings.{default_settings}
use booking_api_service.Model.{User, Seat, user}
use booking_api_service.Session.{Session}
use booking_api_service.Booking.Seats.Exist.{IsBookable}
use booking_api_service.Seats.{SeatBulkCreate, create_seat, bulk_create_seats, delete_seat}
use booking_api_service.Seats.Places.{deleted_seat_blocks_place}
use booking_api_service.Seats.Grid.{HasGrid, bulk_create_seats_all_or_none}
use booking_api_service.Users.Emails.{HasUniqueEmails}
use booking_api_service.Auth.{signup, login, create_token, get_current_user, get_current_admin}
use booking_api_service.Auth.Login.{signup_then_login}
use booking_api_service.Auth.Header.{get_token_from_header}
use booking_api_service.Examples.{small_database, hall, alice, bob, seat, empty_db}
use booking_api_service.Examples.Tokens.{toy_crypto}

abbrev session : Session
session = record { committed = empty_db; current = empty_db }

abbrev two_by_two : SeatBulkCreate
two_by_two = record { rows = 2; seats_per_row = 2 }

bulk_create_seats_all_or_none_example :
    let (r, s') = bulk_create_seats small_database 1 two_by_two session in
    ((r ≡ err (seat_already_exists (text "Some seats already exist")))
      × (s'.current ≡ session.committed)
      × (s'.committed ≡ session.committed))
    ⊎ ((seats : List Seat) × (r ≡ ok seats)
        × HasGrid small_database 1 two_by_two hall session seats s')
unfolding booking_api_service.Halls.get_hall_or_raise
bulk_create_seats_all_or_none_example =
    bulk_create_seats_all_or_none small_database 1 two_by_two hall session refl (omega arith)
      (omega arith)

-- The first row of the grid is taken.
grid_refused :
    (bulk_create_seats small_database 1 two_by_two session).0
    ≡ err (seat_already_exists (text "Some seats already exist"))
unfolding bulk_create_seats booking_api_service.Halls.get_hall_or_raise
grid_refused = refl

deleted_seat_blocks_place_example :
    let (r, s') = delete_seat 1 2 session in
    (r ≡ ok tt)
    × (¬ IsBookable s'.current 1 2)
    × ((create_seat small_database 1 (record { row = 1; number = 2 }) s').0
        ≡ err (seat_already_exists (seat_exists 1 2)))
unfolding booking_api_service.Halls.get_hall_or_raise
deleted_seat_blocks_place_example =
    deleted_seat_blocks_place small_database 1 2 hall (seat 2) session refl refl

emails_differ : alice.email ≢ bob.email
emails_differ e =
    let same : str_eq "alice@example.com" "bob@example.com" ≡ true =
      (str_eq_iff "alice@example.com" "bob@example.com").1 e in
    cc same

pub two_emails : HasUniqueEmails empty_db.users
two_emails a b i j e = elim i [
  | inl p ↦ elim j [
    | inl q ↦ ap (λ (u : User). u.id) p ∙ sym (ap (λ (u : User). u.id) q)
    | inr (inl q) ↦
        absurd
          (emails_differ (sym (ap (λ (u : User). u.email) p) ∙ e ∙ ap (λ (u : User). u.email) q))
    | inr (inr m) ↦ elim m [ ]
  ]
  | inr (inl p) ↦ elim j [
    | inl q ↦
        absurd (
          emails_differ (sym (ap (λ (u : User). u.email) q) ∙ sym e ∙ ap (λ (u : User). u.email) p))
    | inr (inl q) ↦ ap (λ (u : User). u.id) p ∙ sym (ap (λ (u : User). u.id) q)
    | inr (inr m) ↦ elim m [ ]
  ]
  | inr (inr m) ↦ elim m [ ]
]

signup_then_login_example :
    let (r, s') =
      signup toy_crypto small_database
        (record { email = "carol@example.com"; password = "correct horse" })
        session in
    (u : User) × (r ≡ ok (record { id = u.id; email = "carol@example.com"; role = user }))
    × ((now : ℕ)
        → login toy_crypto default_settings now s'.current "carol@example.com" "correct horse"
          ≡ ok (create_token toy_crypto default_settings now u))
    × ((now later : ℕ)
        → later < now + 30 * 60
        → (get_current_user toy_crypto later
              (create_token toy_crypto default_settings now u)
              s'.current
            ≡ ok u)
          × (get_current_admin toy_crypto later
                (create_token toy_crypto default_settings now u)
                s'.current
              ≡ err (http 403 (text "Admin access required"))))
    × ((now later : ℕ)
        → now + 30 * 60 ≤ later
        → get_current_user toy_crypto later
            (create_token toy_crypto default_settings now u)
            s'.current
          ≡ err (unauthorized (text "Invalid or expired token")))
signup_then_login_example =
    signup_then_login toy_crypto default_settings small_database "carol@example.com" "correct horse"
      session refl

-- Every "Bearer " is removed, not only the first.
header_read :
    (get_token_from_header (some "Bearer abc") ≡ ok "abc")
    × (get_token_from_header (some "Bearer aBearer b") ≡ ok "ab")
    × (get_token_from_header (some "Bearer ") ≡ err (unauthorized (text "Missing token")))
unfolding get_token_from_header
header_read = (refl, refl, refl)
