-- ===== src/Api/Table/Statuses.antt =====
-- The statuses of the errors that the functions behind app/routers raise.
use booking_api_service.Common.{
  ℕ, String, List, [], ◌∷◌, true, ◌≡◌, ◌⊎◌, inl, inr, refl, contains, arith,
}
use booking_api_service.Exceptions.{
  Error, Result, ok, err, status_code, integrity_error, database_error,
}
use booking_api_service.Exceptions.Results
use booking_api_service.Exceptions.Results.{Result-cases}
use booking_api_service.Action.{Action, continue, ◌>>=◌}
use booking_api_service.Settings.{Settings}
use booking_api_service.Model.{Db}
use booking_api_service.Session.{Database, Session}
use booking_api_service.Sorting.{Sorting}
use booking_api_service.Auth
use booking_api_service.Auth.{Crypto, RegisterRequest}
use booking_api_service.Users
use booking_api_service.Users.{UserUpdate}
use booking_api_service.Halls
use booking_api_service.Halls.{HallCreate, HallUpdate}
use booking_api_service.Seats
use booking_api_service.Seats.{
  SeatCreate, SeatBulkCreate, insert_seats, insert_seat, grid, replace_integrity_error, recover,
}
use booking_api_service.Pagination.{pagination_params, page_of}
use booking_api_service.Api.Routes.{page_is_valid}

module _ {ℓ} {A : Type ℓ} where
  -- The status of the error, if there is one, is in the list.
  abbrev pub Allows : List ℕ → Result A → Type 0
  Allows statuses (ok a) = Unit {0}
  Allows statuses (err e) = contains (status_code e) statuses ≡ true

abbrev pub Raises {ℓ} : {S A : Type ℓ} → List ℕ → Action S A → Type ℓ
Raises {S = S} statuses m = (s : S) → Allows statuses (m s).0

module _ (statuses : List ℕ) where
  pub >>=-Allows :
      {A B : Type 0} (r : Result A) (f : A → Result B)
      → Allows statuses r
      → ((a : A) → Allows statuses (f a))
      → Allows statuses (Results.◌>>=◌ r f)
  >>=-Allows (ok a) f h k = k a
  >>=-Allows (err e) f h k = h

  pub continue-Allows :
      {S A B : Type 0} (r : Result A) (f : A → Action S B) (s : S)
      → Allows statuses r
      → ((a : A) → Raises statuses (f a))
      → Allows statuses (continue r f s).0
  continue-Allows (ok a) f s h k = k a s
  continue-Allows (err e) f s h k = h

  pub then-Raises :
      {S A B : Type 0} (m : Action S A) (f : A → Action S B)
      → Raises statuses m
      → ((a : A) → Raises statuses (f a))
      → Raises statuses (m >>= f)
  then-Raises m f h k s = continue-Allows (m s).0 f (m s).1 (h s) k

-- app/services/hall_service.py, and app/services/user_service.py
get_hall_or_raise-Allows :
    (statuses : List ℕ) (db : Db) (id : ℕ) → Allows (404 ∷ statuses) (Halls.get_hall_or_raise db id)
unfolding Halls.get_hall_or_raise status_code
get_hall_or_raise-Allows statuses db id = ground arith

pub get_user-Allows : (db : Db) (id : ℕ) → Allows (404 ∷ []) (Users.get_user db id)
unfolding Users.get_user status_code
get_user-Allows db id = ground arith

pub get_hall-Allows : (db : Db) (id : ℕ) → Allows (404 ∷ []) (Halls.get_hall db id)
unfolding Halls.get_hall Halls.get_hall_or_raise Halls.get_hall_with_seats status_code
get_hall-Allows db id = ground arith

pub user_page-Allows :
    (S : Sorting) (db : Db) (page page_size : ℕ)
    → page_is_valid page page_size ≡ true
    → Allows (500 ∷ []) (Users.user_page S db page page_size)
unfolding Users.user_page Users.list_users pagination_params page_of status_code
user_page-Allows S db page page_size h = ground arith

pub signup-Raises :
    (C : Crypto) (D : Database) (rq : RegisterRequest) → Raises (401 ∷ []) (Auth.signup C D rq)
unfolding Auth.signup Auth.register_user Auth.as_unauthorized status_code
signup-Raises C D rq s = ground arith

hidden : (C : Crypto) {A : Type 0} (r : Result A) → Allows (401 ∷ []) (Auth.hide_error C r)
unfolding Auth.hide_error status_code
hidden C (ok a) = tt
hidden C (err e) = ground arith

pub login-Allows :
    (C : Crypto) (settings : Settings) (now : ℕ) (db : Db) (email password : String)
    → Allows (401 ∷ []) (Auth.login C settings now db email password)
unfolding Auth.login
login-Allows C settings now db email password = hidden C _

pub update_user-Raises :
    (id : ℕ) (rq : UserUpdate) → Raises (404 ∷ 500 ∷ []) (Users.update_user id rq)
unfolding Users.update_user Users.write_user status_code
update_user-Raises id rq s = ground arith

pub update_hall-Raises :
    (id : ℕ) (rq : HallUpdate) → Raises (404 ∷ 500 ∷ []) (Halls.update_hall id rq)
unfolding Halls.update_hall Halls.write_hall Halls.get_hall_or_raise status_code
update_hall-Raises id rq s = ground arith

pub create_hall-Raises :
    (D : Database) (rq : HallCreate) → Raises (500 ∷ []) (Halls.create_hall D rq)
unfolding Halls.create_hall status_code
create_hall-Raises D rq s = ground arith

pub delete_hall-Raises : (id : ℕ) → Raises (404 ∷ []) (Halls.delete_hall id)
unfolding Halls.delete_hall Halls.write_hall Halls.get_hall_or_raise status_code
delete_hall-Raises id s = ground arith

-- app/services/seat_service.py
pub list_seats-Allows :
    (S : Sorting) (db : Db) (hall_id : ℕ) → Allows (404 ∷ []) (Seats.list_seats S db hall_id)
unfolding Seats.list_seats Halls.get_hall_or_raise status_code
list_seats-Allows S db hall_id = ground arith

pub delete_seat-Raises : (hall_id id : ℕ) → Raises (404 ∷ []) (Seats.delete_seat hall_id id)
unfolding Seats.delete_seat Halls.get_hall_or_raise status_code
delete_seat-Raises hall_id id s = ground arith

module _ (D : Database) (hall_id : ℕ) where
  -- The rows raise nothing but `IntegrityError` and the error of a column.
  abbrev FailsOnlySo : {A : Type 0} → Result A → Type 0
  FailsOnlySo {A} r = (e : Error) → r ≡ err e → (e ≡ integrity_error) ⊎ (e ≡ database_error)

  insert_seat_lem :
      (row number : ℕ) (s : Session) → FailsOnlySo (insert_seat D hall_id row number s).0
  unfolding insert_seat
  insert_seat_lem row number s e h = ground arith

  continued :
      {A B : Type 0} (r : Result A) (f : A → Action Session B) (s : Session)
      → FailsOnlySo r
      → ((a : A) (t : Session) → FailsOnlySo (f a t).0)
      → FailsOnlySo (continue r f s).0
  continued (ok a) f s h k = k a s
  continued (err x) f s h k = λ e q. h e (cc)

  insert_seats_lem :
      (places : List (ℕ × ℕ)) (s : Session) → FailsOnlySo (insert_seats D hall_id places s).0
  unfolding insert_seats
  insert_seats_lem [] s = λ e h. cc
  insert_seats_lem ((row, number) ∷ places) s =
      continued (insert_seat D hall_id row number s).0 _ _ (insert_seat_lem row number s) (λ seat t.
        continued (insert_seats D hall_id places t).0 _ _ (insert_seats_lem places t)
          (λ xs v e h. cc))

  recovered :
      {A : Type 0} (e : Error) (r : Result A) (s : Session)
      → FailsOnlySo r
      → status_code e ≡ 409
      → Allows (404 ∷ 409 ∷ 500 ∷ []) (recover e r s).0
  unfolding recover status_code
  recovered e (ok a) s h k = tt
  recovered e (err integrity_error) s h k = rw k refl
  recovered e (err database_error) s h k = refl
  recovered e (err x) s h k = elim (h x refl) [ inl q ↦ cc | inr q ↦ cc ]

  pub create_seat-Raises :
      (rq : SeatCreate) → Raises (404 ∷ 409 ∷ 500 ∷ []) (Seats.create_seat D hall_id rq)
  unfolding Seats.create_seat replace_integrity_error status_code
  create_seat-Raises rq s =
      continue-Allows (404 ∷ 409 ∷ 500 ∷ []) (Halls.get_hall_or_raise s.current hall_id) _ s
        (get_hall_or_raise-Allows (409 ∷ 500 ∷ []) s.current hall_id)
        (λ hall t.
          recovered _ (insert_seat D hall_id rq.row rq.number t).0 _
            (insert_seat_lem rq.row rq.number t) refl)

  pub bulk_create_seats-Raises :
      (rq : SeatBulkCreate) → Raises (404 ∷ 409 ∷ 500 ∷ []) (Seats.bulk_create_seats D hall_id rq)
  unfolding Seats.bulk_create_seats replace_integrity_error status_code
  bulk_create_seats-Raises rq s =
      continue-Allows (404 ∷ 409 ∷ 500 ∷ []) (Halls.get_hall_or_raise s.current hall_id) _ s
        (get_hall_or_raise-Allows (409 ∷ 500 ∷ []) s.current hall_id)
        (λ hall t.
          recovered _ (insert_seats D hall_id (grid rq.rows rq.seats_per_row) t).0 _
            (insert_seats_lem (grid rq.rows rq.seats_per_row) t) refl)
