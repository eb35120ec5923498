-- ===== src/Halls.antt =====
-- app/services/hall_service.py, app/routers/halls.py and app/schemas/hall.py. The routes are given
-- after their dependencies: the caller is an active user, or an administrator (app/core).
pub mod Changes
use booking_api_service.Common.{
  ℕ, String, List, [], ◌∷◌, ◌++◌, map, none, some, Option, Bool, true, false, not, ◌&&◌, ◌||◌, ◌==◌,
  ltb, find, select, length, update_where, if◌then◌else◌,
}
use booking_api_service.Exceptions.{
  Result, ok, err, text, hall_not_found, default_hall_not_found, integrity_error, database_error,
}
use booking_api_service.Exceptions.Results
use booking_api_service.Action.{Action, pure, asks, gets, or_raise, raise_if, ◌>>=◌, ◌>>◌}
use booking_api_service.Model.{Hall, Seat, Db, max_integer, max_money}
use booking_api_service.Patch.{Patch, is_null, patched}
use booking_api_service.Session.{Database, Session}
use booking_api_service.Sorting.{Sorting}

pub record HallCreate : Type 0 where
  pub name : String
  pub capacity : ℕ
  pub hourly_rate : ℕ

pub record HallUpdate : Type 0 where
  pub name : Patch String
  pub capacity : Patch ℕ
  pub hourly_rate : Patch ℕ
  pub is_active : Patch Bool

pub record HallResponse : Type 0 where
  pub id : ℕ
  pub name : String
  pub capacity : ℕ
  pub hourly_rate : ℕ
  pub is_active : Bool
  pub created_at : ℕ
  pub total_seats : ℕ
  pub free_seats : ℕ

abbrev pub hall_with : ℕ → Db → Option Hall
hall_with hall_id db = find (λ h. h.id == hall_id) db.halls

unfoldable pub get_hall_or_raise : Db → ℕ → Result Hall
get_hall_or_raise db hall_id = Results.or_raise (hall_with hall_id db) default_hall_not_found

unfoldable pub get_active_hall_or_raise : Db → ℕ → Result Hall
get_active_hall_or_raise db hall_id =
    Results.or_raise (find (λ h. h.id == hall_id && h.is_active) db.halls)
      (hall_not_found (text "Hall not found or inactive"))

-- `hall.seats`
abbrev pub seats_of_hall : Db → ℕ → List Seat
seats_of_hall db hall_id = select (λ s. s.hall_id == hall_id) db.seats

unfoldable pub get_hall_with_seats : Db → ℕ → Result (Hall × List Seat)
unfolding get_hall_or_raise
get_hall_with_seats db hall_id =
    Results.◌>>=◌ (get_hall_or_raise db hall_id) λ hall. ok (hall, seats_of_hall db hall_id)

-- `HallResponse.model_validate(hall)`, with both counts set.
abbrev pub response_of : ℕ → Hall → HallResponse
response_of total hall = record {
  id = hall.id;
  name = hall.name;
  capacity = hall.capacity;
  hourly_rate = hall.hourly_rate;
  is_active = hall.is_active;
  created_at = hall.created_at;
  total_seats = total;
  free_seats = total;
}

-- Both counts are that of the active seats.
abbrev pub counted : List Seat → Hall → HallResponse
counted seats hall = response_of (length (select (λ s. s.is_active) seats)) hall

-- The route `GET /halls/{hall_id}`.
unfoldable pub get_hall : Db → ℕ → Result HallResponse
unfolding get_hall_with_seats
get_hall db hall_id =
    Results.◌>>=◌ (get_hall_with_seats db hall_id) λ found. ok (counted found.1 found.0)

-- `list_active_halls`, and the route `GET /halls/` over the same query.
module _ (S : Sorting) where
  unfoldable pub list_active_halls : Db → List Hall
  list_active_halls db = S.order_by Hall (λ h. (h.id, 0)) (select (λ h. h.is_active) db.halls)

  unfoldable pub list_halls : Db → List HallResponse
  unfolding list_active_halls
  list_halls db = map (λ h. counted (seats_of_hall db h.id) h) (list_active_halls db)

abbrev pub with_halls : List Hall → Session → Session
with_halls halls s = record s { current = record s.current { halls = halls } }

abbrev pub is_past_columns : (capacity hourly_rate : ℕ) → Bool
is_past_columns capacity hourly_rate = ltb max_integer capacity || ltb max_money hourly_rate

-- The insertion of `POST /halls/`: the counts of the response keep their default, 0.
unfoldable pub insert_hall : Database → HallCreate → Action Session HallResponse
insert_hall D rq s =
    let hall : Hall = record {
      id = D.next_id (map (λ h. h.id) s.current.halls);
      name = rq.name;
      capacity = rq.capacity;
      hourly_rate = rq.hourly_rate;
      is_active = true;
      created_at = D.now;
    } in
    (ok (response_of 0 hall), with_halls (s.current.halls ++ hall ∷ []) s)

-- The flush: a capacity past an `Integer` or a rate past `Numeric(10, 2)` is refused.
unfoldable pub create_hall : Database → HallCreate → Action Session HallResponse
unfolding insert_hall
create_hall D rq = do
  raise_if (is_past_columns rq.capacity rq.hourly_rate) database_error
  insert_hall D rq

abbrev pub has_null : HallUpdate → Bool
has_null rq =
    is_null rq.name || is_null rq.capacity || is_null rq.hourly_rate || is_null rq.is_active

abbrev pub apply_update : HallUpdate → Hall → Hall
apply_update rq hall = record hall {
  name = patched rq.name hall.name;
  capacity = patched rq.capacity hall.capacity;
  hourly_rate = patched rq.hourly_rate hall.hourly_rate;
  is_active = patched rq.is_active hall.is_active;
}

unfoldable pub write_hall : ℕ → (Hall → Hall) → Action Session (Unit {0})
write_hall hall_id f s =
    (ok tt, with_halls (update_where (λ h. h.id == hall_id) f s.current.halls) s)

-- The route `PATCH /halls/{hall_id}`.
unfoldable pub update_hall : ℕ → HallUpdate → Action Session HallResponse
unfolding write_hall get_hall_or_raise
update_hall hall_id rq = do
  hall ← asks (λ s. get_hall_or_raise s.current hall_id)
  raise_if (is_past_columns (apply_update rq hall).capacity (apply_update rq hall).hourly_rate)
      database_error
  raise_if (has_null rq) integrity_error
  write_hall hall_id (apply_update rq)
  seats ← gets (λ s. seats_of_hall s.current hall_id)
  pure (counted seats (apply_update rq hall))

abbrev pub deactivated : Hall → Hall
deactivated hall = record hall { is_active = false }

-- The route `DELETE /halls/{hall_id}`.
unfoldable pub delete_hall : ℕ → Action Session (Unit {0})
unfolding write_hall get_hall_or_raise
delete_hall hall_id = do
  asks (λ s. get_hall_or_raise s.current hall_id)
  write_hall hall_id deactivated
