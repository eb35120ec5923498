-- ===== src/Halls/Changes.antt =====
-- What the routes that change a hall do to it, and what they leave alone.
use booking_api_service.Common.{find_updated, find_not_updated, ℕ, ◌≡◌, ◌≢◌, refl, some, false}
use booking_api_service.Exceptions.{ok}
use booking_api_service.Model.{Hall}
use booking_api_service.Session.{Session}
use booking_api_service.Halls.{
  HallUpdate, counted, seats_of_hall, hall_with, has_null, apply_update, deactivated, update_hall,
  delete_hall, is_past_columns,
}

module _ (hall_id : ℕ) (s : Session) where
  -- A deleted hall stays in its table, inactive; the seats of the hall, every other hall and the
  -- bookings are as they were.
  pub delete_hall_effect :
      (hall : Hall)
      → hall_with hall_id s.current ≡ some hall
      → let (r, s') = delete_hall hall_id s in
        (r ≡ ok tt)
        × (hall_with hall_id s'.current ≡ some (deactivated hall))
        × ((j : ℕ) → j ≢ hall_id → hall_with j s'.current ≡ hall_with j s.current)
        × (s'.current.seats ≡ s.current.seats)
        × (s'.current.bookings ≡ s.current.bookings)
  unfolding delete_hall
  delete_hall_effect hall e = rw e (
    refl,
    find_updated (λ (h : Hall). h.id) deactivated (λ h. refl) hall_id s.current.halls e,
    λ j ne.
        find_not_updated (λ (h : Hall). h.id) deactivated (λ h. refl) hall_id j s.current.halls ne,
    refl,
    refl,
  )

  -- An update of an existing hall to values that its columns hold answers the new values with the count of its active seats, stores
  -- exactly the fields that the request sets, and leaves every other hall and the seats as they were.
  pub update_hall_effect :
      (rq : HallUpdate) (hall : Hall)
      → hall_with hall_id s.current ≡ some hall
      → has_null rq ≡ false
      → is_past_columns (apply_update rq hall).capacity (apply_update rq hall).hourly_rate ≡ false
      → let (r, s') = update_hall hall_id rq s in
        (r ≡ ok (counted (seats_of_hall s.current hall_id) (apply_update rq hall)))
        × (hall_with hall_id s'.current ≡ some (apply_update rq hall))
        × ((j : ℕ) → j ≢ hall_id → hall_with j s'.current ≡ hall_with j s.current)
        × (s'.current.seats ≡ s.current.seats)
  unfolding update_hall
  update_hall_effect rq hall e n fits =
      rw (e, n, fits)
        (
          refl,
          find_updated (λ (h : Hall). h.id) (apply_update rq) (λ h. refl) hall_id s.current.halls e,
          λ j ne.
              find_not_updated (λ (h : Hall). h.id) (apply_update rq) (λ h. refl) hall_id j
                s.current.halls ne,
          refl,
        )
