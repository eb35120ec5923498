-- ===== src/Booking/Slots/Cache.antt =====
-- The cache of `get_available_slots`.
use booking_api_service.Common.{ℕ, ◌≡◌, ap, sym, ◌∙◌, inl, inr, none, some, List}
use booking_api_service.Exceptions.{ok}
use booking_api_service.Exceptions.Results.{Result-cases}
use booking_api_service.Settings.{Settings}
use booking_api_service.Schemas.{TimeSlotResponse}
use booking_api_service.Redis.{Redis, slots, json, key_eq_refl}
use booking_api_service.Booking.Create.{World}
use booking_api_service.Booking.Slots.{calculate_slots, get_available_slots, store_slots, cache_ttl}

module _ (settings : Settings) (R : Redis) (hall_id date : ℕ) where
  -- Without an entry the answer is the table of the moment, an exception included; a table is kept.
  fresh_answer :
      (w : World R)
      → R.get w.redis (slots hall_id date) ≡ none
      → get_available_slots settings hall_id date w
        ≡ store_slots hall_id date (calculate_slots settings w.current hall_id date) w
  unfolding get_available_slots
  fresh_answer w e = rw e

  cached_answer :
      (w : World R) (xs : List TimeSlotResponse)
      → R.get w.redis (slots hall_id date) ≡ some (json xs)
      → get_available_slots settings hall_id date w ≡ (ok xs, w)
  unfolding get_available_slots
  cached_answer w xs e = rw e

  -- After a call that found no entry and answered, every later call answers the same as long as
  -- the entry lives, whatever the tables of its session say, and it changes nothing: a booking or a
  -- cancellation in between does not show. The first answer was the table of its moment.
  pub get_available_slots_stale :
      (w w' : World R) (xs : List TimeSlotResponse)
      → R.get w.redis (slots hall_id date) ≡ none
      → get_available_slots settings hall_id date w ≡ (ok xs, w')
      → (calculate_slots settings w.current hall_id date ≡ ok xs)
        × ((later : World R)
            → R.get later.redis (slots hall_id date) ≡ R.get w'.redis (slots hall_id date)
            → get_available_slots settings hall_id date later ≡ (ok xs, later))
  get_available_slots_stale w w' xs e h =
      elim (Result-cases (calculate_slots settings w.current hall_id date)) [
        | inr (x, c) ↦
            let q = sym (fresh_answer w e ∙ ap (λ r. store_slots hall_id date r w) c) ∙ h in
            unfold store_slots in cc (ap (λ p. p.0) q)
        | inl (ys, c) ↦
            let q = sym (fresh_answer w e ∙ ap (λ r. store_slots hall_id date r w) c) ∙ h in
            unfold store_slots in
            let same : ys ≡ xs = cc (ap (λ p. p.0) q) in
            let kept = ap (λ p. R.get p.1.redis (slots hall_id date)) q in
            (
              c ∙ ap ok same,
              λ later r. cached_answer later xs (
                  r
                  ∙ sym kept
                  ∙ R.get-set w.redis (slots hall_id date) (slots hall_id date) (json ys) cache_ttl
                  ∙ rw (key_eq_refl (slots hall_id date)) (ap (λ z. some (json z)) same)),
            )
      ]
