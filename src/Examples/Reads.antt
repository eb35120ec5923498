-- ===== src/Examples/Reads.antt =====
-- What the users of the small library read, page by page, and its hall as it is changed.
use booking_api_service.Common.{
  ℕ, ◌≡◌, ◌↔◌, ◌+◌, ◌<◌, refl, List, [], ◌∷◌, length, In, Counts, arith,
}
use booking_api_service.Exceptions.{ok}
use booking_api_service.Model.{Booking}
use booking_api_service.Session.{Session}
use booking_api_service.Patch.{unset, null}
use booking_api_service.Pagination.{page_count}
use booking_api_service.Pagination.Pages.{fetch_pages, fetch_pages-page_count}
use booking_api_service.Sorting.{insertion_sorting, IsOrdered, descending}
use booking_api_service.Booking.Queries.{get_user_bookings}
use booking_api_service.Booking.Queries.Owner.{ask_pages, user_bookings_complete}
use booking_api_service.Halls.{HallUpdate}
use booking_api_service.Examples.{booked_db}

user_bookings_complete_example :
    Counts (λ (b : Booking). b.user_id ≡ 1) booked_db.bookings 1
    × ((k : ℕ)
        → k < page_count 1 10
        → (page : List Booking) × (get_user_bookings insertion_sorting booked_db 1 (k + 1) 10
            ≡ ok (page, 1)))
    × (all : List Booking) × (ask_pages booked_db 1 (λ k. insertion_sorting) 10 0 (page_count 1 10)
        ≡ ok all)
    × ((b : Booking) → In b all ↔ (In b booked_db.bookings × (b.user_id ≡ 1)))
    × (length all ≡ 1)
    × IsOrdered (descending (λ (b : Booking). (b.created_at, 0))) all
user_bookings_complete_example =
    user_bookings_complete booked_db 1 (λ k. insertion_sorting) 10 (refl, tt) (omega arith)
      (unfold page_count in omega arith)

fetch_pages-page_count_example :
    fetch_pages {T = ℕ} 2 0 (page_count 5 2) (1 ∷ 2 ∷ 3 ∷ 4 ∷ 5 ∷ []) ≡ ok (1 ∷ 2 ∷ 3 ∷ 4 ∷ 5 ∷ [])
fetch_pages-page_count_example = fetch_pages-page_count 2 (1 ∷ 2 ∷ 3 ∷ 4 ∷ 5 ∷ []) (omega arith)

abbrev session : Session
session = record { committed = booked_db; current = booked_db }

abbrev no_name : HallUpdate
no_name = record { name = null; capacity = unset; hourly_rate = unset; is_active = unset }
