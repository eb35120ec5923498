-- ===== src/Booking/Queries/Owner.antt =====
-- A user sees their own bookings, all of them, and no others.
use booking_api_service.Common.{
  &&_true, zero, suc, ◌+◌, ◌-◌, ◌*◌, ◌≤◌, ◌++◌, map, take, drop, ltb, false, IsUnique, Counts,
  select-Counts, arith, Option-cases, find-In, ℕ, ◌<◌, ◌≡◌, ◌≢◌, ◌↔◌, refl, ap, sym, ◌∙◌, inl, inr,
  List, [], ◌&&◌, ◌==◌, find, select, length, In, In-select, In-select_intro, ==_iff,
}
use booking_api_service.Exceptions.{Result, ok, err, default_booking_not_found}
use booking_api_service.Exceptions.Results.{◌>>=◌}
use booking_api_service.Model.{Booking, Db}
use booking_api_service.Pagination.{max_offset, page_count}
use booking_api_service.Pagination.Pages.{fetch_pages, page_of-slice, fetch_pages-page_count}
use booking_api_service.Sorting.{Sorting, IsOrdered, descending}
use booking_api_service.Sorting.Unique.{order_by_desc_unique}
use booking_api_service.Booking.Queries.{get_booking, newest_bookings, get_user_bookings}

earlier : (k n size : ℕ) {most : ℕ} → k < n → n * size ≤ most → k * size ≤ most
earlier k n size h fits = grind arith

module _ (db : Db) (user_id : ℕ) where
  abbrev mine : List Booking
  mine = select (λ b. b.user_id == user_id) db.bookings

  abbrev total : ℕ
  total = length mine

  In-newest_bookings :
      (S : Sorting) (b : Booking)
      → In b (newest_bookings S db user_id) ↔ (In b db.bookings × (b.user_id ≡ user_id))
  unfolding newest_bookings
  In-newest_bookings S b =
      let p = λ (x : Booking). x.user_id == user_id in
      let (f, g) = S.order_by_desc-In Booking (λ b. (b.created_at, 0)) b mine in
      (
        λ m. let (i, e) = In-select p b db.bookings (f m) in (i, (==_iff _ _).0 e),
        λ (i, e). g (In-select_intro p b db.bookings i ((==_iff _ _).1 e)),
      )

  module _ (S : ℕ → Sorting) where
    -- The pages from page `first + 1` on, for `count` pages, asked for one by one. Each query orders
    -- the rows in its own way.
    abbrev pub ask_pages : ℕ → ℕ → ℕ → Result (List Booking)
    ask_pages page_size first zero = ok []
    ask_pages page_size first (suc count) = do
      (page, reported) ← get_user_bookings (S first) db user_id (first + 1) page_size
      rest ← ask_pages page_size (suc first) count
      ok (page ++ rest)

    module _ (page_size : ℕ) (distinct : IsUnique (map (λ (b : Booking). b.created_at) mine)) where
      abbrev rows : List Booking
      rows = newest_bookings (S 0) db user_id

      same_rows : (k : ℕ) → newest_bookings (S k) db user_id ≡ rows
      unfolding newest_bookings
      same_rows k = order_by_desc_unique (λ (b : Booking). b.created_at) (S k) (S 0) mine distinct

      asked :
          (k : ℕ)
          → k * page_size ≤ max_offset
          → get_user_bookings (S k) db user_id (k + 1) page_size
            ≡ ok (take page_size (drop (k * page_size) rows), total)
      unfolding get_user_bookings
      asked k h =
          let e : k + 1 - 1 ≡ k = omega arith in
          let fits : ltb max_offset (k * page_size) ≡ false = ground arith in
          rw (e, fits, same_rows k, page_of-slice k page_size rows) refl

      ask_pages-fetch_pages :
          (first count : ℕ)
          → (first + count) * page_size ≤ max_offset
          → ask_pages page_size first count ≡ fetch_pages page_size first count rows
      ask_pages-fetch_pages first zero h = refl
      ask_pages-fetch_pages first (suc count) h =
          let k : first * page_size ≤ max_offset = grind arith in
          rw (asked first k, page_of-slice first page_size rows)
            (ap (λ r. r >>= λ rest. ok (take page_size (drop (first * page_size) rows) ++ rest))
              (ask_pages-fetch_pages (suc first) count
                (let e : first + suc count ≡ suc first + count = omega arith in rw (← e) h)))

      -- For every page size other than 0, whatever way each query orders the rows that its ORDER BY
      -- leaves open, if no two bookings of the user have the same `created_at`, and the pages do not
      -- go past the largest offset: each of these pages is answered, with the number of the user's
      -- bookings as its total; and the pages, as many as that total makes, put together are exactly
      -- the bookings of that user, each once and the newest first.
      pub user_bookings_complete :
          0 < page_size
          → page_count total page_size * page_size ≤ max_offset
          → Counts (λ (b : Booking). b.user_id ≡ user_id) db.bookings total
            × ((k : ℕ)
                → k < page_count total page_size
                → (page : List Booking) × (get_user_bookings (S k) db user_id (k + 1) page_size
                    ≡ ok (page, total)))
            × (all : List Booking) × (ask_pages page_size 0 (page_count total page_size) ≡ ok all)
            × ((b : Booking) → In b all ↔ (In b db.bookings × (b.user_id ≡ user_id)))
            × (length all ≡ total)
            × IsOrdered (descending (λ (b : Booking). (b.created_at, 0))) all
      unfolding newest_bookings
      user_bookings_complete h fits =
          let key : Booking → ℕ × ℕ = λ b. (b.created_at, 0) in
          let same : length rows ≡ total = (S 0).length-order_by_desc Booking key mine in
          (
            select-Counts (λ (b : Booking). b.user_id ≡ user_id) (λ b. b.user_id == user_id)
                (λ b. ==_iff b.user_id user_id) db.bookings,
            λ k lt. (_, asked k (earlier k (page_count total page_size) page_size lt fits)),
            rows,
            ask_pages-fetch_pages 0 (page_count total page_size) (omega arith)
                ∙ ap (λ n. fetch_pages page_size 0 (page_count n page_size) rows) (sym same)
                ∙ fetch_pages-page_count page_size rows h,
            In-newest_bookings (S 0),
            same,
            (S 0).order_by_desc-IsOrdered Booking key mine,
          )

-- For a booking id that the table holds for another user only, or not at all, the owner's view
-- answers "Booking not found".
pub get_booking_hides_foreign :
    (db : Db) (booking_id user_id : ℕ)
    → ((b : Booking) → In b db.bookings → b.id ≡ booking_id → b.user_id ≢ user_id)
    → get_booking db booking_id user_id ≡ err default_booking_not_found
unfolding get_booking
get_booking_hides_foreign db booking_id user_id foreign =
    elim (Option-cases (find (λ b. b.id == booking_id && b.user_id == user_id) db.bookings)) [
      | inl e ↦ rw e refl
      | inr (b, e) ↦
          let (i, q) = find-In _ b db.bookings e in
          let parts = &&_true (b.id == booking_id) (b.user_id == user_id) q in
          absurd (foreign b i ((==_iff _ _).0 parts.0) ((==_iff _ _).0 parts.1))
    ]
