-- ===== src/Pagination.antt =====
-- app/schemas/common.py: pages of a list, and the slices that the services query for them.
pub mod Pages
use booking_api_service.Common.{
  ℕ, ◌+◌, ◌-◌, ◌*◌, ◌/◌, ◌^◌, Bool, List, not, ◌&&◌, leb, take, drop, if◌then◌else◌, ◌==◌, ltb,
}
use booking_api_service.Exceptions.{Result, ok, err, validation_error, database_error}

pub record PaginationParams : Type 0 where
  pub page : ℕ
  pub page_size : ℕ

-- The bounds that `Query` and `Field` declare; the framework answers 422 outside of them.
unfoldable pub pagination_params : ℕ → ℕ → Result PaginationParams
pagination_params page page_size =
    if leb 1 page && leb 1 page_size && leb page_size 100
    then ok (record { page = page; page_size = page_size })
    else err validation_error

pub record PaginatedResponse (T : Type 0) : Type 0 where
  pub items : List T
  pub total : ℕ
  pub page : ℕ
  pub page_size : ℕ
  pub pages : ℕ

-- `(total + page_size - 1) // page_size if page_size > 0 else 0`
unfoldable pub page_count : ℕ → ℕ → ℕ
page_count total page_size = if ltb 0 page_size then (total + page_size - 1) / page_size else 0

unfoldable pub create : {T : Type 0} → List T → ℕ → ℕ → ℕ → PaginatedResponse T
unfolding page_count
create items total page page_size = record {
  items = items;
  total = total;
  page = page;
  page_size = page_size;
  pages = page_count total page_size;
}

-- OFFSET is a `bigint`: the driver refuses a larger number.
abbrev pub max_offset : ℕ
max_offset = 2 ^ 63 - 1

abbrev pub is_past_offset : ℕ → ℕ → Bool
is_past_offset page page_size = ltb max_offset ((page - 1) * page_size)

-- The slice `.offset((page - 1) * page_size).limit(page_size)`: the database refuses the negative offset that
-- page 0 would give (with a page size of 0 the offset is 0).
unfoldable pub page_of : {T : Type 0} → ℕ → ℕ → List T → Result (List T)
page_of page page_size rows =
    if page == 0 && ltb 0 page_size
    then err database_error
    else ok (take page_size (drop ((page - 1) * page_size) rows))
