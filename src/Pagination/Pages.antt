-- ===== src/Pagination/Pages.antt =====
-- The pages of a list are its parts: each row is on exactly one page, and none is left out.
use booking_api_service.Common.{
  lt→ltb, false, ap, refl, sym, ◌∙◌, ℕ, zero, suc, ◌+◌, ◌-◌, ◌*◌, ◌≤◌, ◌<◌, ◌≡◌, List, [], ◌∷◌,
  ◌++◌, take, drop, length, arith, take-append-drop, ◌==◌,
}
use native.Mathlib.Nat.{div-add-mod', mod-lt}
use booking_api_service.Exceptions.{Result, ok}
use booking_api_service.Exceptions.Results.{◌>>=◌}
use booking_api_service.Pagination.{page_count, page_of}

-- The pages from page `first + 1` on, for `count` pages, fetched one by one and put together.
abbrev pub fetch_pages : {T : Type 0} → ℕ → ℕ → ℕ → List T → Result (List T)
fetch_pages size first zero rows = ok []
fetch_pages size first (suc count) rows = do
  page ← page_of (first + 1) size rows
  rest ← fetch_pages size (suc first) count rows
  ok (page ++ rest)

page_count-enough : (total size : ℕ) → 0 < size → total ≤ page_count total size * size
unfolding page_count
page_count-enough total size h =
    rw (lt→ltb 0 size h)
      (omega (arith, div-add-mod' (total + size - 1) size, mod-lt (total + size - 1) h))

module _ {T : Type 0} where
  drop-nil : (n : ℕ) → drop {A = T} n [] ≡ []
  drop-nil zero = refl
  drop-nil (suc n) = refl

  drop-drop : (a b : ℕ) (rows : List T) → drop a (drop b rows) ≡ drop (b + a) rows
  drop-drop a zero rows = ap (λ n. drop n rows) (omega arith)
  drop-drop a (suc b) [] = drop-nil a ∙ sym (drop-nil (suc b + a))
  drop-drop a (suc b) (x ∷ rows) =
      let e : suc (b + a) ≡ suc b + a = omega arith in
      drop-drop a b rows ∙ ap (λ n. drop n (x ∷ rows)) e

  drop_all : (n : ℕ) (rows : List T) → length rows ≤ n → drop n rows ≡ []
  drop_all zero [] h = refl
  drop_all zero (x ∷ rows) h = absurd (omega arith)
  drop_all (suc n) [] h = refl
  drop_all (suc n) (x ∷ rows) h = drop_all n rows (omega arith)

  pub page_of-slice :
      (k size : ℕ) (rows : List T)
      → page_of (k + 1) size rows ≡ ok (take size (drop (k * size) rows))
  unfolding page_of
  page_of-slice k size rows =
      let e : k + 1 - 1 ≡ k = omega arith in
      let f : ((k + 1) == 0) ≡ false = ground arith in rw (f, e) refl

  fetch_pages-drop :
      (size k count : ℕ) (rows : List T)
      → length rows ≤ (k + count) * size
      → fetch_pages size k count rows ≡ ok (drop (k * size) rows)
  fetch_pages-drop size k zero rows h = ap ok (sym (drop_all (k * size) rows (omega arith)))
  fetch_pages-drop size k (suc count) rows h =
      let rest = fetch_pages-drop size (suc k) count rows (omega arith) in
      let e : k * size + size ≡ suc k * size = grind arith in
      rw (page_of-slice k size rows) (
        rw rest (
          ap ok (
            ap (λ z. take size (drop (k * size) rows) ++ z)
              (ap (λ n. drop n rows) (sym e) ∙ sym (drop-drop size (k * size) rows))
            ∙ take-append-drop size (drop (k * size) rows))))

  -- For a positive page size: the pages from 1 to the count that the response reports, put together,
  -- are the rows, each once and in order.
  pub fetch_pages-page_count :
      (size : ℕ) (rows : List T)
      → 0 < size
      → fetch_pages size 0 (page_count (length rows) size) rows ≡ ok rows
  fetch_pages-page_count size rows h =
      let first : 0 * size ≡ 0 = omega arith in
      fetch_pages-drop size 0 (page_count (length rows) size) rows
        (omega (arith, page_count-enough (length rows) size h))
      ∙ ap (λ n. ok (drop n rows)) first
