-- ===== src/Common/Keys.antt =====
-- Lists of keys without repetitions, and counting by them.
use Prim.Native.Nat.{ℕ, suc, ◌≤◌}
use mathlib.Core.Path.{◌≡◌, refl, ◌∙◌}
use mathlib.Core.Logic.{◌≢◌, inl, inr}
use mathlib.Core.Bool.{true, false, ◌||◌}
use mathlib.Core.List.{List, [], ◌∷◌, ◌++◌}
use native.Mathlib.Omega.{arith}
use booking_api_service.Common.Tests.{◌==◌, if◌then◌else◌, Bool-cases}
use booking_api_service.Common.Lists.{length, contains}

-- No number stands twice in the list.
abbrev pub IsUnique : List ℕ → Type 0
IsUnique [] = Unit
IsUnique (x ∷ xs) = (contains x xs ≡ false) × IsUnique xs

pub contains-append :
    (a : ℕ) (xs ys : List ℕ) → contains a (xs ++ ys) ≡ (contains a xs || contains a ys)
contains-append a [] ys = refl
contains-append a (x ∷ xs) ys = ground (arith, contains-append a xs ys)

-- A fresh number may be added at the end.
pub IsUnique-snoc :
    (a : ℕ) (xs : List ℕ) → IsUnique xs → contains a xs ≡ false → IsUnique (xs ++ a ∷ [])
IsUnique-snoc a [] u h = (refl, tt)
IsUnique-snoc a (x ∷ xs) u h =
    (ground (arith, contains-append x xs (a ∷ [])), IsUnique-snoc a xs u.1 (ground arith))

erase_first : ℕ → List ℕ → List ℕ
erase_first a [] = []
erase_first a (x ∷ xs) = if a == x then xs else x ∷ erase_first a xs

length-erase_first :
    (a : ℕ) (xs : List ℕ) → contains a xs ≡ true → suc (length (erase_first a xs)) ≡ length xs
unfolding erase_first
length-erase_first a [] h = cc
length-erase_first a (x ∷ xs) h = ground (arith, length-erase_first a xs)

contains-erase_first :
    (a b : ℕ) (xs : List ℕ) → a ≢ b → contains b (erase_first a xs) ≡ contains b xs
unfolding erase_first
contains-erase_first a b [] h = refl
contains-erase_first a b (x ∷ xs) h = ground (arith, contains-erase_first a b xs h)

-- Distinct numbers that all stand in another list are no more than its members.
pub length-le_of_subset :
    (xs ys : List ℕ)
    → IsUnique xs
    → ((a : ℕ) → contains a xs ≡ true → contains a ys ≡ true)
    → length xs ≤ length ys
length-le_of_subset [] ys u sub = omega arith
length-le_of_subset (x ∷ xs) ys u sub =
    let shorter = length-le_of_subset xs (erase_first x ys) u.1 λ a m.
      let apart : x ≢ a = λ e. ground arith in
      contains-erase_first x a ys apart ∙ sub a (ground arith) in
    let step = length-erase_first x ys (sub x (ground arith)) in omega arith

IsUnique-erase_first : (a : ℕ) (xs : List ℕ) → IsUnique xs → IsUnique (erase_first a xs)
unfolding erase_first
IsUnique-erase_first a [] u = tt
IsUnique-erase_first a (x ∷ xs) u = elim (Bool-cases (a == x)) [
  | inl e ↦ rw e u.1
  | inr e ↦
      rw e (contains-erase_first a x xs (λ q. ground arith) ∙ u.0, IsUnique-erase_first a xs u.1)
]

not-contains-erase_first :
    (a : ℕ) (xs : List ℕ) → IsUnique xs → contains a (erase_first a xs) ≡ false
unfolding erase_first
not-contains-erase_first a [] u = refl
not-contains-erase_first a (x ∷ xs) u = ground (arith, not-contains-erase_first a xs u.1)

length-erase_first-le : (a : ℕ) (xs : List ℕ) → length xs ≤ suc (length (erase_first a xs))
unfolding erase_first
length-erase_first-le a [] = omega arith
length-erase_first-le a (x ∷ xs) = ground (arith, length-erase_first-le a xs)

subset_without :
    (y : ℕ) (ys xs : List ℕ)
    → IsUnique xs
    → ((a : ℕ) → contains a xs ≡ true → contains a (y ∷ ys) ≡ true)
    → (a : ℕ) → contains a (erase_first y xs) ≡ true
    → contains a ys ≡ true
subset_without y ys xs u sub a m = elim (Bool-cases (a == y)) [
  | inl e ↦ ground (arith, not-contains-erase_first y xs u)
  | inr e ↦ ground (arith, contains-erase_first y a xs, sub a)
]

-- If distinct numbers stand in a list that is no longer, then that list repeats none either, and
-- has no others.
pub distinct_of_length :
    (xs ys : List ℕ)
    → IsUnique xs
    → ((a : ℕ) → contains a xs ≡ true → contains a ys ≡ true)
    → length ys ≤ length xs
    → IsUnique ys
distinct_of_length xs [] u sub h = tt
distinct_of_length xs (y ∷ ys) u sub h =
    let fresh : contains y ys ≡ false = elim (Bool-cases (contains y ys)) [
      | inr e ↦ e
      | inl e ↦
          let shorter = length-le_of_subset xs ys u (λ a m. ground (arith, sub a m)) in
          absurd (omega arith)
    ] in
    (
      fresh,
      distinct_of_length (erase_first y xs) ys (IsUnique-erase_first y xs u)
          (subset_without y ys xs u sub) (omega (arith, length-erase_first-le y xs)),
    )

pub subset_of_length :
    (xs ys : List ℕ)
    → IsUnique xs
    → ((a : ℕ) → contains a xs ≡ true → contains a ys ≡ true)
    → length ys ≤ length xs
    → (a : ℕ) → contains a ys ≡ true
    → contains a xs ≡ true
subset_of_length xs ys u sub h a m = elim (Bool-cases (contains a xs)) [
  | inl e ↦ e
  | inr e ↦
      let shorter =
        length-le_of_subset xs (erase_first a ys) u
          λ b k. contains-erase_first a b ys (λ (q : a ≡ b). cc) ∙ sub b k in
      let step = length-erase_first a ys m in absurd (omega arith)
]
