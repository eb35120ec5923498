-- ===== src/Sorting.antt =====
-- What the code relies on of the ORDER BY of one query: an interface, and an insertion sort that meets
-- it. Two queries may order rows with equal keys differently: each has a `Sorting` of its own. A key is
-- the pair of the columns that are ordered by, the second 0 where there is one column.
pub mod Unique
use booking_api_service.Common.{
  ℕ, suc, ◌≡◌, ◌↔◌, ◌⊎◌, inl, inr, refl, ap, ◌∙◌, List, [], ◌∷◌, Bool, true, false, ◌&&◌, ◌||◌,
  ◌==◌, ltb, leb, if◌then◌else◌, length, In, arith, Bool-cases,
}

abbrev pub precedes : ℕ × ℕ → ℕ × ℕ → Bool
precedes (a, b) (c, d) = ltb a c || (a == c && leb b d)

-- No row comes before one that it should follow.
abbrev pub IsOrdered {ℓ} : {A : Type ℓ} → (A → A → Bool) → List A → Type 0
IsOrdered before [] = Unit
IsOrdered before (x ∷ []) = Unit
IsOrdered before (x ∷ y ∷ xs) = (before x y ≡ true) × IsOrdered before (y ∷ xs)

abbrev pub ascending {ℓ} : {A : Type ℓ} → (A → ℕ × ℕ) → A → A → Bool
ascending key x y = precedes (key x) (key y)

abbrev pub descending {ℓ} : {A : Type ℓ} → (A → ℕ × ℕ) → A → A → Bool
descending key x y = precedes (key y) (key x)

pub record Sorting : Type 1 where
  pub order_by : (A : Type 0) → (A → ℕ × ℕ) → List A → List A
  pub order_by_desc : (A : Type 0) → (A → ℕ × ℕ) → List A → List A
  pub order_by-In :
      (A : Type 0) (key : A → ℕ × ℕ) (x : A) (xs : List A) → In x (order_by A key xs) ↔ In x xs
  pub order_by_desc-In :
      (A : Type 0) (key : A → ℕ × ℕ) (x : A) (xs : List A) → In x (order_by_desc A key xs) ↔ In x xs
  pub length-order_by :
      (A : Type 0) (key : A → ℕ × ℕ) (xs : List A) → length (order_by A key xs) ≡ length xs
  pub length-order_by_desc :
      (A : Type 0) (key : A → ℕ × ℕ) (xs : List A) → length (order_by_desc A key xs) ≡ length xs
  pub order_by-IsOrdered :
      (A : Type 0) (key : A → ℕ × ℕ) (xs : List A) → IsOrdered (ascending key) (order_by A key xs)
  pub order_by_desc-IsOrdered :
      (A : Type 0) (key : A → ℕ × ℕ) (xs : List A)
      → IsOrdered (descending key) (order_by_desc A key xs)

module _ {A : Type 0} (before : A → A → Bool) where
  abbrev put : A → List A → List A
  put x [] = x ∷ []
  put x (y ∷ ys) = if before x y then x ∷ y ∷ ys else y ∷ put x ys

  abbrev sort : List A → List A
  sort [] = []
  sort (x ∷ xs) = put x (sort xs)

  In-put : (a x : A) (ys : List A) → In a (put x ys) → (a ≡ x) ⊎ In a ys
  In-put a x [] m = m
  In-put a x (y ∷ ys) m = elim (Bool-cases (before x y)) [
    | inl e ↦ rw e at m
    | inr e ↦
        let k : (a ≡ y) ⊎ In a (put x ys) = rw e at m in
        elim k [
          | inl q ↦ inr (inl q)
          | inr i ↦ elim (In-put a x ys i) [ inl q ↦ inl q | inr j ↦ inr (inr j) ]
        ]
  ]

  put-In : (a x : A) (ys : List A) → (a ≡ x) ⊎ In a ys → In a (put x ys)
  put-In a x [] m = m
  put-In a x (y ∷ ys) m = elim (Bool-cases (before x y)) [
    | inl e ↦ rw e m
    | inr e ↦ rw e (elim m [
      | inl q ↦ inr (put-In a x ys (inl q))
      | inr (inl q) ↦ inl q
      | inr (inr i) ↦ inr (put-In a x ys (inr i))
    ])
  ]

  sort-In : (a : A) (xs : List A) → In a (sort xs) ↔ In a xs
  sort-In a [] = (λ m. m, λ m. m)
  sort-In a (x ∷ xs) =
      let (f, g) = sort-In a xs in
      (
        λ m. elim (In-put a x (sort xs) m) [ inl q ↦ inl q | inr i ↦ inr (f i) ],
        λ m. put-In a x (sort xs) (elim m [ inl q ↦ inl q | inr i ↦ inr (g i) ]),
      )

  length-put : (x : A) (ys : List A) → length (put x ys) ≡ suc (length ys)
  length-put x [] = refl
  length-put x (y ∷ ys) = ground (arith, length-put x ys)

  length-sort : (xs : List A) → length (sort xs) ≡ length xs
  length-sort [] = refl
  length-sort (x ∷ xs) = length-put x (sort xs) ∙ ap suc (length-sort xs)

module _ {A : Type 0} (before : A → A → Bool)
    (total : (x y : A) → before x y ≡ false → before y x ≡ true) where
  put-IsOrdered : (x : A) (ys : List A) → IsOrdered before ys → IsOrdered before (put before x ys)
  put-IsOrdered x [] o = tt
  put-IsOrdered x (y ∷ []) o = elim (Bool-cases (before x y)) [
    | inl e ↦ rw e (e, tt)
    | inr e ↦ rw e (total x y e, tt)
  ]
  put-IsOrdered x (y ∷ z ∷ ys) o = elim (Bool-cases (before x y)) [
    | inl e ↦ rw e (e, o)
    | inr e ↦ rw e (elim (Bool-cases (before x z)) [
      | inl f ↦ rw f (total x y e, (f, o.1))
      | inr f ↦ let rest = put-IsOrdered x (z ∷ ys) o.1 in rw f (o.0, (rw f at rest))
    ])
  ]

  sort-IsOrdered : (xs : List A) → IsOrdered before (sort before xs)
  sort-IsOrdered [] = tt
  sort-IsOrdered (x ∷ xs) = put-IsOrdered x (sort before xs) (sort-IsOrdered xs)

precedes_total : (a b : ℕ × ℕ) → precedes a b ≡ false → precedes b a ≡ true
precedes_total a b h = ground arith

pub insertion_sorting : Sorting
insertion_sorting = record {
  order_by = λ A key. sort (ascending key);
  order_by_desc = λ A key. sort (descending key);
  order_by-In = λ A key. sort-In (ascending key);
  order_by_desc-In = λ A key. sort-In (descending key);
  length-order_by = λ A key. length-sort (ascending key);
  length-order_by_desc = λ A key. length-sort (descending key);
  order_by-IsOrdered =
      λ A key. sort-IsOrdered (ascending key) (λ x y. precedes_total (key x) (key y));
  order_by_desc-IsOrdered =
      λ A key. sort-IsOrdered (descending key) (λ x y. precedes_total (key y) (key x));
}
