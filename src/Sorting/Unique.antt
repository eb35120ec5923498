-- ===== src/Sorting/Unique.antt =====
-- Where the keys of the rows are distinct, every query orders them in the same way.
use booking_api_service.Common.{
  ℕ, ◌<◌, ◌≡◌, ◌↔◌, refl, ap, sym, ◌∙◌, subst, inl, inr, List, [], ◌∷◌, map, length-map, true,
  contains, contains-In, In-contains, IsUnique, distinct_of_length, In, In-map, In-map_inv, arith,
}
use booking_api_service.Sorting.{Sorting, IsOrdered, descending}

module _ {A : Type 0} (key : A → ℕ) where
  -- Each row has a larger key than all that follow.
  abbrev pub IsFalling : List A → Type 0
  IsFalling [] = Unit
  IsFalling (x ∷ xs) = ((y : A) → In y xs → key y < key x) × IsFalling xs

  IsOrdered-IsFalling :
      (xs : List A)
      → IsOrdered (descending (λ x. (key x, 0))) xs
      → IsUnique (map key xs)
      → IsFalling xs
  IsOrdered-IsFalling [] o u = tt
  IsOrdered-IsFalling (x ∷ []) o u = (λ y m. elim m [ ], tt)
  IsOrdered-IsFalling (x ∷ y ∷ xs) o u =
      let rest = IsOrdered-IsFalling (y ∷ xs) o.1 u.1 in
      let below : key y < key x = let a = o.0 in let b = u.0 in ground arith in
      (
        λ z m. elim m [
          | inl e ↦ subst (λ w. key w < key x) (sym e) below
          | inr i ↦ let k = rest.0 z i in omega arith
        ],
        rest,
      )

  IsFalling-unique :
      (xs ys : List A) → IsFalling xs → IsFalling ys → ((a : A) → In a xs ↔ In a ys) → xs ≡ ys
  IsFalling-unique [] [] f g same = refl
  IsFalling-unique [] (y ∷ ys) f g same = elim ((same y).1 (inl refl)) [ ]
  IsFalling-unique (x ∷ xs) [] f g same = elim ((same x).0 (inl refl)) [ ]
  IsFalling-unique (x ∷ xs) (y ∷ ys) f g same =
      let head : x ≡ y = elim ((same x).0 (inl refl)) [
        | inl e ↦ e
        | inr i ↦ elim ((same y).1 (inl refl)) [
          | inl e ↦ sym e
          | inr j ↦ let a = f.0 y j in let b = g.0 x i in absurd (omega arith)
        ]
      ] in
      let tails : (a : A) → In a xs ↔ In a ys = λ a. (
        λ m. elim ((same a).0 (inr m)) [
          | inl e ↦ let k = f.0 a m in let q = ap key (e ∙ sym head) in absurd (omega arith)
          | inr i ↦ i
        ],
        λ m. elim ((same a).1 (inr m)) [
          | inl e ↦ let k = g.0 a m in let q = ap key (e ∙ head) in absurd (omega arith)
          | inr i ↦ i
        ],
      ) in
      let rest = IsFalling-unique xs ys f.1 g.1 tails in rw (head, rest) refl

  order_by_desc-IsFalling :
      (S : Sorting) (xs : List A)
      → IsUnique (map key xs)
      → IsFalling (S.order_by_desc A (λ x. (key x, 0)) xs)
  order_by_desc-IsFalling S xs u =
      let sorted = S.order_by_desc A (λ x. (key x, 0)) xs in
      let sub : (k : ℕ) → contains k (map key xs) ≡ true → contains k (map key sorted) ≡ true =
        λ k m.
          let (x, i, e) = In-map_inv key k xs (contains-In k _ m) in
          In-contains k (map key sorted) (
            subst (λ z. In z (map key sorted)) (sym e)
              (In-map key x sorted ((S.order_by_desc-In A (λ x. (key x, 0)) x xs).1 i))) in
      IsOrdered-IsFalling sorted (S.order_by_desc-IsOrdered A (λ x. (key x, 0)) xs) (
        distinct_of_length (map key xs) (map key sorted) u sub (
          omega (
            arith,
            length-map key xs,
            length-map key sorted,
            S.length-order_by_desc A (λ x. (key x, 0)) xs,
          )))

  pub order_by_desc_unique :
      (S T : Sorting) (xs : List A)
      → IsUnique (map key xs)
      → S.order_by_desc A (λ x. (key x, 0)) xs ≡ T.order_by_desc A (λ x. (key x, 0)) xs
  order_by_desc_unique S T xs u =
      let k : A → ℕ × ℕ = λ x. (key x, 0) in
      IsFalling-unique (S.order_by_desc A k xs) (T.order_by_desc A k xs)
        (order_by_desc-IsFalling S xs u) (order_by_desc-IsFalling T xs u)
        λ a.
          let (f, g) = S.order_by_desc-In A k a xs in
          let (f', g') = T.order_by_desc-In A k a xs in (λ m. g' (f m), λ m. g (f' m))
