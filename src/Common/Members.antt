-- ===== src/Common/Members.antt =====
-- Membership of a row in a table, and the keys of a table.
use Prim.Native.Nat.{ℕ}
use mathlib.Core.Path.{◌≡◌, refl, sym, ap, ◌∙◌, subst}
use mathlib.Core.Logic.{◌≢◌, ◌⊎◌, inl, inr}
use mathlib.Core.Bool.{Bool, true, false}
use mathlib.Core.Option.{none, some}
use mathlib.Core.List.{List, [], ◌∷◌, ◌++◌, map, flat_map}
use native.Mathlib.Omega.{arith}
use booking_api_service.Common.Tests.{
  ◌==◌, if◌then◌else◌, ==_iff, ==_refl, ==_ne, Bool-cases, Option-cases,
}
use booking_api_service.Common.Lists.{select, find, update_where, contains}

pub data Never {ℓ} : Type ℓ where

-- `x` is one of the rows, and where it stands.
abbrev pub In {ℓ} : {A : Type ℓ} → A → List A → Type ℓ
In x [] = Never
In x (y ∷ ys) = (x ≡ y) ⊎ In x ys

module _ {ℓ} {A : Type ℓ} where
  pub In-append_left : (x : A) (xs ys : List A) → In x xs → In x (xs ++ ys)
  In-append_left x [] ys h = elim h [ ]
  In-append_left x (y ∷ xs) ys (inl e) = inl e
  In-append_left x (y ∷ xs) ys (inr h) = inr (In-append_left x xs ys h)

  pub In-append_right : (x : A) (xs ys : List A) → In x ys → In x (xs ++ ys)
  In-append_right x [] ys h = h
  In-append_right x (y ∷ xs) ys h = inr (In-append_right x xs ys h)

  pub In-append : (x : A) (xs ys : List A) → In x (xs ++ ys) → In x xs ⊎ In x ys
  In-append x [] ys h = inr h
  In-append x (y ∷ xs) ys (inl e) = inl (inl e)
  In-append x (y ∷ xs) ys (inr h) = elim (In-append x xs ys h) [
    | inl k ↦ inl (inr k)
    | inr k ↦ inr k
  ]

  pub In-select : (p : A → Bool) (x : A) (xs : List A) → In x (select p xs) → In x xs × (p x ≡ true)
  In-select p x [] h = elim h [ ]
  In-select p x (y ∷ xs) h = elim (Bool-cases (p y)) [
    | inl e ↦
        let k : In x (y ∷ select p xs) = rw e at h in
        elim k [
          | inl q ↦ (inl q, ap p q ∙ e)
          | inr m ↦ let r = In-select p x xs m in (inr r.0, r.1)
        ]
    | inr e ↦ let k : In x (select p xs) = rw e at h in let r = In-select p x xs k in (inr r.0, r.1)
  ]

  pub In-select_intro :
      (p : A → Bool) (x : A) (xs : List A) → In x xs → p x ≡ true → In x (select p xs)
  In-select_intro p x [] h e = elim h [ ]
  In-select_intro p x (y ∷ xs) (inl q) e = rw (sym (ap p q) ∙ e) (inl q)
  In-select_intro p x (y ∷ xs) (inr h) e = elim (Bool-cases (p y)) [
    | inl t ↦ rw t (inr (In-select_intro p x xs h e))
    | inr f ↦ rw f (In-select_intro p x xs h e)
  ]

  pub find-In : (p : A → Bool) (x : A) (xs : List A) → find p xs ≡ some x → In x xs × (p x ≡ true)
  find-In p x [] h = cc
  find-In p x (y ∷ xs) h = elim (Bool-cases (p y)) [
    | inl e ↦ let k : some y ≡ some x = rw e at h in (inl (cc), cc)
    | inr e ↦ let k : find p xs ≡ some x = rw e at h in let r = find-In p x xs k in (inr r.0, r.1)
  ]

  pub find-eq-none : (p : A → Bool) (x : A) (xs : List A) → find p xs ≡ none → In x xs → p x ≡ false
  find-eq-none p x [] h m = elim m [ ]
  find-eq-none p x (y ∷ xs) h m = ground (arith, find-eq-none p x xs)

  pub not-In-nil : (xs : List A) → ((x : A) → ¬ In x xs) → xs ≡ []
  not-In-nil [] h = refl
  not-In-nil (x ∷ xs) h = absurd (h x (inl refl))

  pub In-update_where :
      (p : A → Bool) (f : A → A) (x : A) (xs : List A)
      → In x (update_where p f xs)
      → (y : A) × In y xs × (x ≡ (if p y then f y else y))
  In-update_where p f x [] h = elim h [ ]
  In-update_where p f x (y ∷ xs) (inl e) = (y, inl refl, e)
  In-update_where p f x (y ∷ xs) (inr h) = let r = In-update_where p f x xs h in (r.0, inr r.1, r.2)

module _ {ℓ κ} {A : Type ℓ} {B : Type κ} where
  pub In-map : (f : A → B) (x : A) (xs : List A) → In x xs → In (f x) (map f xs)
  In-map f x [] h = elim h [ ]
  In-map f x (y ∷ xs) (inl e) = inl (ap f e)
  In-map f x (y ∷ xs) (inr h) = inr (In-map f x xs h)

  pub In-map_inv :
      (f : A → B) (b : B) (xs : List A) → In b (map f xs) → (x : A) × In x xs × (b ≡ f x)
  In-map_inv f b [] h = elim h [ ]
  In-map_inv f b (y ∷ xs) (inl e) = (y, inl refl, e)
  In-map_inv f b (y ∷ xs) (inr h) = let r = In-map_inv f b xs h in (r.0, inr r.1, r.2)

  pub In-flat_map :
      (f : A → List B) (b : B) (xs : List A) → In b (flat_map f xs) → (x : A) × In x xs × In b (f x)
  unfolding flat_map
  In-flat_map f b [] h = elim h [ ]
  In-flat_map f b (y ∷ xs) h = elim (In-append b (f y) (flat_map f xs) h) [
    | inl k ↦ (y, inl refl, k)
    | inr k ↦ let r = In-flat_map f b xs k in (r.0, inr r.1, r.2)
  ]

  pub In-flat_map_intro :
      (f : A → List B) (b : B) (x : A) (xs : List A) → In x xs → In b (f x) → In b (flat_map f xs)
  unfolding flat_map
  In-flat_map_intro f b x [] h k = elim h [ ]
  In-flat_map_intro f b x (y ∷ xs) (inl e) k =
      In-append_left b (f y) (flat_map f xs) (subst (λ z. In b (f z)) e k)
  In-flat_map_intro f b x (y ∷ xs) (inr h) k =
      In-append_right b (f y) (flat_map f xs) (In-flat_map_intro f b x xs h k)

pub contains-In : (a : ℕ) (xs : List ℕ) → contains a xs ≡ true → In a xs
contains-In a [] h = cc
contains-In a (x ∷ xs) h = elim (Bool-cases (a == x)) [
  | inl e ↦ inl ((==_iff a x).0 e)
  | inr e ↦ inr (contains-In a xs (ground arith))
]

pub In-contains : (a : ℕ) (xs : List ℕ) → In a xs → contains a xs ≡ true
In-contains a [] h = elim h [ ]
In-contains a (x ∷ xs) (inl e) = ground arith
In-contains a (x ∷ xs) (inr h) = ground (arith, In-contains a xs h)

-- Looking a row up by its key, after the rows with one key were updated.
module _ {ℓ} {A : Type ℓ} (key : A → ℕ) (f : A → A) (keep : (x : A) → key (f x) ≡ key x) where
  find-update_where :
      (id j : ℕ) (xs : List A)
      → find (λ x. key x == j) (update_where (λ x. key x == id) f xs)
        ≡ (elim (find (λ x. key x == j) xs) [
          | none ↦ none
          | some x ↦ some (if j == id then f x else x)
        ])
  find-update_where id j [] = refl
  find-update_where id j (x ∷ xs) = ground (arith, keep x, find-update_where id j xs)

  pub find_updated :
      (id : ℕ) (xs : List A) {x : A}
      → find (λ x. key x == id) xs ≡ some x
      → find (λ x. key x == id) (update_where (λ x. key x == id) f xs) ≡ some (f x)
  find_updated id xs e = rw (find-update_where id id xs, e, ==_refl id) refl

  pub find_not_updated :
      (id j : ℕ) (xs : List A)
      → j ≢ id
      → find (λ x. key x == j) (update_where (λ x. key x == id) f xs) ≡ find (λ x. key x == j) xs
  find_not_updated id j xs ne =
      find-update_where id j xs ∙ elim (Option-cases (find (λ x. key x == j) xs)) [
        | inl n ↦ rw n refl
        | inr (x, e) ↦ rw (e, ==_ne j id ne) refl
      ]

-- Looking a row up that was added at the end.
pub find-snoc {ℓ} :
    {A : Type ℓ} (p : A → Bool) (x : A) (xs : List A)
    → find p xs ≡ none
    → p x ≡ true
    → find p (xs ++ x ∷ []) ≡ some x
find-snoc p x [] n e = rw e refl
find-snoc p x (y ∷ xs) n e = elim (Bool-cases (p y)) [
  | inl q ↦ let k : some y ≡ none = rw q at n in cc
  | inr q ↦ let k : find p xs ≡ none = rw q at n in rw q (find-snoc p x xs k e)
]

pub find-key-eq-none {ℓ} :
    {A : Type ℓ} (key : A → ℕ) (id : ℕ) (xs : List A)
    → contains id (map key xs) ≡ false
    → find (λ x. key x == id) xs ≡ none
find-key-eq-none key id [] h = refl
find-key-eq-none key id (x ∷ xs) h = ground (arith, find-key-eq-none key id xs)
