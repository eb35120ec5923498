-- ===== src/Exceptions/Results.antt =====
-- Chains of calls that may raise, and what a chain that went through says of its parts.
use booking_api_service.Common.{
  ◌≡◌, refl, Bool, true, false, ◌⊎◌, inl, inr, Option, none, some, arith,
}
use booking_api_service.Exceptions.{Result, ok, err, Error}

module _ {ℓ κ} {T : Type ℓ} {U : Type κ} where
  infixl 5 ◌>>=◌ ◌>>◌
  -- What follows a raise is not run.
  abbrev pub ◌>>=◌ : Result T → (T → Result U) → Result U
  err raised >>= next = err raised
  ok value >>= next = next value

  abbrev pub ◌>>◌ : Result T → Result U → Result U
  first >> second = first >>= λ _. second

  pub >>=-eq-ok :
      (call : Result T) (next : T → Result U) {u : U}
      → (call >>= next) ≡ ok u
      → (v : T) × (call ≡ ok v) × (next v ≡ ok u)
  >>=-eq-ok (err raised) next h = cc
  >>=-eq-ok (ok v) next h = (v, refl, h)

-- `if test: raise e`
abbrev pub raise_if : Bool → Error → Result (Unit {0})
raise_if true e = err e
raise_if false e = ok tt

-- `if not value: raise e`
abbrev pub or_raise {ℓ} : {A : Type ℓ} → Option A → Error → Result A
or_raise none e = err e
or_raise (some a) e = ok a

pub Result-cases {ℓ} :
    {A : Type ℓ} (r : Result A) → ((a : A) × (r ≡ ok a)) ⊎ ((e : Error) × (r ≡ err e))
Result-cases (ok a) = inl (a, refl)
Result-cases (err e) = inr (e, refl)

pub raise_if-eq-ok : (b : Bool) (e : Error) {u : Unit {0}} → raise_if b e ≡ ok u → b ≡ false
raise_if-eq-ok b e h = ground arith

pub or_raise-eq-ok {ℓ} :
    {A : Type ℓ} (o : Option A) (e : Error) {a : A} → or_raise o e ≡ ok a → o ≡ some a
or_raise-eq-ok none e h = cc
or_raise-eq-ok (some x) e h = cc
