-- ===== src/Action.antt =====
-- A coroutine that reads and writes a state and may raise. What was written before a raise stays
-- written: it is the session that rolls back.
use booking_api_service.Common.{Option, Bool}
use booking_api_service.Exceptions.{Error, Result, ok, err}
use booking_api_service.Exceptions.Results

abbrev pub Action {ℓ} : Type ℓ → Type ℓ → Type ℓ
Action S A = S → Result A × S

module _ {ℓ} {S A : Type ℓ} where
  abbrev pub pure : A → Action S A
  pure a s = (ok a, s)

  abbrev pub raise : Error → Action S A
  raise e s = (err e, s)

  abbrev pub lift : Result A → Action S A
  lift r s = (r, s)

  abbrev pub gets : (S → A) → Action S A
  gets f s = (ok (f s), s)

  -- A call that only reads, and may raise.
  abbrev pub asks : (S → Result A) → Action S A
  asks f s = (f s, s)

  abbrev pub or_raise : Option A → Error → Action S A
  or_raise o e = lift (Results.or_raise o e)

abbrev pub raise_if {ℓ} : {S : Type ℓ} → Bool → Error → S → Result (Unit {0}) × S
raise_if b e s = (Results.raise_if b e, s)

module _ {ℓ} {S A B : Type ℓ} where
  abbrev pub continue : Result A → (A → Action S B) → Action S B
  continue (ok a) f s = f a s
  continue (err e) f s = (err e, s)

  infixl 5 ◌>>=◌ ◌>>◌
  abbrev pub ◌>>=◌ : Action S A → (A → Action S B) → Action S B
  ◌>>=◌ m f s = let (r, s') = m s in continue r f s'

  abbrev pub ◌>>◌ : Action S A → Action S B → Action S B
  m >> n = m >>= λ _. n

-- `try: body` with `finally: last`, where `last` does not raise.
abbrev pub try_finally {ℓ} : {S A : Type ℓ} → Action S A → (S → S) → Action S A
try_finally body last s = let (r, s') = body s in (r, last s')
