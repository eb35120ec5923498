-- ===== src/Common/Counting.antt =====
-- Counting the members of a list.
use Prim.Native.Nat.{ℕ, suc}
use mathlib.Core.Path.{◌≡◌}
use mathlib.Core.Logic.{◌↔◌, inl, inr}
use mathlib.Core.Bool.{Bool, true}
use mathlib.Core.List.{List, [], ◌∷◌}
use booking_api_service.Common.Tests.{Bool-cases}
use booking_api_service.Common.Lists.{length, select}

-- The number of the members of a list that have a property.
pub data Counts {ℓ} {A : Type ℓ} (P : A → Type 0) : List A → ℕ → Type ℓ where
  none_left : Counts P [] 0
  has : {x : A} {xs : List A} {n : ℕ} → P x → Counts P xs n → Counts P (x ∷ xs) (suc n)
  has_not : {x : A} {xs : List A} {n : ℕ} → ¬ P x → Counts P xs n → Counts P (x ∷ xs) n

pub select-Counts :
    {A : Type 0} (P : A → Type 0) (p : A → Bool)
    → ((x : A) → (p x ≡ true) ↔ P x)
    → (xs : List A) → Counts P xs (length (select p xs))
select-Counts P p same [] = none_left
select-Counts P p same (x ∷ xs) = elim (Bool-cases (p x)) [
  | inl e ↦ rw e (has ((same x).0 e) (select-Counts P p same xs))
  | inr e ↦ rw e (has_not (λ k. let q = (same x).1 k in cc) (select-Counts P p same xs))
]
