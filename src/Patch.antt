-- ===== src/Patch.antt =====
-- `model_dump(exclude_unset=True)` and `setattr` on the columns of a row: a field of the request may
-- be left out, be null, or carry a value. Every column that can be patched is NOT NULL, so the flush
-- refuses a null.
use booking_api_service.Common.{Bool, true, false}

pub data Patch {ℓ} (A : Type ℓ) : Type ℓ where
  unset null : Patch A
  value : A → Patch A

abbrev pub is_null {ℓ} : {A : Type ℓ} → Patch A → Bool
is_null null = true
is_null _ = false

-- The column after the patch, when it is not null.
abbrev pub patched {ℓ} : {A : Type ℓ} → Patch A → A → A
patched (value a) old = a
patched _ old = old
