-- ===== src/Base/Calls.antt =====
-- What a Python call does: it returns a value or raises an exception.
pub data Outcome {ℓ} (A E : Type ℓ) : Type ℓ where
  returned : A → Outcome A E
  raised : E → Outcome A E
