-- ===== src/Prelude/Results.antt =====
-- Python's exceptions as values. A transaction that raises is rolled back.
pub data Exception : Type 0 where
  value_error key_error runtime_error integrity_error price_not_configured budget_exceeded :
      Exception

pub data Result {ℓ} (A : Type ℓ) : Type ℓ where
  ok : A → Result A
  err : Exception → Result A
