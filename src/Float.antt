-- ===== src/Float.antt =====
-- C's `float`, which the schedule and sensor records hold. The type is a parameter, with the two
-- conversions that the code makes: an `int` stored in a `float`, and a `float` passed as an `int`.
use pcon_tng.Prelude.{ℤ}

pub record CFloat (F : Type 0) : Type 0 where
  pub of_int : ℤ → F
  pub to_int : F → ℤ

-- Whole degrees, to run the model.
instance abbrev pub whole : CFloat ℤ
whole = record { of_int = λ n. n; to_int = λ n. n }
