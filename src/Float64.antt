-- ===== src/Float64.antt =====
-- Go's floating-point numbers, float32 and float64, which are not modelled: the operations that the
-- program uses, as a parameter.
use nezha_diff.Base.{ℕ, Bool}

pub record Float64 (F : Type 0) : Type 0 where
  pub of_uint : ℕ → F
  pub to_uint : F → ℕ
  pub add : F → F → F
  pub sub : F → F → F
  pub mul : F → F → F
  pub div : F → F → F
  pub lt : F → F → Bool
  pub eq : F → F → Bool
  pub max : F → F → F
