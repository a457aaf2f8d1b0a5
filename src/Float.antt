-- ===== src/Float.antt =====
-- Go's `float64`, of which the program uses conversions, four operations, two functions of `math`
-- and comparisons. The numbers themselves are a parameter: the hardware's.
use snipr.Base.{ℕ, Bool}
use snipr.Base.Int.{ℤ}

pub record Float64 : Type 1 where
  pub F : Type 0
  -- `float64(n)`
  pub of_ℕ : ℕ → F
  -- the literal m / 10 ^ k
  pub decimal : ℕ → ℕ → F
  pub add : F → F → F
  pub sub : F → F → F
  pub mul : F → F → F
  pub div : F → F → F
  pub neg : F → F
  pub log : F → F
  pub log2 : F → F
  pub exp : F → F
  pub ltb : F → F → Bool
  pub leb : F → F → Bool
  -- `float64(float32(x))`
  pub to_float32 : F → F
  -- `int(x)`
  pub trunc : F → ℤ
