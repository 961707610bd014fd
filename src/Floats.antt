-- ===== src/Floats.antt =====
-- Python's floats: the type and the operations that the program applies. A `Float` is not computed
-- with here; what a theorem needs of an operation is a hypothesis of that theorem.
pub mod Whole
use weather_demand_forecast.Prelude.{ℕ, String, Bool}

pub record Floats : Type 1 where
  pub Float : Type 0
  -- float(n)
  pub of_ℕ : ℕ → Float
  -- a / b, max(a, b)
  pub div : Float → Float → Float
  pub max : Float → Float → Float
  -- round(x, digits)
  pub round : Float → ℕ → Float
  -- str(x)
  pub str : Float → String
  -- a < b, a > b
  pub lt : Float → Float → Bool
