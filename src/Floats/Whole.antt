-- ===== src/Floats/Whole.antt =====
-- Whole numbers in place of floats, for concrete runs.
use weather_demand_forecast.Floats.{Floats}
use weather_demand_forecast.Prelude.{ℕ, ◌/◌, leb, ltb, ◌==◌, ℕ_eq, if◌then◌else◌}

abbrev pub whole : Floats
whole = record {
  Float = ℕ;
  of_ℕ = λ n. n;
  div = λ a b. a / b;
  max = λ a b. if leb a b then b else a;
  round = λ x digits. x;
  str = λ x. if x == 0 then "0" else "many";
  lt = λ a b. ltb a b;
}
