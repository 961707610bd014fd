-- ===== src/Numbers/Naturals.antt =====
-- Natural numbers in place of floats, for concrete runs.
use weather_demand_forecast.Prelude.{ℕ, ◌-◌, ◌+◌, ◌*◌, ◌/◌, ◌^◌, leb, ltb}
use weather_demand_forecast.Json.{ℤ, pos, negsuc}
use weather_demand_forecast.Numbers.{Numbers}

abbrev pos_part : ℤ → ℕ
pos_part (pos n) = n
pos_part (negsuc n) = 0

abbrev pub naturals : Numbers
naturals = record {
  Float = ℕ;
  lit = λ n d. n / 10 ^ d;
  minus = λ x. 0;
  of_int = pos_part;
  add = λ x y. x + y;
  sub = λ x y. x - y;
  mul = λ x y. x * y;
  div = λ x y. x / y;
  abs = λ x. x;
  sin = λ x. 0;
  exp = λ x. 1;
  pi = 3;
  lt = λ x y. ltb x y;
  le = λ x y. leb x y;
  round_to = λ x d. x;
  round = λ x. pos x;
}
