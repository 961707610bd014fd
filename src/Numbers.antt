-- ===== src/Numbers.antt =====
-- Python's numbers where the program computes with both kinds: the float operations that it applies, which are not
-- computed with here, and the integers.
pub mod Naturals
use weather_demand_forecast.Prelude.{
  ℕ, suc, ◌+◌, ◌-◌, ◌≤◌, ◌≡◌, refl, Bool, true, leb, ltb, if◌then◌else◌, arith,
}
use weather_demand_forecast.Json.{ℤ, pos, negsuc}

pub record Numbers : Type 1 where
  pub Float : Type 0
  -- a decimal literal: its digits, and how many of them stand behind the point
  pub lit : ℕ → ℕ → Float
  pub minus : Float → Float
  pub of_int : ℤ → Float
  pub add : Float → Float → Float
  pub sub : Float → Float → Float
  pub mul : Float → Float → Float
  pub div : Float → Float → Float
  pub abs : Float → Float
  pub sin : Float → Float
  pub exp : Float → Float
  pub pi : Float
  pub lt : Float → Float → Bool
  pub le : Float → Float → Bool
  -- round(x, digits) and round(x)
  pub round_to : Float → ℕ → Float
  pub round : Float → ℤ

-- max(a, b) and min(a, b) of floats: the first unless the second is better
module _ (num : Numbers) where
  abbrev pub max : num.Float → num.Float → num.Float
  max a b = if num.lt a b then b else a

-- a - b of natural numbers
abbrev pub sub_ℕ : ℕ → ℕ → ℤ
sub_ℕ a b = if leb b a then pos (a - b) else negsuc (b - a - 1)

-- z - n
unfoldable pub sub_int : ℤ → ℕ → ℤ
sub_int (pos m) n = sub_ℕ m n
sub_int (negsuc m) n = negsuc (m + n)

-- n - z
unfoldable pub sub_from : ℕ → ℤ → ℤ
sub_from n (pos m) = sub_ℕ n m
sub_from n (negsuc m) = pos (n + suc m)

-- max(lo, min(hi, z)) of integers
unfoldable pub clamp : ℕ → ℕ → ℤ → ℤ
clamp lo hi (pos n) =
    pos (if ltb n hi then (if ltb lo n then n else lo) else (if ltb lo hi then hi else lo))
clamp lo hi (negsuc n) = pos lo

-- z < n and z >= n of an integer
unfoldable pub lt_int : ℤ → ℕ → Bool
lt_int (pos m) n = ltb m n
lt_int (negsuc m) n = true

abbrev pub InRange : ℕ → ℕ → ℤ → Type 0
InRange lo hi z = (n : ℕ) × (z ≡ pos n) × (lo ≤ n) × (n ≤ hi)

pub clamp-InRange : (lo hi : ℕ) (z : ℤ) → lo ≤ hi → InRange lo hi (clamp lo hi z)
unfolding clamp
clamp-InRange lo hi (pos n) h = (_, refl, ground arith, ground arith)
clamp-InRange lo hi (negsuc n) h = (lo, refl, ground arith, h)
