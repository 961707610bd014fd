-- ===== src/Events/Demand.antt =====
-- services/event-generator/app/demand.py: the demand of a city at an hour, of its weather. The Gaussian draw is an
-- argument of the values of which the program makes the seed.
use weather_demand_forecast.Prelude.{
  ℕ, zero, suc, String, List, [], ◌∷◌, Option, none, some, if◌then◌else◌,
}
use weather_demand_forecast.Prelude.Dict.{Dict, get}
use weather_demand_forecast.Prelude.{String_eq}
use weather_demand_forecast.Numbers.{Numbers, max}
use weather_demand_forecast.Weather.{Time, WeatherReading}

pub data EventType : Type 0 where
  electricity_kwh gas_consumption_m3 ride_share_trips ice_cream_sales hot_drink_sales
        grocery_deliveries :
      EventType

-- event_type.value
abbrev pub value : EventType → String
value electricity_kwh = "ELECTRICITY_KWH"
value gas_consumption_m3 = "GAS_CONSUMPTION_M3"
value ride_share_trips = "RIDE_SHARE_TRIPS"
value ice_cream_sales = "ICE_CREAM_SALES"
value hot_drink_sales = "HOT_DRINK_SALES"
value grocery_deliveries = "GROCERY_DELIVERIES"

-- list(EventType)
abbrev pub event_types : List EventType
event_types =
    electricity_kwh ∷ gas_consumption_m3 ∷ ride_share_trips ∷ ice_cream_sales ∷ hot_drink_sales
    ∷ grocery_deliveries ∷ []

-- xs[i]
unfoldable pub get_elem? {ℓ} : {A : Type ℓ} → List A → ℕ → Option A
get_elem? [] i = none
get_elem? (x ∷ xs) zero = some x
get_elem? (x ∷ xs) (suc i) = get_elem? xs i

-- tenths of the weights of the hours
pub diurnal_tenths : EventType → List ℕ
diurnal_tenths electricity_kwh =
    6 ∷ 5 ∷ 5 ∷ 5 ∷ 6 ∷ 8 ∷ 11 ∷ 13 ∷ 13 ∷ 12 ∷ 11 ∷ 10 ∷ 10 ∷ 10 ∷ 10 ∷ 10 ∷ 11 ∷ 13 ∷ 14 ∷ 13 ∷ 12
    ∷ 10 ∷ 8 ∷ 7 ∷ []
diurnal_tenths gas_consumption_m3 =
    5 ∷ 5 ∷ 4 ∷ 4 ∷ 5 ∷ 8 ∷ 13 ∷ 14 ∷ 12 ∷ 10 ∷ 9 ∷ 8 ∷ 8 ∷ 8 ∷ 8 ∷ 9 ∷ 11 ∷ 14 ∷ 15 ∷ 13 ∷ 10 ∷ 8
    ∷ 6 ∷ 5 ∷ []
diurnal_tenths ride_share_trips =
    3 ∷ 2 ∷ 2 ∷ 2 ∷ 3 ∷ 6 ∷ 12 ∷ 15 ∷ 14 ∷ 10 ∷ 9 ∷ 9 ∷ 10 ∷ 9 ∷ 9 ∷ 10 ∷ 13 ∷ 15 ∷ 14 ∷ 12 ∷ 10 ∷ 8
    ∷ 6 ∷ 4 ∷ []
diurnal_tenths ice_cream_sales =
    0 ∷ 0 ∷ 0 ∷ 0 ∷ 0 ∷ 0 ∷ 1 ∷ 2 ∷ 3 ∷ 5 ∷ 8 ∷ 11 ∷ 14 ∷ 15 ∷ 15 ∷ 14 ∷ 13 ∷ 11 ∷ 9 ∷ 7 ∷ 4 ∷ 2 ∷ 1
    ∷ 0 ∷ []
diurnal_tenths hot_drink_sales =
    1 ∷ 0 ∷ 0 ∷ 0 ∷ 1 ∷ 4 ∷ 12 ∷ 16 ∷ 15 ∷ 12 ∷ 10 ∷ 10 ∷ 10 ∷ 10 ∷ 9 ∷ 9 ∷ 10 ∷ 11 ∷ 10 ∷ 8 ∷ 6 ∷ 4
    ∷ 2 ∷ 1 ∷ []
diurnal_tenths grocery_deliveries =
    1 ∷ 0 ∷ 0 ∷ 0 ∷ 1 ∷ 2 ∷ 4 ∷ 6 ∷ 8 ∷ 9 ∷ 10 ∷ 11 ∷ 13 ∷ 12 ∷ 11 ∷ 10 ∷ 11 ∷ 13 ∷ 15 ∷ 14 ∷ 12 ∷ 9
    ∷ 6 ∷ 3 ∷ []

module _ (num : Numbers) where
  open num use {Float, lit, of_int, add, sub, mul, div, abs, exp, lt, le, round_to}

  pub base_demand : EventType → Float
  base_demand electricity_kwh = lit 5000 1
  base_demand gas_consumption_m3 = lit 1200 1
  base_demand ride_share_trips = lit 800 1
  base_demand ice_cream_sales = lit 400 1
  base_demand hot_drink_sales = lit 600 1
  base_demand grocery_deliveries = lit 500 1

  abbrev city_scales : Dict String Float
  city_scales =
      ("london", lit 14 1)
      ∷ ("new_york", lit 16 1)
      ∷ ("tokyo", lit 18 1)
      ∷ ("sydney", lit 11 1)
      ∷ ("dubai", lit 12 1)
      ∷ ("nairobi", lit 8 1)
      ∷ ("moscow", lit 13 1)
      ∷ ("singapore", lit 10 1)
      ∷ ("reykjavik", lit 4 1)
      ∷ ("cape_town", lit 7 1)
      ∷ []

  -- CITY_SCALE.get(city_key, _DEFAULT_CITY_SCALE)
  pub city_scale : String → Float
  unfolding get
  city_scale city_key = elim (get city_key city_scales) [ none ↦ lit 10 1 | some x ↦ x ]

  pub electricity_multiplier : WeatherReading num → Float
  electricity_multiplier r =
      let t = r.temperature_c in
      if le t (lit 50 1)
      then add (lit 10 1) (mul (sub (lit 50 1) t) (lit 8 2))
      else (if le (lit 280 1) t
          then add (lit 10 1) (mul (sub t (lit 280 1)) (lit 6 2))
          else add (lit 8 1) (div (mul (lit 2 1) (abs (sub t (lit 180 1)))) (lit 130 1)))

  pub gas_multiplier : WeatherReading num → Float
  gas_multiplier r =
      max num (lit 5 2) (add (lit 10 1) (mul (sub (lit 150 1) r.temperature_c) (lit 7 2)))

  -- r.precip_probability_pct / 100.0 * share
  abbrev rain : WeatherReading num → Float → Float
  rain r share = mul (div (of_int r.precip_probability_pct) (lit 1000 1)) share

  pub ride_share_multiplier : WeatherReading num → Float
  ride_share_multiplier r =
      let heat_bump = max num (lit 0 1) (mul (sub r.temperature_c (lit 320 1)) (lit 4 2)) in
      add (add (lit 10 1) (rain r (lit 8 1))) heat_bump

  pub ice_cream_multiplier : WeatherReading num → Float
  ice_cream_multiplier r =
      let sun_factor =
        sub (lit 10 1) (mul (div (of_int r.cloud_cover_pct) (lit 1000 1)) (lit 5 1)) in
      let temp_factor = max num (lit 0 1) (div (sub r.temperature_c (lit 100 1)) (lit 250 1)) in
      if lt r.temperature_c (lit 100 1)
      then lit 5 2
      else max num (lit 5 2) (mul (mul sun_factor temp_factor) (lit 30 1))

  pub hot_drink_multiplier : WeatherReading num → Float
  hot_drink_multiplier r =
      let cold_factor =
        max num (lit 3 1) (add (lit 10 1) (mul (sub (lit 180 1) r.temperature_c) (lit 4 2))) in
      add cold_factor (rain r (lit 4 1))

  pub grocery_delivery_multiplier : WeatherReading num → Float
  grocery_delivery_multiplier r =
      let cold_bump = max num (lit 0 1) (mul (sub (lit 50 1) r.temperature_c) (lit 3 2)) in
      add (add (lit 10 1) (rain r (lit 12 1))) cold_bump

  pub multiplier : EventType → WeatherReading num → Float
  multiplier electricity_kwh = electricity_multiplier
  multiplier gas_consumption_m3 = gas_multiplier
  multiplier ride_share_trips = ride_share_multiplier
  multiplier ice_cream_sales = ice_cream_multiplier
  multiplier hot_drink_sales = hot_drink_multiplier
  multiplier grocery_deliveries = grocery_delivery_multiplier

  -- _DIURNAL[event_type][hour]: none for an IndexError
  pub diurnal : EventType → ℕ → Option Float
  unfolding get_elem? diurnal_tenths
  diurnal event_type hour = elim (get_elem? (diurnal_tenths event_type) hour) [
    | none ↦ none
    | some n ↦ some (lit n 1)
  ]

  -- the values of which `hash` makes the seed
  abbrev pub noise_seed : String → EventType → Time → String × String × ℕ × ℕ × ℕ × ℕ
  noise_seed city_key event_type ts =
      (city_key, value event_type, ts.year, ts.month, ts.day, ts.hour)

  -- `gauss`: the first draw of random.Random(hash(…)).gauss(mu, sigma)
  pub quantity_with :
      (String × String × ℕ × ℕ × ℕ × ℕ → Float → Float → Float)
      → EventType
      → WeatherReading num
      → String
      → Time
      → Float
      → Float
  unfolding base_demand city_scale multiplier
  quantity_with gauss event_type reading city_key sim_ts diurnal_m =
      let noise_m = exp (gauss (noise_seed city_key event_type sim_ts) (lit 0 1) (lit 8 2)) in
      let weather_m = multiplier event_type reading in
      let scaled = mul (mul (base_demand event_type) (city_scale city_key)) weather_m in
      round_to (max num (lit 0 1) (mul (mul scaled diurnal_m) noise_m)) 2

  unfoldable pub generate_quantity :
      (String × String × ℕ × ℕ × ℕ × ℕ → Float → Float → Float)
      → EventType
      → WeatherReading num
      → String
      → Time
      → Option Float
  unfolding diurnal quantity_with
  generate_quantity gauss event_type reading city_key sim_ts =
      elim (diurnal event_type sim_ts.hour) [
        | none ↦ none
        | some diurnal_m ↦ some (quantity_with gauss event_type reading city_key sim_ts diurnal_m)
      ]
