-- ===== src/Weather.antt =====
-- libs/common/common/generator.py: the weather of a city at an hour. The draws of `random.Random`, seeded with the
-- place and the hour, are an argument, numbered in the order in which the functions make them.
pub mod Bounds
use weather_demand_forecast.Prelude.{
  ℕ, ◌+◌, String, Bool, true, false, not, List, [], ◌∷◌, Option, none, some, if◌then◌else◌, ◌==◌,
  String_eq,
}
use weather_demand_forecast.Json.{ℤ, pos}
use weather_demand_forecast.Numbers.{Numbers, max, sub_ℕ, sub_int, sub_from, clamp, lt_int}

-- the fields of a datetime that the program reads; `yday` is timetuple().tm_yday
pub record Time : Type 0 where
  pub year : ℕ
  pub month : ℕ
  pub day : ℕ
  pub hour : ℕ
  pub yday : ℕ

module _ (num : Numbers) where
  open num use {
    Float, lit, minus, of_int, add, sub, mul, div, abs, sin, pi, lt, le, round_to, round,
  }

  pub record City : Type 0 where
    pub name : String
    pub lat : Float
    pub lon : Float

  pub record WeatherReading : Type 0 where
    pub temperature_c : Float
    pub feels_like_c : Float
    pub dew_point_c : Float
    pub humidity_pct : ℤ
    pub wind_kph : Float
    pub wind_direction_deg : Float
    pub cloud_cover_pct : ℤ
    pub precip_probability_pct : ℤ
    pub precip_mm : Float
    pub condition : String

  -- rng.gauss, rng.uniform and rng.expovariate at the n-th draw
  pub record Random : Type 0 where
    pub gauss : ℕ → Float → Float → Float
    pub uniform : ℕ → Float → Float → Float
    pub expovariate : ℕ → Float → Float

  abbrev nat : ℕ → Float
  nat n = of_int (pos n)

  -- 1.0 if lat >= 0.0 else -1.0
  abbrev hemisphere_sign : Float → Float
  hemisphere_sign lat = if le (lit 0 1) lat then lit 10 1 else minus (lit 10 1)

  -- math.sin(2 * math.pi * (n - shift) / period)
  pub wave : ℕ → ℕ → ℕ → Float
  unfolding sub_int
  wave n shift period =
      sin (div (mul (mul (nat 2) pi) (of_int (sub_int (pos n) shift))) (nat period))

  pub base_temp : Float → Float
  base_temp lat = sub (lit 270 1) (mul (lit 5 1) (abs lat))

  pub seasonal_offset : Float → Time → Float
  unfolding wave
  seasonal_offset lat ts =
      let amplitude = div (mul (lit 150 1) (abs lat)) (lit 900 1) in
      mul (mul amplitude (hemisphere_sign lat)) (wave ts.yday 80 365)

  pub diurnal_offset : ℕ → Float
  unfolding wave
  diurnal_offset hour = mul (lit 60 1) (wave hour 6 24)

  pub temperature : City → Time → Random → Float
  unfolding base_temp seasonal_offset diurnal_offset
  temperature city ts rng =
      let noise = rng.gauss 1 (lit 0 1) (lit 15 1) in
      round_to
        (add (add (add (base_temp city.lat) (seasonal_offset city.lat ts)) (diurnal_offset ts.hour))
          noise)
        1

  pub humidity : City → Time → Random → ℤ
  unfolding wave clamp
  humidity city ts rng =
      let base = sub (lit 700 1) (mul (abs (sub (abs city.lat) (lit 300 1))) (lit 4 1)) in
      let seasonal = mul (mul (lit 80 1) (wave ts.yday 80 365)) (hemisphere_sign city.lat) in
      clamp 10 100 (round (add (add base seasonal) (rng.gauss 2 (lit 0 1) (lit 120 1))))

  pub wind_kph : Random → Float
  wind_kph rng = round_to (max num (lit 0 1) (rng.gauss 3 (lit 180 1) (lit 90 1))) 1

  pub wind_direction_deg : Random → Float
  wind_direction_deg rng = round_to (rng.uniform 4 (lit 0 1) (lit 3600 1)) 1

  pub cloud_cover : ℤ → Random → ℤ
  unfolding sub_int clamp
  cloud_cover humidity rng = clamp 0 100 (
      round
        (add (mul (of_int (sub_int humidity 40)) (lit 13 1)) (rng.gauss 5 (lit 0 1) (lit 100 1))))

  pub precip_mm : ℤ → Random → Float
  unfolding lt_int
  precip_mm precip_prob rng =
      let share = div (of_int precip_prob) (lit 1000 1) in
      let rate = max num (lit 1 1) (mul share (lit 50 1)) in
      if lt_int precip_prob 20
      then lit 0 1
      else round_to (mul (rng.expovariate 6 (div (lit 10 1) rate)) share) 2

  -- min(100, max(0, …)) is max(0, min(100, …))
  pub precip_probability : ℤ → ℤ → ℤ
  unfolding sub_int clamp
  precip_probability humidity cloud_cover = clamp 0 100 (
      round (
        add (mul (of_int (sub_int humidity 55)) (lit 15 1))
          (mul (of_int (sub_int cloud_cover 50)) (lit 4 1))))

  pub feels_like : Float → Float → ℤ → Float
  feels_like temp wind_kph humidity =
      let wind_ms = div wind_kph (lit 36 1) in
      let vapour = mul (div (of_int humidity) (lit 1000 1)) (lit 61 1) in
      let hot = sub (sub (add temp (mul (lit 33 2) vapour)) (mul (lit 70 2) wind_ms)) (lit 40 1) in
      if lt (lit 270 1) temp
      then round_to hot 1
      else (if lt temp (lit 100 1) then round_to (sub temp (mul wind_kph (lit 25 2))) 1 else temp)

  pub dew_point : Float → ℤ → Float
  unfolding sub_from
  dew_point temp humidity = round_to (sub temp (div (of_int (sub_from 100 humidity)) (lit 50 1))) 1

  pub condition : ℤ → ℤ → String
  unfolding lt_int
  condition cloud_cover precip_prob =
      if not (lt_int precip_prob 70)
      then "HEAVY_RAIN"
      else (if not (lt_int precip_prob 40)
          then "RAIN"
          else (if not (lt_int precip_prob 20)
              then "DRIZZLE"
              else (if not (lt_int cloud_cover 90)
                  then "CLOUDY"
                  else (if not (lt_int cloud_cover 70)
                      then "MOSTLY_CLOUDY"
                      else (if not (lt_int cloud_cover 40)
                          then "PARTLY_CLOUDY_DAY"
                          else (if not (lt_int cloud_cover 20)
                              then "MOSTLY_CLEAR"
                              else "CLEAR_DAY"))))))

  -- the values of which `hash` makes the seed
  abbrev pub seed_of : City → Time → Float × Float × ℕ × ℕ × ℕ × ℕ
  seed_of city ts = (round_to city.lat 1, round_to city.lon 1, ts.year, ts.month, ts.day, ts.hour)

  -- `random`: random.Random(hash(…))
  unfoldable pub generate_reading :
      (Float × Float × ℕ × ℕ × ℕ × ℕ → Random) → City → Time → WeatherReading
  unfolding temperature humidity wind_kph wind_direction_deg cloud_cover precip_probability
      precip_mm feels_like dew_point condition
  generate_reading random city ts =
      let rng = random (seed_of city ts) in
      let temp = temperature city ts rng in
      let humid = humidity city ts rng in
      let wind = wind_kph rng in
      let cloud = cloud_cover humid rng in
      let precip_prob = precip_probability humid cloud in
      record {
        temperature_c = temp;
        feels_like_c = feels_like temp wind humid;
        dew_point_c = dew_point temp humid;
        humidity_pct = humid;
        wind_kph = wind;
        wind_direction_deg = wind_direction_deg rng;
        cloud_cover_pct = cloud;
        precip_probability_pct = precip_prob;
        precip_mm = precip_mm precip_prob rng;
        condition = condition cloud precip_prob;
      }
