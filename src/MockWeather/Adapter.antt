-- ===== src/MockWeather/Adapter.antt =====
-- services/mock-weather/app/adapter.py, and the two weather routes of main.py: the readings of the weather generator
-- in the nested shape of the Google Weather API. The calendar, the texts of times and of floats and `str.lower` are
-- fields of the interface; the queries arrive as numbers, and FastAPI answers 422 outside of their ranges.
pub mod Agreement
mod Tests
use Prim.Native.String.{◌++◌}
use weather_demand_forecast.Floats.{Floats}
use weather_demand_forecast.Prelude.{
  ℕ, zero, suc, ◌+◌, ◌-◌, ◌*◌, ◌/◌, ◌%◌, String, Bool, true, false, ◌&&◌, ◌||◌, not, List, [], ◌∷◌,
  Option, none, some, ltb, ◌==◌, String_eq, if◌then◌else◌,
}
use weather_demand_forecast.Prelude.Dict.{Dict, get}
use weather_demand_forecast.Json.{
  ℤ, pos, negsuc, Value, Items, Fields, int, str, arr, obj, end, field, nil, cons, other, Result,
  ok, raise, ◌>>=◌,
}
use weather_demand_forecast.Numbers.{Numbers, max, sub_int, clamp, lt_int}
use weather_demand_forecast.Weather.{Time, City, WeatherReading, Random, generate_reading}
use weather_demand_forecast.MockWeather.{ChaosConfig, apply_chaos}

-- `reading_time t`: the fields of the datetime of `t`; `name lat lon`: f"{lat},{lon}"
pub record Api : Type 1 where
  pub num : Numbers
  pub random : num.Float × num.Float × ℕ × ℕ × ℕ × ℕ → Random num
  pub reading_time : ℕ → Time
  pub isoformat : ℕ → String
  pub number : num.Float → Value
  pub lower : String → String
  pub name : num.Float → num.Float → String

-- an hour in microseconds
abbrev pub hour : ℕ
hour = 3600000000

-- now.replace(minute=0, second=0, microsecond=0)
abbrev pub hour_start : ℕ → ℕ
hour_start now = now / hour * hour

abbrev pub cardinals : List String
cardinals =
    "N" ∷ "NNE" ∷ "NE" ∷ "ENE" ∷ "E" ∷ "ESE" ∷ "SE" ∷ "SSE" ∷ "S" ∷ "SSW" ∷ "SW" ∷ "WSW" ∷ "W"
    ∷ "WNW" ∷ "NW" ∷ "NNW" ∷ []

abbrev pub condition_text : Dict String String
condition_text =
    ("HEAVY_RAIN", "Heavy rain")
    ∷ ("RAIN", "Rain")
    ∷ ("DRIZZLE", "Light drizzle")
    ∷ ("CLOUDY", "Overcast")
    ∷ ("MOSTLY_CLOUDY", "Mostly cloudy")
    ∷ ("PARTLY_CLOUDY_DAY", "Partly cloudy")
    ∷ ("MOSTLY_CLEAR", "Mostly clear")
    ∷ ("CLEAR_DAY", "Clear")
    ∷ []

-- ks[n], with an IndexError behind the end
unfoldable pub item : List String → ℕ → Result String
item [] n = raise other
item (k ∷ ks) zero = ok k
item (k ∷ ks) (suc n) = item ks n

-- z % 16, which is never negative
unfoldable pub mod_16 : ℤ → ℕ
mod_16 (pos n) = n % 16
mod_16 (negsuc n) = 15 - n % 16

-- d.get(k, k)
unfoldable pub text_of : String → String
unfolding get
text_of k = elim (get k condition_text) [ none ↦ k | some t ↦ t ]

-- the length of range(z)
abbrev pub range_length : ℤ → ℕ
range_length (pos n) = n
range_length (negsuc n) = 0

-- {"key": value, "unit": unit}
abbrev pub measure : String → Value → String → String → Value
measure key value unit_key unit = obj (field key value (field unit_key (str unit) end))

module _ (api : Api) where
  open api use {num, random, reading_time, isoformat, number, lower, name}
  open num use {Float, lit, minus, of_int, sub, mul, div, sin, pi, lt, le, round_to, round}

  unfoldable pub cardinal : Float → Result String
  unfolding item mod_16
  cardinal deg = item cardinals (mod_16 (round (div deg (lit 225 1))))

  unfoldable pub uv_index : Time → ℤ → ℤ
  unfolding clamp
  uv_index ts cloud_pct =
      let solar = sin (div (mul pi (of_int (pos (ts.hour - 6)))) (of_int (pos 14))) in
      let share = sub (of_int (pos 1)) (div (of_int cloud_pct) (lit 1500 1)) in
      if ltb ts.hour 6 || ltb 20 ts.hour
      then pos 0
      else clamp 0 11 (round (mul (mul solar (lit 100 1)) share))

  abbrev pub min : Float → Float → Float
  min a b = if lt b a then b else a

  unfoldable pub visibility_km : ℤ → ℤ → Float
  unfolding sub_int
  visibility_km humidity cloud =
      let vis =
        sub (sub (lit 200 1) (mul (of_int (sub_int humidity 50)) (lit 1 1)))
          (mul (of_int cloud) (lit 5 2)) in
      round_to (max num (lit 10 1) (min (lit 200 1) vis)) 1

  -- the fields of the dict that `_to_point` returns
  abbrev pub point : WeatherReading num → Time → String → Fields
  point r ts wind_cardinal =
      field "temperature" (measure "degrees" (number r.temperature_c) "unit" "CELSIUS") (
        field "feelsLike" (measure "degrees" (number r.feels_like_c) "unit" "CELSIUS") (
          field "dewPoint" (measure "degrees" (number r.dew_point_c) "unit" "CELSIUS") (
            field "humidity" (int r.humidity_pct) (
              field "wind"
                (obj (
                  field "speed" (measure "value" (number r.wind_kph) "unit" "KILOMETERS_PER_HOUR") (
                    field "direction"
                      (measure "degrees" (number r.wind_direction_deg) "cardinal" wind_cardinal)
                      end)))
                (field "precipitation"
                  (obj (
                    field "probability"
                      (measure "percent" (int r.precip_probability_pct) "type" "RAIN")
                      (field "qpf" (measure "quantity" (number r.precip_mm) "unit" "MILLIMETERS")
                        end)))
                  (field "weatherCondition"
                    (obj (
                      field "description"
                        (measure "text" (str (text_of r.condition)) "languageCode" "en")
                        (field "type" (str r.condition) (
                          field "iconBaseUri"
                            (str ("https://maps.gstatic.com/weather/v1/" ++ lower r.condition))
                            end))))
                    (field "uvIndex" (int (uv_index ts r.cloud_cover_pct)) (
                      field "visibility"
                        (measure "distance"
                          (number (visibility_km r.humidity_pct r.cloud_cover_pct)) "unit"
                          "KILOMETERS")
                        (field "cloudCover" (int r.cloud_cover_pct) end)))))))))

  unfoldable pub to_point : WeatherReading num → Time → Result Fields
  unfolding cardinal
  to_point r ts = do wind_cardinal ← cardinal r.wind_direction_deg; ok (point r ts wind_cardinal)

  abbrev pub reading_at : City num → ℕ → WeatherReading num
  reading_at city t = generate_reading num random city (reading_time t)

  -- `now`, `again`: the clock at its two reads
  unfoldable pub current_payload : City num → ℕ → ℕ → Result Value
  unfolding to_point generate_reading
  current_payload city now again = do
    fields ← to_point (reading_at city (hour_start now)) (reading_time (hour_start now))
    ok (obj (field "currentConditions" (obj (field "time" (str (isoformat again)) fields)) end))

  abbrev pub interval : ℕ → Value
  interval dt =
      obj
        (field "startTime" (str (isoformat dt)) (field "endTime" (str (isoformat (dt + hour))) end))

  -- the items from the i-th on
  unfoldable pub items : City num → ℕ → ℕ → ℕ → Result Items
  unfolding to_point generate_reading
  items city start zero i = ok nil
  items city start (suc n) i = do
    fields ← to_point (reading_at city (start + i * hour)) (reading_time (start + i * hour))
    rest ← items city start n (suc i)
    ok (cons (obj (field "interval" (interval (start + i * hour)) fields)) rest)

  unfoldable pub forecast_payload : City num → ℤ → ℕ → Result Value
  unfolding items
  forecast_payload city hours now = do
    listed ← items city (hour_start now) (range_length hours) 0
    ok (obj (field "forecastHours" (arr listed) end))

  -- _city
  abbrev pub anonymous : Float → Float → City num
  anonymous lat lon = record { name = name lat lon; lat = lat; lon = lon }

  -- the ranges of the two coordinates in the routes' queries
  abbrev pub on_earth : Float → Float → Bool
  on_earth lat lon =
      (le (minus (lit 90 0)) lat && le lat (lit 90 0))
      && (le (minus (lit 180 0)) lon && le lon (lit 180 0))

  -- a handler that raises is answered with 500
  abbrev pub responds : (Value → Value) → Result Value → ℕ × Option Value
  responds chaos (ok v) = (200, some (chaos v))
  responds chaos (raise e) = (500, none)

  module _ (fl : Floats) (hits : fl.Float → ℕ → Bool) (cfg : ChaosConfig fl.Float) where
    unfoldable pub current_weather : Float → Float → ℕ → ℕ → ℕ × Option Value
    unfolding current_payload apply_chaos
    current_weather lat lon now again =
        if on_earth lat lon
        then responds (apply_chaos fl hits cfg) (current_payload (anonymous lat lon) now again)
        else (422, none)

    unfoldable pub forecast : Float → Float → ℤ → ℕ → ℕ × Option Value
    unfolding forecast_payload apply_chaos lt_int
    forecast lat lon hours now =
        if on_earth lat lon && (not (lt_int hours 1) && lt_int hours 169)
        then responds (apply_chaos fl hits cfg) (forecast_payload (anonymous lat lon) hours now)
        else (422, none)
