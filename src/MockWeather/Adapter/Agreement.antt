-- ===== src/MockWeather/Adapter/Agreement.antt =====
-- The answers of the weather service agree with the generator's readings, and with each other.
use weather_demand_forecast.Floats.{Floats}
use weather_demand_forecast.Prelude.{
  ℕ, zero, suc, ◌+◌, ◌*◌, ◌/◌, ◌<◌, ◌≤◌, ◌≡◌, refl, String, Bool, true, false, List, [], ◌∷◌,
  Option, none, some, arith,
}
use weather_demand_forecast.Json.{
  ℤ, pos, negsuc, Value, Items, Fields, int, str, arr, obj, end, field, nil, cons, ok, subscript,
  lookup,
}
use weather_demand_forecast.Weather.{WeatherReading}
use weather_demand_forecast.MockWeather.{ChaosConfig, apply_chaos}
use weather_demand_forecast.Events.Poller.{flatten, path}
use weather_demand_forecast.MockWeather.Adapter.{
  Api, hour, hour_start, cardinals, item, mod_16, cardinal, point, to_point, reading_at,
  current_payload, interval, items, forecast_payload, anonymous, on_earth, current_weather,
}

-- how many names there are
abbrev count : List String → ℕ
count [] = 0
count (k ∷ ks) = suc (count ks)

item_total : (ks : List String) (n : ℕ) → n < count ks → (s : String) × (item ks n ≡ ok s)
unfolding item
item_total [] n h = absurd (omega (arith, h))
item_total (k ∷ ks) zero h = (k, refl)
item_total (k ∷ ks) (suc n) h = item_total ks n (omega arith)

mod_16-lt : (z : ℤ) → mod_16 z < 16
unfolding mod_16
mod_16-lt (pos n) = omega arith
mod_16-lt (negsuc n) = omega arith

-- the n-th item of an array
unfoldable pub nth : Items → ℕ → Option Value
nth nil n = none
nth (cons v vs) zero = some v
nth (cons v vs) (suc n) = nth vs n

module _ (api : Api) where
  open api use {num, reading_time, isoformat, number}

  cardinal_total : (deg : num.Float) → (s : String) × (cardinal api deg ≡ ok s)
  unfolding cardinal
  cardinal_total deg =
      let z = num.round (num.div deg (num.lit 225 1)) in
      item_total cardinals (mod_16 z) (mod_16-lt z)

  to_point_total :
      (r : WeatherReading num) (t : ℕ)
      → (s : String) × (to_point api r (reading_time t) ≡ ok (point api r (reading_time t) s))
  unfolding to_point
  to_point_total r t = let (s, e) = cardinal_total r.wind_direction_deg in (s, rw e refl)

  -- the conditions at an hour
  abbrev pub PointOf : num.Float → num.Float → ℕ → Fields → Type 0
  PointOf lat lon t fields =
      to_point api (reading_at api (anonymous api lat lon) t) (reading_time t) ≡ ok fields

  -- the payload of the poller for a reading
  abbrev pub flat : String → String → WeatherReading num → Value
  flat city_key polled_at r = obj (
      field "city" (str city_key) (
        field "polled_at" (str polled_at) (
          field "temperature_c" (number r.temperature_c) (
            field "feels_like_c" (number r.feels_like_c) (
              field "dew_point_c" (number r.dew_point_c) (
                field "humidity_pct" (int r.humidity_pct) (
                  field "wind_kph" (number r.wind_kph) (
                    field "wind_direction_deg" (number r.wind_direction_deg) (
                      field "cloud_cover_pct" (int r.cloud_cover_pct) (
                        field "precip_probability_pct" (int r.precip_probability_pct) (
                          field "precip_mm" (number r.precip_mm)
                            (field "condition" (str r.condition) end))))))))))))

  flatten-point :
      (city_key polled_at time s : String) (r : WeatherReading num) (t : ℕ)
      → flatten city_key polled_at (
          obj (
            field "currentConditions"
              (obj (field "time" (str time) (point api r (reading_time t) s)))
              end))
        ≡ ok (flat city_key polled_at r)
  unfolding flatten path subscript lookup
  flatten-point city_key polled_at time s r t = refl

  module _ (fl : Floats) (hits : fl.Float → ℕ → Bool) (cfg : ChaosConfig fl.Float) where
    -- Let the coordinates be in their ranges, and no nulls and no renaming be configured. Then the service answers
    -- 200, and what the weather poller makes of the body is the generator's reading for the coordinates and the
    -- start of the hour: all ten values, under their flat names.
    pub flatten-current_weather :
        (city_key polled_at : String) (lat lon : num.Float) (now again : ℕ)
        → on_earth api lat lon ≡ true
        → fl.lt (fl.of_ℕ 0) cfg.null_field_rate ≡ false
        → cfg.schema_drift ≡ false
        → (body : Value) × (current_weather api fl hits cfg lat lon now again ≡ (200, some body))
          × (flatten city_key polled_at body
              ≡ ok (
                  flat city_key polled_at
                    (reading_at api (anonymous api lat lon) (hour_start now))))
    unfolding current_weather current_payload apply_chaos
    flatten-current_weather city_key polled_at lat lon now again e n d =
        let r = reading_at api (anonymous api lat lon) (hour_start now) in
        let (s, p) = to_point_total r (hour_start now) in
        (
          _,
          rw (e, p, n, d) refl,
          flatten-point city_key polled_at (isoformat again) s r (hour_start now),
        )

  -- The i-th of the items of n hours is of the time t.
  abbrev IsItem : num.Float → num.Float → ℕ → ℕ → ℕ → Items → Type 0
  IsItem lat lon t n i listed =
      (i < n
        → (fields : Fields) × PointOf lat lon t fields
          × (nth listed i ≡ some (obj (field "interval" (interval api t) fields))))
      × (n ≤ i → nth listed i ≡ none)

  module _ (lat lon : num.Float) (start : ℕ) where
    abbrev point_at : ℕ → String → Fields
    point_at t s = point api (reading_at api (anonymous api lat lon) t) (reading_time t) s

    abbrev forecast_item : ℕ → String → Value
    forecast_item t s = obj (field "interval" (interval api t) (point_at t s))

    -- counted from the first one that is made
    items-IsItem :
        (n first i t : ℕ)
        → t ≡ start + (first + i) * hour
        → (listed : Items) × (items api (anonymous api lat lon) start n first ≡ ok listed)
          × IsItem lat lon t n i listed
    unfolding items nth
    items-IsItem zero first i t same = (nil, refl, (λ h. absurd (omega (arith, h)), λ h. refl))
    items-IsItem (suc n) first zero t same =
        let t2 = start + first * hour in
        let here : t ≡ t2 = omega arith in
        let (s, p) = to_point_total (reading_at api (anonymous api lat lon) t2) t2 in
        let (rest, e, _) =
          items-IsItem n (suc first) zero (start + (suc first + zero) * hour) refl in
        (
          cons (forecast_item t2 s) rest,
          rw (p, e) refl,
          (λ h. (point_at t2 s, rw here p, rw here refl), λ h. absurd (omega (arith, h))),
        )
    items-IsItem (suc n) first (suc i) t same =
        let t2 = start + first * hour in
        let (s, p) = to_point_total (reading_at api (anonymous api lat lon) t2) t2 in
        let (rest, e, (inside, outside)) = items-IsItem n (suc first) i t (omega arith) in
        (
          cons (forecast_item t2 s) rest,
          rw (p, e) refl,
          (λ h. inside (omega arith), λ h. outside (omega arith)),
        )

  -- What is forecast for an hour is what will be the weather in that hour. Let a forecast of n hours be made, and
  -- let a later time be i hours after it, counted by the starts of the hours. Then the forecast has n items; if i
  -- is below n, its i-th item is of the hour with that time, and has the conditions that are answered as the
  -- current ones at that time; and otherwise there is no such item.
  pub forecast_payload-current :
      (lat lon : num.Float) (n i now later again : ℕ)
      → later / hour ≡ now / hour + i
      → (listed : Items) × (forecast_payload api (anonymous api lat lon) (pos n) now
          ≡ ok (obj (field "forecastHours" (arr listed) end)))
        × (i < n
            → (fields : Fields) × (nth listed i
                ≡ some (obj (field "interval" (interval api (hour_start later)) fields)))
              × (current_payload api (anonymous api lat lon) later again
                  ≡ ok (
                      obj (
                        field "currentConditions"
                          (obj (field "time" (str (isoformat again)) fields))
                          end))))
        × (n ≤ i → nth listed i ≡ none)
  unfolding forecast_payload current_payload
  forecast_payload-current lat lon n i now later again same =
      let (listed, e, (inside, outside)) =
        items-IsItem lat lon (hour_start now) n 0 i (hour_start later) (omega arith) in
      (
        listed,
        rw e refl,
        λ h. (let (fields, p, found) = inside h in (fields, found, rw p refl)),
        outside,
      )
