-- ===== src/MockWeather/Adapter/Tests.antt =====
-- A request for the current weather, and a forecast of three hours.
use weather_demand_forecast.Floats.Whole.{whole}
use weather_demand_forecast.Prelude.{
  ℕ, zero, suc, ◌+◌, ◌*◌, ◌/◌, ◌%◌, ◌<◌, ◌≤◌, ◌≡◌, refl, String, false, none, some,
}
use weather_demand_forecast.Json.{pos, int, str, arr, obj, end, field, Value, Items, Fields, ok}
use weather_demand_forecast.Numbers.Naturals.{naturals}
use weather_demand_forecast.Weather.{Random}
use weather_demand_forecast.MockWeather.{ChaosConfig}
use weather_demand_forecast.Events.Poller.{flatten}
use weather_demand_forecast.MockWeather.Adapter.{
  Api, hour, hour_start, reading_at, current_payload, interval, forecast_payload, anonymous,
  current_weather,
}
use weather_demand_forecast.MockWeather.Adapter.Agreement.{
  nth, flat, flatten-current_weather, forecast_payload-current,
}

abbrev rng : Random naturals
rng = record {
  gauss = λ n mu sigma. mu + sigma;
  uniform = λ n lo hi. hi;
  expovariate = λ n rate. rate;
}

-- of January 1970
abbrev api : Api
api = record {
  num = naturals;
  random = λ seed. rng;
  reading_time = λ t. record {
    year = 1970;
    month = 1;
    day = 1 + t / hour / 24;
    hour = t / hour % 24;
    yday = 1 + t / hour / 24;
  };
  isoformat = λ t. if_zero t;
  number = λ x. int (pos x);
  lower = λ s. s;
  name = λ lat lon. "somewhere";
}
  where
    if_zero : ℕ → String
    if_zero zero = "the epoch"
    if_zero (suc t) = "later"

abbrev calm : ChaosConfig ℕ
calm = record { latency_ms = 0; error_rate = 0; null_field_rate = 0; schema_drift = false }

-- a quarter past ten, and two hours later
abbrev now : ℕ
now = 10 * hour + 900000000

abbrev later : ℕ
later = 12 * hour + 1800000000

flatten-current_weather_example :
    (body : Value) × (current_weather api whole (λ rate n. false) calm 0 0 now (now + 5)
      ≡ (200, some body))
    × (flatten "london" "noon" body
        ≡ ok (flat api "london" "noon" (reading_at api (anonymous api 0 0) (hour_start now))))
flatten-current_weather_example =
    flatten-current_weather api whole (λ rate n. false) calm "london" "noon" 0 0 now (now + 5) refl
      refl refl

forecast_payload-current_example :
    (listed : Items) × (forecast_payload api (anonymous api 51 0) (pos 3) now
      ≡ ok (obj (field "forecastHours" (arr listed) end)))
    × (2 < 3
        → (fields : Fields) × (nth listed 2
            ≡ some (obj (field "interval" (interval api (hour_start later)) fields)))
          × (current_payload api (anonymous api 51 0) later (later + 5)
              ≡ ok (
                  obj (
                    field "currentConditions"
                      (obj (field "time" (str (api.isoformat (later + 5))) fields))
                      end))))
    × (3 ≤ 2 → nth listed 2 ≡ none)
forecast_payload-current_example = forecast_payload-current api 51 0 3 2 now later (later + 5) refl
