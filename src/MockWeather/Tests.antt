-- ===== src/MockWeather/Tests.antt =====
-- The injected faults on a small payload.
use weather_demand_forecast.Floats.Whole.{whole}
use weather_demand_forecast.Prelude.{ℕ, refl, Bool, true, false, ◌==◌, ℕ_eq}
use weather_demand_forecast.Json.{Value, pos, int, str, arr, obj, end, field, nil, cons}
use weather_demand_forecast.MockWeather.{ChaosConfig, apply_chaos}
use weather_demand_forecast.MockWeather.Shape.{Nulled, apply_chaos-Nulled}

abbrev payload : Value
payload = obj (
    field "city" (str "oslo") (
      field "hourly"
        (arr (
          cons (obj (field "temperature" (int (pos 4)) (field "precip_mm" (int (pos 0)) end))) nil))
        end))

-- the third draw is below the rate
abbrev hits : ℕ → ℕ → Bool
hits rate n = n == 2

abbrev renaming : ChaosConfig ℕ
renaming = record { latency_ms = 0; error_rate = 0; null_field_rate = 1; schema_drift = true }

abbrev nulling : ChaosConfig ℕ
nulling = record renaming { schema_drift = false }

apply_chaos-Nulled_example : Nulled payload (apply_chaos whole hits nulling payload)
apply_chaos-Nulled_example = apply_chaos-Nulled whole hits nulling payload refl
