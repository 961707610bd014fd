-- ===== src/Features/Online/Entries.antt =====
-- What a fetch answers for each live feature.
use weather_demand_forecast.Floats.{Floats}
use weather_demand_forecast.Prelude.{
  ℕ, ◌≡◌, String, Bool, true, false, not, ◌&&◌, [], Option, none, some, String_eq,
}
use weather_demand_forecast.Prelude.Dict.{Dict, get}
use weather_demand_forecast.Stream.RedisOps.{Hash}
use weather_demand_forecast.Features.Sync.Fields.{is_one_of}
use weather_demand_forecast.Features.Registry.{weather_temp_c, weather_precip_mm}
use weather_demand_forecast.Features.Online.{
  OnlineFeature, OnlineResult, State, default_of, is_breach, use_reading,
}

module _ (fl : Floats) (float_of : String → Option fl.Float) (parse_time : String → Option ℕ) where
  -- the value served for a reading
  unfoldable pub served : OnlineFeature → Option fl.Float → Option fl.Float
  unfolding default_of
  served o none = default_of fl o.feature
  served o (some v) = some v

  abbrev pub is_read : Option fl.Float → Bool
  is_read none = false
  is_read (some v) = true

  -- the answer on one feature, from its reading and the age of the hash
  unfoldable pub Answers :
      Option fl.Float → Option (ℕ × ℕ) → OnlineResult fl → OnlineFeature → Type 0
  unfolding served is_one_of get is_breach
  Answers value age result o =
      (get o.model_col result.values ≡ some (served o value))
      × (is_one_of o.feature.name result.missing ≡ not (is_read value))
      × (is_one_of o.model_col result.degraded ≡ (is_read value && is_breach fl age o.feature))

  start : Option (ℕ × ℕ) → Bool → Dict String ℕ → State fl
  start age present counts = record {
    miss_counts = counts;
    result = record { values = []; missing = []; degraded = []; age = age; hash_present = present };
  }

  abbrev temperature : OnlineFeature
  temperature = record { feature = weather_temp_c; model_col = "temperature_c" }

  abbrev precip : OnlineFeature
  precip = record { feature = weather_precip_mm; model_col = "precip_mm" }

  use_two : Option fl.Float → Option fl.Float → State fl → State fl
  use_two t p s = use_reading fl precip p (use_reading fl temperature t s)

  -- what HGETALL gave: an exception counts as the empty hash
  abbrev pub or_empty_hash : Option Hash → Hash
  or_empty_hash none = []
  or_empty_hash (some raw) = raw
