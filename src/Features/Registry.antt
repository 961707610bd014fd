-- ===== src/Features/Registry.antt =====
-- libs/common/common/features/registry.py: the registry class and the route features. The texts of
-- the descriptions are left out.
pub mod Names
use weather_demand_forecast.Prelude.{
  ℕ, String, ◌+◌, ◌*◌, ◌++◌, Bool, true, false, List, [], ◌∷◌, Option, none, some, map, length,
  filter, ◌==◌, ℕ_eq, String_eq, if◌then◌else◌,
}
use weather_demand_forecast.Prelude.Dict.{Dict, get, put}
use weather_demand_forecast.Json.{Exc, key_error, value_error, Result, ok, raise}

pub data Source : Type 0 where
  batch stream : Source

abbrev pub is_source : Source → Source → Bool
is_source batch batch = true
is_source stream stream = true
is_source _ _ = false

-- a default is None or a whole number as a float
pub record Feature : Type 0 where
  pub name : String
  pub dtype : String
  pub source : Source
  pub freshness_sla_seconds : ℕ
  pub default_on_missing : Option ℕ

-- {f.name: f for f in features}: a later entry of a name takes the place of an earlier one
unfoldable pub index_by_name : List Feature → Dict String Feature → Dict String Feature
unfolding put
index_by_name [] d = d
index_by_name (f ∷ fs) d = index_by_name fs (put f.name f d)

pub record Registry : Type 0 where
  pub features : List Feature
  pub by_name : Dict String Feature

-- Registry(features): ValueError when a name occurs twice
unfoldable pub registry : List Feature → Result Registry
unfolding index_by_name
registry fs =
    let by_name = index_by_name fs [] in
    if length by_name == length fs
    then ok (record { features = fs; by_name = by_name })
    else raise value_error

key_error_unless : Option Feature → Result Feature
key_error_unless none = raise key_error
key_error_unless (some f) = ok f

-- registry[name]
unfoldable pub get_item : Registry → String → Result Feature
unfolding key_error_unless get
get_item r name = key_error_unless (get name r.by_name)

unfoldable pub names : List Feature → List String
names = map (λ f. f.name)

unfoldable pub by_source : Source → List Feature → List Feature
unfolding filter
by_source source = filter (λ f. is_source f.source source)

abbrev nightly_sla_s : ℕ
nightly_sla_s = 86_400

abbrev batch_feature : String → Option ℕ → Feature
batch_feature name default_on_missing = record {
  name = name;
  dtype = "float64";
  source = batch;
  freshness_sla_seconds = nightly_sla_s;
  default_on_missing = default_on_missing;
}

abbrev stream_feature : String → String → ℕ → Option ℕ → Feature
stream_feature name dtype sla default_on_missing = record {
  name = name;
  dtype = dtype;
  source = stream;
  freshness_sla_seconds = sla;
  default_on_missing = default_on_missing;
}

abbrev pub weather_temp_c : Feature
weather_temp_c = stream_feature "weather_temp_c" "float64" 3600 none

abbrev pub weather_precip_mm : Feature
weather_precip_mm = stream_feature "weather_precip_mm" "float64" 3600 (some 0)

-- ROUTE_FEATURES
abbrev pub route_features : List Feature
route_features =
    batch_feature "avg_bookings_90d" none
    ∷ batch_feature "seasonality_mon" none
    ∷ batch_feature "seasonality_tue" none
    ∷ batch_feature "seasonality_wed" none
    ∷ batch_feature "seasonality_thu" none
    ∷ batch_feature "seasonality_fri" none
    ∷ batch_feature "seasonality_sat" none
    ∷ batch_feature "seasonality_sun" none
    ∷ batch_feature "lead_time_p50" none
    ∷ batch_feature "lead_time_p90" none
    ∷ batch_feature "cancellation_rate_180d" (some 0)
    ∷ batch_feature "elasticity_estimate" none
    ∷ stream_feature "searches_5m" "float64" 300 (some 0)
    ∷ stream_feature "bookings_15m" "float64" 900 (some 0)
    ∷ stream_feature "look_to_book_1h" "float64" 3600 (some 0)
    ∷ weather_temp_c
    ∷ weather_precip_mm
    ∷ stream_feature "weather_condition" "str" 3600 none
    ∷ []
