-- ===== src/Serving/Shadow.antt =====
-- _shadow_task of services/api/app/main.py, which runs behind the answer of a prediction: the Staging model scores the
-- same rows, and both predictions are written to the log. The models that are served when the task starts and those
-- that are served once the Staging model has answered may differ. Metrics are left out.
pub mod Logged
mod Tests
use weather_demand_forecast.Floats.{Floats}
use weather_demand_forecast.Prelude.{
  ℕ, String, Bool, true, false, ◌||◌, not, List, [], ◌∷◌, ◌++◌, map, Option, none, some, filter,
  ◌==◌, String_eq, if◌then◌else◌,
}
use weather_demand_forecast.Prelude.Dict.{get}
use weather_demand_forecast.Json.{Result, ok, raise}
use weather_demand_forecast.Features.Online.{OnlineResult, OnlineFeature, online_features}
use weather_demand_forecast.Serving.Models.{Loaded}
use weather_demand_forecast.Serving.Predict.{Row, Columns, column}

-- What the task is called with.
pub record Call (fl : Floats) : Type 0 where
  pub df : List (Row fl.Float)
  pub prod_preds : List fl.Float
  pub city : String
  pub prod_version : ℕ
  pub horizon_hours : ℕ
  pub as_of : ℕ
  pub prod_latency_ms : fl.Float
  pub online : OnlineResult fl
  pub mart_hour_ts : Option ℕ

-- the Staging model's part of a row; the version is none where `_parse_ver` cannot read it
pub record Score (F : Type 0) : Type 0 where
  pub preds : Option (List F)
  pub version : Option ℕ
  pub latency_ms : Option F

-- a row of marts.prediction_log
pub record LogRow (fl : Floats) : Type 0 where
  pub requested_at : ℕ
  pub city : String
  pub horizon_hours : ℕ
  pub prod_version : ℕ
  pub prod_preds : List fl.Float
  pub prod_latency_ms : fl.Float
  pub staging_version : Option ℕ
  pub staging_preds : Option (List fl.Float)
  pub staging_latency_ms : Option fl.Float
  pub feature_hash_present : Bool
  pub feature_age : Option (ℕ × ℕ)
  pub feature_missing : List String
  pub feature_degraded : List String

-- a row of marts.prediction_features; its features in the order of the statement
pub record FeaturesRow (fl : Floats) : Type 0 where
  pub requested_at : ℕ
  pub city : String
  pub model_version : ℕ
  pub features : List (Option fl.Float)
  pub mart_hour_ts : Option ℕ
  pub online_age : Option (ℕ × ℕ)
  pub online_source : List String
  pub online_degraded : List String
  pub online_missing : List String

pub record Marts (fl : Floats) : Type 0 where
  pub prediction_log : List (LogRow fl)
  pub prediction_features : List (FeaturesRow fl)

-- whether there is a pool, a connection of it, and whether Postgres takes the two statements
pub record Writes : Type 0 where
  pub pool : Bool
  pub acquires : Bool
  pub takes_log : Bool
  pub takes_features : Bool

abbrev logged_features : List String
logged_features =
    "event_count" ∷ "demand_lag_1h" ∷ "demand_lag_24h" ∷ "demand_lag_168h" ∷ "demand_roll_3h"
    ∷ "demand_roll_24h" ∷ "hour_sin" ∷ "hour_cos" ∷ "dow_sin" ∷ "dow_cos" ∷ "temperature_c"
    ∷ "humidity_pct" ∷ "precip_mm" ∷ "is_holiday" ∷ []

unfoldable pub is_listed : String → List String → Bool
is_listed k [] = false
is_listed k (j ∷ js) = (j == k) || is_listed k js

-- the online fields that Redis served
unfoldable pub online_source : List String → List OnlineFeature → List String
unfolding is_listed
online_source missing [] = []
online_source missing (o ∷ os) =
    let rest = online_source missing os in
    if is_listed o.feature.name missing then rest else o.feature.name ∷ rest

module _ (fl : Floats) (is_nan : fl.Float → Bool) where
  -- _pf
  unfoldable pub float_or_none : Option fl.Float → Option fl.Float
  float_or_none none = none
  float_or_none (some v) = if is_nan v then none else some v

  abbrev pub no_score : Score fl.Float
  no_score = record { preds = none; version = none; latency_ms = none }

  module _ {M : Type 0} (infer : M → List (Row fl.Float) → Result (List fl.Float))
      (latency : fl.Float) where
    -- str(_state.staging_info.get("version", "unknown")), as _parse_ver reads it
    abbrev pub staging_version : Loaded fl.Float M → Option ℕ
    staging_version l = elim l.staging [ none ↦ none | some s ↦ some s.1.version ]

    -- The score by the model that was served at the start, under the version that is served at the end. What the
    -- comparison with the production's predictions raises comes after the three assignments.
    unfoldable pub score :
        Loaded fl.Float M → Loaded fl.Float M → List (Row fl.Float) → Score fl.Float
    score before after df = elim before.staging [
      | none ↦ no_score
      | some s ↦ elim (infer s.0 df) [
        | raise e ↦ no_score
        | ok preds ↦ record {
          preds = some preds;
          version = staging_version after;
          latency_ms = some latency;
        }
      ]
    ]

  abbrev pub log_row : Call fl → Score fl.Float → LogRow fl
  log_row c s = record {
    requested_at = c.as_of;
    city = c.city;
    horizon_hours = c.horizon_hours;
    prod_version = c.prod_version;
    prod_preds = c.prod_preds;
    prod_latency_ms = fl.round c.prod_latency_ms 3;
    staging_version = s.version;
    staging_preds = s.preds;
    staging_latency_ms = elim s.latency_ms [ none ↦ none | some ms ↦ some (fl.round ms 3) ];
    feature_hash_present = c.online.hash_present;
    feature_age = c.online.age;
    feature_missing = c.online.missing;
    feature_degraded = c.online.degraded;
  }

  -- `feat`: the first row of the frame
  pub features_row : Call fl → Row fl.Float → FeaturesRow fl
  unfolding float_or_none online_source column
  features_row c feat = record {
    requested_at = c.as_of;
    city = c.city;
    model_version = c.prod_version;
    features = map (λ name. float_or_none (column name feat.columns)) logged_features;
    mart_hour_ts = c.mart_hour_ts;
    online_age = c.online.age;
    online_source = online_source c.online.missing online_features;
    online_degraded = c.online.degraded;
    online_missing = c.online.missing;
  }

  -- the two statements, each of which is committed by itself
  unfoldable pub insert : Writes → LogRow fl → FeaturesRow fl → Marts fl → Marts fl
  insert w row features m =
      let logged = record m { prediction_log = m.prediction_log ++ row ∷ [] } in
      let both = record logged { prediction_features = m.prediction_features ++ features ∷ [] } in
      if w.acquires
      then (if w.takes_log then (if w.takes_features then both else logged) else m)
      else m

  -- the second `try`; df.iloc[0] of an empty frame is an IndexError
  unfoldable pub persist :
      Writes → Call fl → List (Row fl.Float) → Score fl.Float → Marts fl → Marts fl
  unfolding insert features_row
  persist w c [] s m = m
  persist w c (feat ∷ df) s m = if w.pool then insert w (log_row c s) (features_row c feat) m else m

  unfoldable pub shadow_task :
      {M : Type 0}
      → (M → List (Row fl.Float) → Result (List fl.Float))
      → fl.Float
      → Loaded fl.Float M
      → Loaded fl.Float M
      → Writes
      → Call fl
      → Marts fl
      → Marts fl
  unfolding score persist
  shadow_task infer latency before after w c m =
      persist w c c.df (score infer latency before after c.df) m
