-- ===== src/Serving/Shadow/Logged.antt =====
-- What the task behind a prediction leaves in the marts.
use weather_demand_forecast.Floats.{Floats}
use weather_demand_forecast.Prelude.{
  ◌≡◌, ◌≢◌, refl, sym, ap, ◌∙◌, ◌⊎◌, inl, inr, Bool, true, List, [], ◌∷◌, ◌++◌, Option, none, some,
  Bool-cases, if◌then◌else◌, map, filter, not, String,
}
use weather_demand_forecast.Json.{Result, ok, raise}
use weather_demand_forecast.Features.Online.{online_features}
use weather_demand_forecast.Serving.Models.{Loaded, Info}
use weather_demand_forecast.Serving.Predict.{Row, column}
use weather_demand_forecast.Serving.Shadow.{
  Call, Score, LogRow, FeaturesRow, Marts, Writes, staging_version, score, log_row, features_row,
  insert, persist, shadow_task, is_listed, online_source,
}

-- the columns of the statement for marts.prediction_features, from event_count to is_holiday
abbrev feature_columns : List String
feature_columns =
    "event_count" ∷ "demand_lag_1h" ∷ "demand_lag_24h" ∷ "demand_lag_168h" ∷ "demand_roll_3h"
    ∷ "demand_roll_24h" ∷ "hour_sin" ∷ "hour_cos" ∷ "dow_sin" ∷ "dow_cos" ∷ "temperature_c"
    ∷ "humidity_pct" ∷ "precip_mm" ∷ "is_holiday" ∷ []

abbrev is_served : List String → String → Bool
is_served missing name = not (is_listed name missing)

module _ (fl : Floats) (is_nan : fl.Float → Bool) {M : Type 0}
    (infer : M → List (Row fl.Float) → Result (List fl.Float)) (latency : fl.Float) where
  -- The Staging model's predictions on these rows with its time and the version that is installed at the end; or none
  -- of the three, if there is no such model or it fails.
  abbrev pub IsScoreOf :
      Loaded fl.Float M → Loaded fl.Float M → List (Row fl.Float) → LogRow fl → Type 0
  IsScoreOf before after df row =
      ((row.staging_preds ≡ none)
        × (row.staging_version ≡ none)
        × (row.staging_latency_ms ≡ none)
        × ((before.staging ≡ none)
            ⊎ ((s : M × Info fl.Float) × (before.staging ≡ some s)
                × (e : _) × (infer s.0 df ≡ raise e))))
      ⊎ ((s : M × Info fl.Float) × (before.staging ≡ some s)
          × (ps : List fl.Float) × (infer s.0 df ≡ ok ps)
          × (row.staging_preds ≡ some ps)
          × (row.staging_version ≡ staging_version fl is_nan infer latency after)
          × (row.staging_latency_ms ≡ some (fl.round latency 3)))

  -- a value of the first row of the frame, with NULL for a NaN
  abbrev logged_value : Row fl.Float → String → Option fl.Float
  logged_value feat name = elim (column name feat.columns) [
    | none ↦ none
    | some v ↦ if is_nan v then none else some v
  ]

  -- the row of the log says what the call and the answer of Redis were
  abbrev pub IsLogRow : Call fl → LogRow fl → Type 0
  IsLogRow c row =
      (row.requested_at ≡ c.as_of)
      × (row.city ≡ c.city)
      × (row.horizon_hours ≡ c.horizon_hours)
      × (row.prod_version ≡ c.prod_version)
      × (row.prod_preds ≡ c.prod_preds)
      × (row.prod_latency_ms ≡ fl.round c.prod_latency_ms 3)
      × (row.feature_hash_present ≡ c.online.hash_present)
      × (row.feature_age ≡ c.online.age)
      × (row.feature_missing ≡ c.online.missing)
      × (row.feature_degraded ≡ c.online.degraded)

  -- the row of the features has those of the first row of the frame, and which of them Redis served
  abbrev pub IsFeaturesRow : Call fl → Row fl.Float → FeaturesRow fl → Type 0
  IsFeaturesRow c feat row =
      (row.requested_at ≡ c.as_of)
      × (row.city ≡ c.city)
      × (row.model_version ≡ c.prod_version)
      × (row.features ≡ map (logged_value feat) feature_columns)
      × (row.mart_hour_ts ≡ c.mart_hour_ts)
      × (row.online_age ≡ c.online.age)
      × (row.online_source
          ≡ filter (is_served c.online.missing) (map (λ o. o.feature.name) online_features))
      × (row.online_degraded ≡ c.online.degraded)
      × (row.online_missing ≡ c.online.missing)

  -- One row is added to the log for the call; the row of its features is added or not; nothing else changes.
  abbrev pub IsLogged :
      Loaded fl.Float M
      → Loaded fl.Float M
      → Call fl
      → Row fl.Float
      → Bool
      → Marts fl
      → Marts fl
      → Type 0
  IsLogged before after c feat takes_features m m2 =
      (row : LogRow fl) × (features : FeaturesRow fl) × (m2.prediction_log
        ≡ m.prediction_log ++ row ∷ [])
      × IsLogRow c row
      × IsScoreOf before after c.df row
      × (m2.prediction_features ≡ (
          if takes_features then m.prediction_features ++ features ∷ [] else m.prediction_features))
      × IsFeaturesRow c feat features

  insert-eq :
      (w : Writes) (row : LogRow fl) (features : FeaturesRow fl) (m : Marts fl)
      → w.acquires ≡ true
      → w.takes_log ≡ true
      → ((insert fl is_nan w row features m).prediction_log ≡ m.prediction_log ++ row ∷ [])
        × ((insert fl is_nan w row features m).prediction_features ≡ (
            if w.takes_features
            then m.prediction_features ++ features ∷ []
            else m.prediction_features))
  unfolding insert
  insert-eq w row features m a l = elim (Bool-cases w.takes_features) [
    | inl e ↦ rw (a, l, e) (refl, refl)
    | inr e ↦ rw (a, l, e) (refl, refl)
  ]

  persisted :
      (w : Writes) (c : Call fl) (feat : Row fl.Float) (df : List (Row fl.Float))
      (s : Score fl.Float) (m : Marts fl)
      → w.pool ≡ true
      → persist fl is_nan w c (feat ∷ df) s m
        ≡ insert fl is_nan w (log_row fl is_nan c s) (features_row fl is_nan c feat) m
  unfolding persist
  persisted w c feat df s m p =
      ap
        (λ b.
          if b
          then insert fl is_nan w (log_row fl is_nan c s) (features_row fl is_nan c feat) m
          else m)
        p

  module _ (before after : Loaded fl.Float M) (w : Writes) (c : Call fl) (feat : Row fl.Float)
      (df : List (Row fl.Float)) (m : Marts fl) (rows : c.df ≡ feat ∷ df) (pool : w.pool ≡ true)
      (connected : w.acquires ≡ true) (taken : w.takes_log ≡ true) where
    shadow_task-insert :
        shadow_task fl is_nan infer latency before after w c m
        ≡ insert fl is_nan w
            (log_row fl is_nan c (score fl is_nan infer latency before after c.df))
            (features_row fl is_nan c feat)
            m
    unfolding shadow_task
    shadow_task-insert =
        ap (λ d. persist fl is_nan w c d (score fl is_nan infer latency before after c.df) m) rows
        ∙ persisted w c feat df (score fl is_nan infer latency before after c.df) m pool

    -- Let another Staging model be installed while the first one scores: then the log has a row more, in which the
    -- predictions of the first model stand under the version of the second.
    shadow_task-mislabelled :
        (model model2 : M) (info info2 : Info fl.Float) (preds : List fl.Float)
        → before.staging ≡ some (model, info)
        → after.staging ≡ some (model2, info2)
        → infer model c.df ≡ ok preds
        → info.version ≢ info2.version
        → (row : LogRow fl) × ((shadow_task fl is_nan infer latency before after w c
              m).prediction_log
            ≡ m.prediction_log ++ row ∷ [])
          × (row.staging_preds ≡ some preds)
          × (row.staging_version ≡ some info2.version)
          × (row.staging_version ≢ some info.version)
    unfolding score
    shadow_task-mislabelled model model2 info info2 preds first second answer differ =
        let s = score fl is_nan infer latency before after c.df in
        let scored : s ≡ record {
          preds = some preds;
          version = some info2.version;
          latency_ms = some latency;
        } =
          rw (first, score, answer, second) refl in
        let (logged, added) =
          insert-eq w (log_row fl is_nan c s) (features_row fl is_nan c feat) m connected taken in
        (
          log_row fl is_nan c s,
          ap (λ (n : Marts fl). n.prediction_log) shadow_task-insert ∙ logged,
          ap (λ (t : Score fl.Float). t.preds) scored,
          ap (λ (t : Score fl.Float). t.version) scored,
          λ same. differ (cc (sym same ∙ ap (λ (t : Score fl.Float). t.version) scored)),
        )
