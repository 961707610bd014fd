-- ===== src/Retrain.antt =====
-- services/worker/app/auto_retrain.py: retraining by the drift check and by the weekly job. The query,
-- the training and the registry's answers are arguments; their logging is left out.
pub mod Split
pub mod Promotion
pub mod Lock
pub mod Cooldown
mod Tests
use weather_demand_forecast.Floats.{Floats}
use weather_demand_forecast.Prelude.{
  ℕ, ◌+◌, ◌*◌, String, Bool, true, false, not, ◌&&◌, ◌||◌, List, [], ◌∷◌, ◌++◌, Option, none, some,
  length, filter, ltb, leb, String_eq, if◌then◌else◌,
}
use weather_demand_forecast.Prelude.Dict.{Dict, put}
use weather_demand_forecast.Json.{Value, Result, ok, raise}
use weather_demand_forecast.Ingestor.Consumers.{is_empty}
use weather_demand_forecast.Stream.RedisOps.{second, w_1h}
use weather_demand_forecast.Models.Promote.{
  staging, unassigned, Versions, on_version, set_tag, transition, Texts, Answers,
}

-- A row of marts.city_hour_features; the other columns are not looked at here.
pub record FeatureRow : Type 0 where
  pub hour_ts : ℕ
  pub columns : Dict String Value

pub record Score (F : Type 0) : Type 0 where
  pub feature : String
  pub score : F
  pub detected : Bool

pub data Trigger : Type 0 where
  drift weekly : Trigger

abbrev pub day : ℕ
day = 24 * w_1h

-- df["hour_ts"].max()
unfoldable pub latest : ℕ → List FeatureRow → ℕ
latest best [] = best
latest best (r ∷ rs) = latest (if ltb best r.hour_ts then r.hour_ts else best) rs

-- hour_ts < max - val_days
unfoldable pub is_training : ℕ → ℕ → FeatureRow → Bool
is_training last val_days r = ltb (r.hour_ts + val_days * day) last

unfoldable pub time_split : ℕ → List FeatureRow → List FeatureRow × List FeatureRow
unfolding latest is_training filter
time_split val_days rows =
    let last = latest 0 rows in
    (filter (is_training last val_days) rows, filter (λ r. not (is_training last val_days r)) rows)

module _ (fl : Floats) where
  -- What a run meets: the query's rows, the training with its registered version and error, the
  -- registry.
  pub record Environment : Type 0 where
    pub loaded : Result (List FeatureRow)
    pub train : List FeatureRow → List FeatureRow → Trigger → Result (String × fl.Float)
    pub answers : Answers fl

module _ (fl : Floats) (tx : Texts fl) where
  -- gate on the holdout error, with the tags in the order in which they are set here
  unfoldable pub promote_or_reject :
      String → fl.Float → Option (List String) → Option fl.Float → Versions → Versions
  unfolding on_version
  promote_or_reject v mae none e d = on_version v (transition staging) d
  promote_or_reject v mae (some []) e d = on_version v (transition staging) d
  promote_or_reject v mae (some (p ∷ ps)) none d = on_version v (transition staging) d
  promote_or_reject v mae (some (p ∷ ps)) (some prod_val_mae) d =
      let noted =
        on_version v (set_tag "compared_against_prod_version" p)
          (on_version v (set_tag "prod_val_mae" (tx.fixed prod_val_mae 6)) d) in
      if fl.lt mae prod_val_mae
      then on_version v (transition staging) noted
      else on_version v (set_tag "rejection_reason" (tx.holdout_reason mae prod_val_mae p)) noted

  unfoldable pub maybe_promote : String → fl.Float → Answers fl → Versions → Versions
  unfolding promote_or_reject put
  maybe_promote new_version new_val_mae a d =
      promote_or_reject new_version new_val_mae a.production_versions a.prod_val_mae
        (put new_version (record { stage = unassigned; tags = [] }) d)

  -- the `try` of run_auto_retrain
  unfoldable pub retrain : ℕ → Environment fl → Trigger → Versions → Result (Unit {0}) × Versions
  unfolding time_split maybe_promote
  retrain val_days env trigger d = elim env.loaded [
    | raise e ↦ (raise e, d)
    | ok rows ↦
        let (train_df, val_df) = time_split val_days rows in
        if ltb (length rows) 100 || (is_empty train_df || is_empty val_df)
        then (ok tt, d)
        else (elim (env.train train_df val_df trigger) [
          | raise e ↦ (raise e, d)
          | ok (v, mae) ↦ (ok tt, maybe_promote v mae env.answers d)
        ])
  ]

-- The module's variables _retrain_lock and _last_retrain_triggered_at, and the model registry.
pub record Shared : Type 0 where
  pub locked : Bool
  pub last_triggered : Option ℕ
  pub versions : Versions

module _ (fl : Floats) (tx : Texts fl) where
  -- run_auto_retrain called at `now` while no other thread runs; an exception of the `try` is logged
  unfoldable pub run_auto_retrain : ℕ → ℕ → Environment fl → Trigger → Shared → Shared
  unfolding retrain
  run_auto_retrain val_days now env trigger s = if s.locked then s else record {
    locked = false;
    last_triggered = some now;
    versions = (retrain fl tx val_days env trigger s.versions).1;
  }

pub record Settings (F : Type 0) : Type 0 where
  pub auto_retrain_on_drift : Bool
  pub retrain_drift_threshold : F
  pub retrain_cooldown_minutes : ℕ

module _ (fl : Floats) where
  -- [s["feature"] for s in scores if s["score"] > threshold or s["detected"]]
  unfoldable pub exceeding : fl.Float → List (Score fl.Float) → List String
  exceeding threshold [] = []
  exceeding threshold (s ∷ ss) =
      let rest = exceeding threshold ss in
      if fl.lt threshold s.score || s.detected then s.feature ∷ rest else rest

  -- elapsed_s < cooldown_s
  unfoldable pub is_cooling : Settings fl.Float → ℕ → Option ℕ → Bool
  is_cooling settings now none = false
  is_cooling settings now (some last) =
      ltb now (last + settings.retrain_cooldown_minutes * 60 * second)

  -- maybe_trigger_retrain: whether it starts the thread that runs run_auto_retrain("drift")
  unfoldable pub maybe_trigger_retrain :
      Settings fl.Float → ℕ → List (Score fl.Float) → Option ℕ → Bool
  unfolding exceeding is_cooling
  maybe_trigger_retrain settings now scores last =
      if not settings.auto_retrain_on_drift
      then false
      else if is_empty (exceeding settings.retrain_drift_threshold scores)
      then false
      else if is_cooling settings now last
      then false
      else true
