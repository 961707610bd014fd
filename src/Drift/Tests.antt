-- ===== src/Drift/Tests.antt =====
-- A drift check on concrete answers.
use weather_demand_forecast.Prelude.{ℕ, true, false, [], ◌∷◌, none, some, String_eq, ℕ_eq}
use weather_demand_forecast.Json.{ok}
use weather_demand_forecast.Retrain.{Settings}
use weather_demand_forecast.Drift.{Answers, State}

abbrev settings : Settings ℕ
settings = record {
  auto_retrain_on_drift = true;
  retrain_drift_threshold = 3;
  retrain_cooldown_minutes = 60;
}

-- one drifted feature, and one entry without a name
abbrev answers : Answers ℕ
answers = record {
  production_runs = ok ("run" ∷ []);
  reference = λ run_id. ok (record { columns = "precip_mm" ∷ []; rows = 900 });
  connects = true;
  current_rows = ok 50;
  report = λ columns. ok (
      record {
        column_name = some "precip_mm";
        drift_score = some 5;
        drift_detected = true;
        stattest_name = none;
        p_value = none;
      }
      ∷ record {
        column_name = none;
        drift_score = none;
        drift_detected = false;
        stattest_name = none;
        p_value = none;
      }
      ∷ []);
  inserts = true;
}

abbrev start : State ℕ
start = record {
  gauges = [];
  reference_count = none;
  current_count = none;
  last_run = none;
  reports = [];
  started = 0;
}
