-- ===== src/Batch/Tests.antt =====
-- The batch on a small database.
use weather_demand_forecast.Prelude.{
  ℕ, ◌*◌, ◌≡◌, refl, ◌⊎◌, String, Bool, true, false, List, [], ◌∷◌, Option, none, some, length,
  ◌==◌, String_eq, ℕ_eq,
}
use weather_demand_forecast.Prelude.Dict.{get}
use weather_demand_forecast.Json.{ok, raise, Exc, db_error}
use weather_demand_forecast.Stream.RedisOps.{w_1h}
use weather_demand_forecast.Batch.{
  MartRow, Db, SqlFile, Counters, Link, Calendars, sort, total, counter, window, run_staging,
  run_marts, assert_quality, in_transaction, run_files, flagged, first_counter, flag_marts, checked,
  check_marts, apply_holidays, set_flag, flag_of, holiday_flag, in_holidays, hard_failures,
  null_failures, null_failure, execute_files, insert,
}
use weather_demand_forecast.Batch.Transactions.{Executes, run_staging-Executes}
use weather_demand_forecast.Batch.Quality.{IsSound, IsFlagged, run_marts-IsSound}
use weather_demand_forecast.Batch.Pipeline.{
  Job, State, IsCounted, IsKept, run_pipeline, run_pipeline_lem,
}

abbrev row : String → ℕ → Option Bool → MartRow
row city day flag = record {
  city = city;
  hour_ts = day * (24 * w_1h);
  is_holiday = flag;
  is_null = λ col. col == "demand_lag_1h";
}

-- the rest of the database is the number of rows of staging
abbrev start : Db ℕ
start = record { mart = []; others = 0 }

abbrev fill_staging : SqlFile ℕ
fill_staging = record {
  name = "001_demand.sql";
  execute = λ params db. ok (
    some (("staging_written", some 2) ∷ ("rejects_written", none) ∷ []),
    record db { others = 2 },
  );
}

abbrev failing : SqlFile ℕ
failing = record { name = "002_weather.sql"; execute = λ params db. raise db_error }

abbrev fill_mart : SqlFile ℕ
fill_mart = record {
  name = "001_city_hour_features.sql";
  execute = λ params db. ok (
    some (("rows_upserted", some 2) ∷ []),
    record db { mart = row "tokyo" 3 none ∷ row "dubai" 3 none ∷ [] },
  );
}

abbrev before : String → String → Bool
before a b = a == "001_demand.sql"

abbrev up : Link
up = record { connects = true; executes = true; commits = true }

abbrev calendars : Calendars
calendars = record { lower = λ city. city; year = λ d. 1970; is_holiday = λ country year d. d == 3 }

run_staging-Executes_example :
    let out = run_staging before up (5 * w_1h) 1 (some (failing ∷ fill_staging ∷ [])) start in
    ((e : Exc) × (out ≡ (raise e, start)))
    ⊎ ((rows : List (String × Counters)) × (db2 : Db ℕ) × Executes
          (window (5 * w_1h) 1)
          (sort before (failing ∷ fill_staging ∷ []))
          start
          rows
          db2
        × (out ≡ (ok (total "staging_written" rows, total "rejects_written" rows), db2)))
run_staging-Executes_example =
    run_staging-Executes before up (5 * w_1h) 1 (failing ∷ fill_staging ∷ []) start

run_marts-IsSound_example :
    let done =
      run_marts before calendars
        (λ n. n)
        up
        up
        up
        (some (fill_mart ∷ []))
        (record start { others = 2 }) in
    IsSound done.1.others done.1.mart × IsFlagged calendars done.1.mart
unfolding run_marts flagged flag_marts checked check_marts in_transaction run_files execute_files
    sort insert first_counter counter get apply_holidays set_flag flag_of holiday_flag in_holidays
    assert_quality hard_failures null_failures null_failure
run_marts-IsSound_example =
    run_marts-IsSound calendars (λ n. n) before up up up (some (fill_mart ∷ []))
      (record start { others = 2 }) 1 refl

abbrev job : Job ℕ ℕ
job = record {
  before = before;
  now = 5 * w_1h;
  lookback_days = 1;
  staging_files = some (fill_staging ∷ []);
  marts_files = some (fill_mart ∷ []);
  calendars = calendars;
  staging_count = λ n. n;
  staging_link = up;
  marts_link = up;
  holidays_link = up;
  quality_link = up;
  head_refused = false;
  fit_link = up;
  fit_pipeline = λ mart. ok (length mart);
  saves = true;
  ended_at = 6 * w_1h;
}

abbrev first_state : State ℕ ℕ
first_state = record {
  db = start;
  artifact = none;
  staging_rows = 0;
  rejects = 0;
  marts_rows = 0;
  successes = 0;
  failures = 0;
  last_run = none;
}

run_pipeline_lem_example :
    let out = run_pipeline job first_state in
    IsCounted job first_state out × IsKept job out.1.db.mart none out.1.artifact
run_pipeline_lem_example = run_pipeline_lem job first_state
