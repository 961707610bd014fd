-- ===== src/Drift.antt =====
-- services/worker/app/drift.py: the drift check of the worker. MLflow, Postgres and the report of Evidently answer
-- by arguments; a frame is the names of its columns and its number of rows. Logging and durations are left out.
pub mod Persisted
mod Tests
use weather_demand_forecast.Floats.{Floats}
use weather_demand_forecast.Prelude.{
  ℕ, ◌+◌, String, Bool, true, false, ◌||◌, List, [], ◌∷◌, ◌++◌, map, Option, none, some, filter,
  length, ltb, ◌==◌, String_eq, if◌then◌else◌,
}
use weather_demand_forecast.Prelude.Dict.{Dict, put}
use weather_demand_forecast.Json.{Result, ok, raise}
use weather_demand_forecast.Ingestor.Consumers.{is_empty}
use weather_demand_forecast.Retrain.{Score, Settings, maybe_trigger_retrain}

abbrev pub drift_features : List String
drift_features =
    "event_count" ∷ "demand_lag_1h" ∷ "demand_lag_24h" ∷ "demand_lag_168h" ∷ "demand_roll_3h"
    ∷ "demand_roll_24h" ∷ "temperature_c" ∷ "humidity_pct" ∷ "precip_mm" ∷ "is_holiday" ∷ []

pub record Frame : Type 0 where
  pub columns : List String
  pub rows : ℕ

-- an entry of the report's metrics, the fields of its `result`
pub record Item (F : Type 0) : Type 0 where
  pub column_name : Option String
  pub drift_score : Option F
  pub drift_detected : Bool
  pub stattest_name : Option String
  pub p_value : Option F

-- a row of marts.drift_reports
pub record ReportRow (F : Type 0) : Type 0 where
  pub checked_at : ℕ
  pub feature_name : String
  pub drift_score : Option F
  pub drift_detected : Bool
  pub stat_test : Option String
  pub p_value : Option F
  pub reference_count : ℕ
  pub current_count : ℕ

-- What a check meets: the run ids of the versions in Production, the reference of a run, the connection, the
-- rows since the cutoff, the report on some columns, and the insert with its commit.
pub record Answers (F : Type 0) : Type 0 where
  pub production_runs : Result (List String)
  pub reference : String → Result Frame
  pub connects : Bool
  pub current_rows : Result ℕ
  pub report : List String → Result (List (Item F))
  pub inserts : Bool

unfoldable pub has_column : String → List String → Bool
has_column c [] = false
has_column c (d ∷ ds) = (d == c) || has_column c ds

-- The gauges by feature, the two counts, the time of the last run; the committed reports; and how many runs of
-- the retraining were started.
pub record State (F : Type 0) : Type 0 where
  pub gauges : Dict String (F × Bool)
  pub reference_count : Option ℕ
  pub current_count : Option ℕ
  pub last_run : Option ℕ
  pub reports : List (ReportRow F)
  pub started : ℕ

module _ (fl : Floats) where
  -- the reference of the first version in Production, or None
  unfoldable pub reference_of : Answers fl.Float → Result (List String) → Option Frame
  reference_of a (raise e) = none
  reference_of a (ok []) = none
  reference_of a (ok (run_id ∷ rest)) = elim (a.reference run_id) [
    | raise e ↦ none
    | ok frame ↦ some frame
  ]

  unfoldable pub load_reference : Answers fl.Float → Option Frame
  unfolding reference_of
  load_reference a = reference_of a a.production_runs

  -- `if not feature_name: continue`
  unfoldable pub is_named : Item fl.Float → Bool
  is_named i = elim i.column_name [ none ↦ false | some name ↦ if name == "" then false else true ]

  abbrev pub name_of : Item fl.Float → String
  name_of i = elim i.column_name [ none ↦ "" | some name ↦ name ]

  abbrev pub report_row : ℕ → ℕ → ℕ → Item fl.Float → ReportRow fl.Float
  report_row checked_at n_ref n_cur i = record {
    checked_at = checked_at;
    feature_name = name_of i;
    drift_score = i.drift_score;
    drift_detected = i.drift_detected;
    stat_test = i.stattest_name;
    p_value = i.p_value;
    reference_count = n_ref;
    current_count = n_cur;
  }

  unfoldable pub rows_to_insert : ℕ → ℕ → ℕ → List (Item fl.Float) → List (ReportRow fl.Float)
  unfolding is_named filter
  rows_to_insert checked_at n_ref n_cur items =
      map (report_row checked_at n_ref n_cur) (filter is_named items)

  -- 0.0 for None
  abbrev pub score_or_zero : Option fl.Float → fl.Float
  score_or_zero none = fl.of_ℕ 0
  score_or_zero (some s) = s

  -- the gauges of each row in turn
  unfoldable pub set_gauges :
      List (ReportRow fl.Float) → Dict String (fl.Float × Bool) → Dict String (fl.Float × Bool)
  unfolding put
  set_gauges [] gauges = gauges
  set_gauges (r ∷ rows) gauges =
      set_gauges rows (put r.feature_name (score_or_zero r.drift_score, r.drift_detected) gauges)

  -- drift_summary
  abbrev pub summary_of : ReportRow fl.Float → Score fl.Float
  summary_of r = record {
    feature = r.feature_name;
    score = score_or_zero r.drift_score;
    detected = r.drift_detected;
  }

  -- the settings, the times of the check, of its trigger and of its end, the minimum of current rows, and the
  -- last start of a retraining
  module _ (settings : Settings fl.Float) (checked_at now ended_at min_rows : ℕ)
      (last_triggered : Option ℕ) where
    -- the insert, its commit and the trigger behind them
    unfoldable pub insert_rows : Bool → List (ReportRow fl.Float) → State fl.Float → State fl.Float
    insert_rows inserts [] s = s
    insert_rows false (r ∷ rows) s = s
    insert_rows true (r ∷ rows) s = record s {
      reports = s.reports ++ r ∷ rows;
      started =
          if maybe_trigger_retrain fl settings now (map summary_of (r ∷ rows)) last_triggered
          then s.started + 1
          else s.started;
    }

    -- behind the `try`
    abbrev pub finish : State fl.Float → State fl.Float
    finish s = record s { last_run = some ended_at }

    unfoldable pub persist :
        Bool → ℕ → ℕ → Result (List (Item fl.Float)) → State fl.Float → State fl.Float
    unfolding rows_to_insert set_gauges insert_rows
    persist inserts n_ref n_cur (raise e) s = finish s
    persist inserts n_ref n_cur (ok items) s =
        let rows = rows_to_insert checked_at n_ref n_cur items in
        finish (insert_rows inserts rows (record s { gauges = set_gauges rows s.gauges }))

    -- too few rows: a `return`, which leaves the time of the last run
    unfoldable pub compare_rows :
        Answers fl.Float → List String → ℕ → Result ℕ → State fl.Float → State fl.Float
    unfolding persist
    compare_rows a available n_ref (raise e) s = finish s
    compare_rows a available n_ref (ok n_cur) s =
        let counted = record s { reference_count = some n_ref; current_count = some n_cur } in
        if ltb n_cur min_rows
        then counted
        else persist a.inserts n_ref n_cur (a.report available) counted

    unfoldable pub with_reference :
        Answers fl.Float → Option Frame → State fl.Float → State fl.Float
    unfolding compare_rows has_column filter
    with_reference a none s = s
    with_reference a (some ref) s =
        let available = filter (λ f. has_column f ref.columns) drift_features in
        if a.connects
        then (if is_empty available then s else compare_rows a available ref.rows a.current_rows s)
        else finish s

    unfoldable pub run_drift_check : Answers fl.Float → State fl.Float → State fl.Float
    unfolding with_reference load_reference
    run_drift_check a s = with_reference a (load_reference a) s
