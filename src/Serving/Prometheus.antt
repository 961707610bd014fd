-- ===== src/Serving/Prometheus.antt =====
-- The routes of services/api/app/main.py that pass on what Prometheus answers: the state of the pipeline, the scores of
-- drift and their history. An answer has the shape that Prometheus documents, or is one of its failures. The value of
-- a sample is a text; `float` of it, the comparison of texts and of floats are arguments. Queries are told apart by
-- their answers only.
pub mod Scores
pub mod History
mod Plots
pub mod Answers
use weather_demand_forecast.Floats.{Floats}
use weather_demand_forecast.Prelude.{
  ℕ, ◌*◌, String, Bool, true, false, ◌||◌, not, List, [], ◌∷◌, Option, none, some, ◌==◌, String_eq,
  ℕ_eq, if◌then◌else◌,
}
use weather_demand_forecast.Prelude.Dict.{Dict, get, put}
use weather_demand_forecast.Prelude.Sorting.{sort}
use weather_demand_forecast.Json.{ℤ, pos, negsuc}
use weather_demand_forecast.Numbers.{sub_ℕ, clamp}
use weather_demand_forecast.Ingestor.Consumers.{is_empty}
use weather_demand_forecast.Serving.Models.{Response, answered, http_error}

-- a series of an instant query
pub record Series : Type 0 where
  pub metric : Dict String String
  pub value : String

-- a body that is no JSON, one whose status is not "success", and the result
pub data Body (A : Type 0) : Type 0 where
  not_json unsuccessful : Body A
  success : List A → Body A

-- an exception of the client, or a status and a body
pub data Reply (A : Type 0) : Type 0 where
  failed : Reply A
  replied : ℕ → Body A → Reply A

abbrev result_of : Body Series → List Series
result_of not_json = []
result_of unsuccessful = []
result_of (success rs) = rs

unfoldable pub prom_instant : Reply Series → List Series
prom_instant failed = []
prom_instant (replied code body) = if code == 200 then result_of body else []

-- a or b
abbrev or_else : Option String → String → String
or_else none other = other
or_else (some s) other = if s == "" then other else s

-- a.get(k, "")
abbrev pub get_or_empty : String → Dict String String → String
get_or_empty k metric = elim (get k metric) [ none ↦ "" | some s ↦ s ]

abbrev pub some_result : List Series → Bool
some_result rs = not (is_empty rs)

module _ (fl : Floats) (to_float : String → Option fl.Float) (is_finite : fl.Float → Bool) where
  pub record Lag : Type 0 where
    pub topic : String
    pub lag : fl.Float

  -- float(…), none where it raises or the number is not finite
  unfoldable pub finite : String → Option fl.Float
  finite text = elim (to_float text) [ none ↦ none | some v ↦ if is_finite v then some v else none ]

  unfoldable pub scalar : List Series → Option fl.Float
  unfolding finite
  scalar [] = none
  scalar (r ∷ rs) = finite r.value

  abbrev topic_of : Dict String String → String
  topic_of metric = or_else (get "topic" metric) (or_else (get "group" metric) "unknown")

  unfoldable pub lags : List Series → List Lag
  unfolding finite get
  lags [] = []
  lags (r ∷ rs) = elim (finite r.value) [
    | none ↦ lags rs
    | some v ↦ record { topic = topic_of r.metric; lag = v } ∷ lags rs
  ]

  -- key=lambda x: -x["lag"]
  abbrev pub larger : Lag → Lag → Bool
  larger x y = fl.lt y.lag x.lag

  -- the answers to the seven queries
  pub record Queries : Type 0 where
    pub lag : Reply Series
    pub rows : Reply Series
    pub dlq : Reply Series
    pub last_run : Reply Series
    pub consumed : Reply Series
    pub val_fail : Reply Series
    pub lag_by_topic : Reply Series

  pub record Stats : Type 0 where
    pub kafka_lag : Option fl.Float
    pub rows_per_min : Option fl.Float
    pub dlq_total : Option fl.Float
    pub last_pipeline_run_ts : Option fl.Float
    pub msgs_consumed_per_min : Option fl.Float
    pub validation_failed_per_min : Option fl.Float
    pub lag_by_topic : List Lag
    pub prometheus_available : Bool

  -- `initialised`: whether there are settings
  unfoldable pub pipeline_stats : Bool → Queries → Response Stats
  unfolding prom_instant scalar lags sort
  pipeline_stats initialised q =
      let lag_r = prom_instant q.lag in
      let rows_r = prom_instant q.rows in
      let dlq_r = prom_instant q.dlq in
      let last_run_r = prom_instant q.last_run in
      if initialised
      then answered (record {
        kafka_lag = scalar lag_r;
        rows_per_min = scalar rows_r;
        dlq_total = scalar dlq_r;
        last_pipeline_run_ts = scalar last_run_r;
        msgs_consumed_per_min = scalar (prom_instant q.consumed);
        validation_failed_per_min = scalar (prom_instant q.val_fail);
        lag_by_topic = sort larger (lags (prom_instant q.lag_by_topic));
        prometheus_available =
            (some_result lag_r || some_result rows_r)
            || (some_result dlq_r || some_result last_run_r);
      })
      else http_error 503
