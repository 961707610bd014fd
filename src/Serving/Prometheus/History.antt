-- ===== src/Serving/Prometheus/History.antt =====
-- The scores of drift over the last hours: /drift/history of services/api/app/main.py.
use weather_demand_forecast.Floats.{Floats}
use weather_demand_forecast.Prelude.{
  ℕ, ◌*◌, String, Bool, true, false, List, [], ◌∷◌, Option, none, some, ◌==◌, String_eq, ℕ_eq,
  if◌then◌else◌,
}
use weather_demand_forecast.Prelude.Dict.{Dict, get}
use weather_demand_forecast.Prelude.Sorting.{sort}
use weather_demand_forecast.Json.{ℤ, pos, negsuc}
use weather_demand_forecast.Numbers.{sub_ℕ, clamp}
use weather_demand_forecast.Ingestor.Consumers.{is_empty}
use weather_demand_forecast.Serving.Models.{Response, answered, http_error}
use weather_demand_forecast.Serving.Prometheus.{
  not_json, unsuccessful, success, Reply, failed, replied, get_or_empty, finite,
}

-- a series of a range query, with its times
pub record Ranged : Type 0 where
  pub metric : Dict String String
  pub values : List (ℕ × String)

-- max(1, min(hours, most)), as a natural number
unfoldable pub bounded : ℕ → ℤ → ℕ
unfolding clamp
bounded most hours = elim (clamp 1 most hours) [ pos n ↦ n | negsuc n ↦ 0 ]

-- the parameters of a range query
pub record Range : Type 0 where
  pub start : ℤ
  pub until : ℕ
  pub step : String

module _ (fl : Floats) (to_float : String → Option fl.Float) (is_finite : fl.Float → Bool) where
  pub record Point : Type 0 where
    pub ts : ℕ
    pub score : fl.Float

  pub record Line : Type 0 where
    pub feature : String
    pub points : List Point

  unfoldable pub points : List (ℕ × String) → List Point
  unfolding finite
  points [] = []
  points ((ts, text) ∷ rest) = elim (finite fl to_float is_finite text) [
    | none ↦ points rest
    | some v ↦ record { ts = ts; score = fl.round v 6 } ∷ points rest
  ]

  -- `if points`
  unfoldable pub lines : List Ranged → List Line
  unfolding points get
  lines [] = []
  lines (s ∷ rest) =
      let drawn = points s.values in
      let others = lines rest in
      if is_empty drawn
      then others
      else record { feature = get_or_empty "feature" s.metric; points = drawn } ∷ others

  pub record History : Type 0 where
    pub series : List Line
    pub step : String
    pub window_hours : ℕ
    pub prometheus_available : Bool

  module _ (earlier : String → String → Bool) where
    abbrev pub by_feature : Line → Line → Bool
    by_feature x y = earlier x.feature y.feature

    abbrev unavailable : String → ℕ → Response History
    unavailable step hours =
        answered
          (record { series = []; step = step; window_hours = hours; prometheus_available = false })

    -- what `json` raises leaves the handler, which is answered with 500
    unfoldable pub history_of : String → ℕ → Reply Ranged → Response History
    unfolding lines sort
    history_of step hours failed = unavailable step hours
    history_of step hours (replied code body) =
        if code == 200
        then (elim body [
          | not_json ↦ http_error 500
          | unsuccessful ↦ unavailable step hours
          | success rs ↦ answered (record {
            series = sort by_feature (lines rs);
            step = step;
            window_hours = hours;
            prometheus_available = true;
          })
        ])
        else unavailable step hours

    unfoldable pub drift_history : Bool → ℤ → String → ℕ → (Range → Reply Ranged) → Response History
    unfolding bounded history_of
    drift_history initialised window_hours step now reply =
        let hours = bounded 72 window_hours in
        let range : Range = record { start = sub_ℕ now (hours * 3600); until = now; step = step } in
        if initialised then history_of step hours (reply range) else http_error 503
