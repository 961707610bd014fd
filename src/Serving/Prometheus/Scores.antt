-- ===== src/Serving/Prometheus/Scores.antt =====
-- The current scores of drift: /drift/scores of services/api/app/main.py.
use weather_demand_forecast.Floats.{Floats}
use weather_demand_forecast.Prelude.{
  String, Bool, ◌||◌, List, [], ◌∷◌, Option, none, some, String_eq, ℕ_eq, if◌then◌else◌,
}
use weather_demand_forecast.Prelude.Dict.{Dict, get, put}
use weather_demand_forecast.Prelude.Sorting.{sort}
use weather_demand_forecast.Json.{ℤ}
use weather_demand_forecast.Serving.Models.{Response, answered, http_error}
use weather_demand_forecast.Serving.Prometheus.{
  Series, Reply, get_or_empty, some_result, prom_instant, finite, scalar,
}

module _ (fl : Floats) (to_float : String → Option fl.Float) (is_finite : fl.Float → Bool) where
  -- a >= b
  module _ (ge : fl.Float → fl.Float → Bool) where
    unfoldable pub detected_map : List Series → Dict String Bool → Dict String Bool
    unfolding put get
    detected_map [] known = known
    detected_map (r ∷ rs) known = detected_map rs (elim (to_float r.value) [
      | none ↦ known
      | some v ↦ put (get_or_empty "feature" r.metric) (ge v (fl.div (fl.of_ℕ 1) (fl.of_ℕ 2))) known
    ])

    pub record Score : Type 0 where
      pub feature : String
      pub score : fl.Float
      pub detected : Bool

    abbrev is_detected : Dict String Bool → String → fl.Float → Bool
    is_detected known feature v = elim (get feature known) [
      | none ↦ fl.lt (fl.div (fl.of_ℕ 1) (fl.of_ℕ 5)) v
      | some b ↦ b
    ]

    abbrev score_of : Dict String Bool → Series → fl.Float → Score
    score_of known r v = record {
      feature = get_or_empty "feature" r.metric;
      score = fl.round v 6;
      detected = is_detected known (get_or_empty "feature" r.metric) v;
    }

    unfoldable pub scores_of : Dict String Bool → List Series → List Score
    unfolding finite get
    scores_of known [] = []
    scores_of known (r ∷ rs) = elim (finite fl to_float is_finite r.value) [
      | none ↦ scores_of known rs
      | some v ↦ score_of known r v ∷ scores_of known rs
    ]

    abbrev pub higher : Score → Score → Bool
    higher x y = fl.lt y.score x.score

    pub record DriftQueries : Type 0 where
      pub score : Reply Series
      pub detected : Reply Series
      pub last_run : Reply Series
      pub reference_count : Reply Series
      pub current_count : Reply Series

    pub record Scores : Type 0 where
      pub scores : List Score
      pub last_run_ts : Option fl.Float
      pub reference_count : Option ℤ
      pub current_count : Option ℤ
      pub prometheus_available : Bool

    -- int(v) if v is not None else None, where v is finite
    abbrev count_of : (fl.Float → ℤ) → Reply Series → Option ℤ
    count_of to_int r = elim (scalar fl to_float is_finite (prom_instant r)) [
      | none ↦ none
      | some v ↦ some (to_int v)
    ]

    unfoldable pub drift_scores : (fl.Float → ℤ) → Bool → DriftQueries → Response Scores
    unfolding prom_instant scalar scores_of detected_map sort
    drift_scores to_int initialised q =
        let score_r = prom_instant q.score in
        let detected_r = prom_instant q.detected in
        if initialised
        then answered (record {
          scores = sort higher (scores_of (detected_map detected_r []) score_r);
          last_run_ts = scalar fl to_float is_finite (prom_instant q.last_run);
          reference_count = count_of to_int q.reference_count;
          current_count = count_of to_int q.current_count;
          prometheus_available = some_result score_r || some_result detected_r;
        })
        else http_error 503
