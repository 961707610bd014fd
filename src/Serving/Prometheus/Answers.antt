-- ===== src/Serving/Prometheus/Answers.antt =====
-- The order and the contents of what the three routes answer, and when they fail.
use mathlib.Core.List.{Perm}
use weather_demand_forecast.Floats.{Floats}
use weather_demand_forecast.Prelude.{
  ℕ, ◌*◌, ◌≤◌, ◌≡◌, ◌≢◌, ◌<◌, refl, ◌⊎◌, inl, inr, String, Bool, true, false, List, [], ◌∷◌, All,
  Option, none, some, ◌==◌, ==_iff, ℕ_eq, Bool-cases, if◌then◌else◌, arith,
}
use weather_demand_forecast.Prelude.Dict.{Dict}
use weather_demand_forecast.Prelude.Sorting.{sort, IsSorted, sort-IsSorted, sort-Perm, sort-All}
use weather_demand_forecast.Json.{ℤ, pos, negsuc}
use weather_demand_forecast.Numbers.{InRange, sub_ℕ, clamp, clamp-InRange}
use weather_demand_forecast.Serving.Models.{Response, answered, http_error}
use weather_demand_forecast.Serving.Prometheus.{
  Series, Reply, failed, replied, Body, not_json, unsuccessful, success, prom_instant, finite, lags,
  larger, Queries, Stats, pipeline_stats,
}
use weather_demand_forecast.Serving.Prometheus.Plots.{IsLines, lines-IsLines}
use weather_demand_forecast.Serving.Prometheus.Scores.{
  Scores, scores_of, detected_map, higher, DriftQueries, drift_scores,
}
use weather_demand_forecast.Serving.Prometheus.History.{
  Ranged, Range, Line, lines, by_feature, History, history_of, bounded, drift_history,
}

pub bounded-InRange :
    (most : ℕ) (hours : ℤ) → 1 ≤ most → (1 ≤ bounded most hours) × (bounded most hours ≤ most)
unfolding bounded
bounded-InRange most hours h = go (clamp 1 most hours) (clamp-InRange 1 most hours h)
  where
    go :
        (z : ℤ)
        → InRange 1 most z
        → (1 ≤ (elim z [ pos n ↦ n | negsuc n ↦ 0 ]))
          × ((elim z [ pos n ↦ n | negsuc n ↦ 0 ]) ≤ most)
    go (pos n) (m, e, a, b) = let same : n ≡ m = cc in (omega arith, omega arith)
    go (negsuc n) (m, e, a, b) = cc

-- the hours that are asked for, or the bound that they pass
abbrev pub IsBounded : ℕ → ℤ → ℕ → Type 0
IsBounded most (pos n) hours =
    ((1 ≤ n) × (n ≤ most) × (hours ≡ n)) ⊎ (((n ≡ 0) × (hours ≡ 1)) ⊎ ((most < n) × (hours ≡ most)))
IsBounded most (negsuc n) hours = hours ≡ 1

bounded-IsBounded : (most : ℕ) (z : ℤ) → 1 ≤ most → IsBounded most z (bounded most z)
unfolding bounded clamp
bounded-IsBounded most (pos n) h = ground arith
bounded-IsBounded most (negsuc n) h = refl

module _ (fl : Floats) (to_float : String → Option fl.Float) (is_finite : fl.Float → Bool) where
  finite-IsFinite :
      (text : String) (v : fl.Float)
      → finite fl to_float is_finite text ≡ some v
      → is_finite v ≡ true
  unfolding finite
  finite-IsFinite text v h = go (to_float text) h
    where
      go :
          (o : Option fl.Float)
          → (elim o [ none ↦ none | some w ↦ if is_finite w then some w else none ]) ≡ some v
          → is_finite v ≡ true
      go none e = cc
      go (some w) e = elim (Bool-cases (is_finite w)) [
        | inl t ↦ let same : some w ≡ some v = rw t at e in cc
        | inr t ↦ let differ : none ≡ some v = rw t at e in cc
      ]

  lags-IsFinite :
      (rs : List Series) → All (λ l. is_finite l.lag ≡ true) (lags fl to_float is_finite rs)
  unfolding lags
  lags-IsFinite [] = tt
  lags-IsFinite (r ∷ rs) = go (finite fl to_float is_finite r.value) refl (lags-IsFinite rs)
    where
      go :
          (o : Option fl.Float)
          → finite fl to_float is_finite r.value ≡ o
          → All (λ l. is_finite l.lag ≡ true) (lags fl to_float is_finite rs)
          → All (λ l. is_finite l.lag ≡ true) (lags fl to_float is_finite (r ∷ rs))
      go none e rest = rw (e, lags) rest
      go (some v) e rest = rw (e, lags) (finite-IsFinite r.value v e, rest)

  scores_of-IsFinite :
      (ge : fl.Float → fl.Float → Bool)
      (keeps : (x : fl.Float) → is_finite x ≡ true → is_finite (fl.round x 6) ≡ true)
      (known : Dict String Bool) (rs : List Series)
      → All (λ e. is_finite e.score ≡ true) (scores_of fl to_float is_finite ge known rs)
  unfolding scores_of
  scores_of-IsFinite ge keeps known [] = tt
  scores_of-IsFinite ge keeps known (r ∷ rs) =
      go (finite fl to_float is_finite r.value) refl (scores_of-IsFinite ge keeps known rs)
    where
      go :
          (o : Option fl.Float)
          → finite fl to_float is_finite r.value ≡ o
          → All (λ e. is_finite e.score ≡ true) (scores_of fl to_float is_finite ge known rs)
          → All (λ e. is_finite e.score ≡ true) (scores_of fl to_float is_finite ge known (r ∷ rs))
      go none e rest = rw (e, scores_of) rest
      go (some v) e rest = rw (e, scores_of) (keeps v (finite-IsFinite r.value v e), rest)

  module _ (asym : (x y : fl.Float) → fl.lt x y ≡ true → fl.lt y x ≡ false)
      (trans : (x y z : fl.Float)
        → is_finite x ≡ true
        → is_finite y ≡ true
        → is_finite z ≡ true
        → fl.lt x y ≡ false
        → fl.lt y z ≡ false
        → fl.lt x z ≡ false) where
    -- Let the finite floats be ordered. Once the service has its settings, the state of the pipeline is answered
    -- whatever Prometheus does; its lags are all finite and stand from the largest to the smallest, and they are
    -- those of the samples that are finite, one for each.
    pub pipeline_stats-IsOrdered :
        (q : Queries fl to_float is_finite)
        → (s : Stats fl to_float is_finite) × (pipeline_stats fl to_float is_finite true q
            ≡ answered s)
          × All (λ l. is_finite l.lag ≡ true) s.lag_by_topic
          × IsSorted (larger fl to_float is_finite) s.lag_by_topic
          × Perm s.lag_by_topic (lags fl to_float is_finite (prom_instant q.lag_by_topic))
    unfolding pipeline_stats
    pipeline_stats-IsOrdered q =
        let found = lags fl to_float is_finite (prom_instant q.lag_by_topic) in
        let all = lags-IsFinite (prom_instant q.lag_by_topic) in
        (
          _,
          refl,
          sort-All (larger fl to_float is_finite) (λ l. is_finite l.lag ≡ true) found all,
          sort-IsSorted (larger fl to_float is_finite) (λ l. is_finite l.lag ≡ true)
              (λ x y p q e. asym y.lag x.lag e)
              (λ x y z p q r e g. trans x.lag y.lag z.lag p q r e g) found all,
          sort-Perm (larger fl to_float is_finite) found,
        )

    -- Let rounding keep a float finite, besides. The scores of drift are answered whatever Prometheus does; they are
    -- finite and stand from the highest to the lowest, and they are those of the finite samples, one for each.
    pub drift_scores-IsOrdered :
        (ge : fl.Float → fl.Float → Bool) (to_int : fl.Float → ℤ)
        (keeps : (x : fl.Float) → is_finite x ≡ true → is_finite (fl.round x 6) ≡ true)
        (q : DriftQueries fl to_float is_finite ge)
        → (s : Scores fl to_float is_finite ge) × (drift_scores fl to_float is_finite ge to_int true
              q
            ≡ answered s)
          × All (λ e. is_finite e.score ≡ true) s.scores
          × IsSorted (higher fl to_float is_finite ge) s.scores
          × Perm s.scores (
              scores_of fl to_float is_finite ge
                (detected_map fl to_float is_finite ge (prom_instant q.detected) [])
                (prom_instant q.score))
    unfolding drift_scores
    drift_scores-IsOrdered ge to_int keeps q =
        let known = detected_map fl to_float is_finite ge (prom_instant q.detected) [] in
        let found = scores_of fl to_float is_finite ge known (prom_instant q.score) in
        let all = scores_of-IsFinite ge keeps known (prom_instant q.score) in
        (
          _,
          refl,
          sort-All (higher fl to_float is_finite ge) (λ e. is_finite e.score ≡ true) found all,
          sort-IsSorted (higher fl to_float is_finite ge) (λ e. is_finite e.score ≡ true)
              (λ x y p q e. asym y.score x.score e)
              (λ x y z p q r e g. trans x.score y.score z.score p q r e g) found all,
          sort-Perm (higher fl to_float is_finite ge) found,
        )

  all_unit : (ls : List (Line fl to_float is_finite)) → All (λ l. Unit {0}) ls
  all_unit [] = tt
  all_unit (l ∷ ls) = (tt, all_unit ls)

  module _ (earlier : String → String → Bool) where
    abbrev pub IsUnavailable : ℕ → String → Response (History fl to_float is_finite) → Type 0
    IsUnavailable hours step answer =
        answer
        ≡ answered (record {
          series = [];
          step = step;
          window_hours = hours;
          prometheus_available = false;
        })

    -- The answer for a successful body: the lines of the series, by the names of the features.
    abbrev pub IsHistory :
        ℕ → String → List Ranged → Response (History fl to_float is_finite) → Type 0
    IsHistory hours step rs answer =
        (drawn : List (Line fl to_float is_finite)) × (series : List (Line fl to_float is_finite))
        × (answer
            ≡ answered (record {
              series = series;
              step = step;
              window_hours = hours;
              prometheus_available = true;
            }))
        × Perm series drawn
        × IsSorted (by_feature fl to_float is_finite earlier) series
        × IsLines fl to_float is_finite rs drawn

    abbrev pub IsAnswerOf :
        ℕ → String → Body Ranged → Response (History fl to_float is_finite) → Type 0
    IsAnswerOf hours step not_json answer = answer ≡ http_error 500
    IsAnswerOf hours step unsuccessful answer = IsUnavailable hours step answer
    IsAnswerOf hours step (success rs) answer = IsHistory hours step rs answer

    -- The answer for each answer of Prometheus: 500 for a body under the status 200 that is no JSON, the history for
    -- a successful one, and otherwise that there is none.
    abbrev pub IsAnswer :
        ℕ → String → Reply Ranged → Response (History fl to_float is_finite) → Type 0
    IsAnswer hours step failed answer = IsUnavailable hours step answer
    IsAnswer hours step (replied code body) answer =
        ((code ≡ 200) × IsAnswerOf hours step body answer)
        ⊎ ((code ≢ 200) × IsUnavailable hours step answer)

  module _ (earlier : String → String → Bool)
      (asym : (x y : String) → earlier x y ≡ true → earlier y x ≡ false)
      (trans : (x y z : String)
        → earlier y x ≡ false
        → earlier z y ≡ false
        → earlier z x ≡ false) where
    lines-IsHistory :
        (step : String) (hours : ℕ) (rs : List Ranged)
        → IsHistory earlier hours step rs (
            answered (record {
              series =
                  sort (by_feature fl to_float is_finite earlier) (lines fl to_float is_finite rs);
              step = step;
              window_hours = hours;
              prometheus_available = true;
            }))
    lines-IsHistory step hours rs =
        let found = lines fl to_float is_finite rs in
        let by = by_feature fl to_float is_finite earlier in
        (
          found,
          sort by found,
          refl,
          sort-Perm by found,
          sort-IsSorted by (λ l. Unit {0}) (λ x y p q. asym x.feature y.feature)
              (λ x y z p q r. trans x.feature y.feature z.feature) found (all_unit found),
          lines-IsLines fl to_float is_finite rs,
        )

    history_of-IsAnswer :
        (step : String) (hours : ℕ) (r : Reply Ranged)
        → IsAnswer earlier hours step r (history_of fl to_float is_finite earlier step hours r)
    unfolding history_of
    history_of-IsAnswer step hours failed = refl
    history_of-IsAnswer step hours (replied code body) = elim (Bool-cases (code == 200)) [
      | inr e ↦ inr (λ same. cc (e, (==_iff code 200).1 same), rw e refl)
      | inl e ↦ inl ((==_iff code 200).0 e, rw e (of_body body))
    ]
      where
        of_body :
            (b : Body Ranged)
            → IsAnswerOf earlier hours step b (elim b [
              | not_json ↦ http_error 500
              | unsuccessful ↦ answered (record {
                series = [];
                step = step;
                window_hours = hours;
                prometheus_available = false;
              })
              | success rs ↦ answered (record {
                series =
                    sort
                      (by_feature fl to_float is_finite earlier)
                      (lines fl to_float is_finite rs);
                step = step;
                window_hours = hours;
                prometheus_available = true;
              })
            ])
        of_body not_json = refl
        of_body unsuccessful = refl
        of_body (success rs) = lines-IsHistory step hours rs

    -- Let texts be ordered, and the service have its settings. The window asked of Prometheus has as many hours as
    -- were asked for, but at least 1 and at most 72, and ends now. A body under the status 200 that is no JSON is
    -- answered with 500. A successful body is answered with one line for each series that has a finite sample, by the
    -- names of the features: each line has the series' feature, and its finite samples at their times, rounded, in
    -- their order. Whatever else Prometheus does, the answer is that it has no series and is unavailable.
    pub drift_history-IsAnswer :
        (window_hours : ℤ) (step : String) (now : ℕ) (reply : Range → Reply Ranged)
        → (hours : ℕ) × IsBounded 72 window_hours hours
          × IsAnswer earlier hours step
              (reply (record { start = sub_ℕ now (hours * 3600); until = now; step = step }))
              (drift_history fl to_float is_finite earlier true window_hours step now reply)
    unfolding drift_history
    drift_history-IsAnswer window_hours step now reply =
        let hours = bounded 72 window_hours in
        (
          hours,
          bounded-IsBounded 72 window_hours (omega arith),
          history_of-IsAnswer step hours (reply _),
        )
