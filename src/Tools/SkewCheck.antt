-- ===== src/Tools/SkewCheck.antt =====
-- tools/skew_check.py: the vectors that were served, compared with the warehouse's rows of their hours. The summary
-- query is a function of the two tables; the per-feature query and what is printed are left out. A number is a value
-- of any type with a zero, the distance of two and the test against the tolerance.
pub mod Clean
pub mod InStep
mod Tests
use weather_demand_forecast.Prelude.{
  ℕ, ◌+◌, ◌-◌, ◌*◌, ◌/◌, String, Bool, true, false, ◌&&◌, not, List, [], ◌∷◌, ◌++◌, map, Option,
  none, some, filter, length, ltb, ◌==◌, String_eq, ℕ_eq, if◌then◌else◌,
}

-- the columns that are compared: OFFLINE_FEAT_COLS, and the two online ones
pub data Feature : Type 0 where
  event_count demand_lag_1h demand_lag_24h demand_lag_168h demand_roll_3h demand_roll_24h
        humidity_pct is_holiday :
      Feature
  temperature_c precip_mm : Feature

abbrev pub offline_features : List Feature
offline_features =
    event_count ∷ demand_lag_1h ∷ demand_lag_24h ∷ demand_lag_168h ∷ demand_roll_3h
    ∷ demand_roll_24h ∷ humidity_pct ∷ is_holiday ∷ []

-- a row of marts.prediction_features
pub record Served (F : Type 0) : Type 0 where
  pub city : String
  pub requested_at : ℕ
  pub mart_hour_ts : Option ℕ
  pub value : Feature → Option F

-- a row of marts.city_hour_features, its columns cast
pub record Mart (F : Type 0) : Type 0 where
  pub city : String
  pub hour_ts : ℕ
  pub value : Feature → Option F

-- date_trunc('hour', …)
abbrev pub serving_hour : ℕ → ℕ
serving_hour t = t / 3600000000 * 3600000000

abbrev pub matches : {F : Type 0} → Served F → Mart F → Bool
matches s w = (w.city == s.city) && (w.hour_ts == serving_hour s.requested_at)

abbrev pub Joined : Type 0 → Type 0
Joined F = Served F × Option (Mart F)

-- a row of the left side without a partner has NULL in the columns of the right
unfoldable pub partners : {F : Type 0} → List (Mart F) → List (Option (Mart F))
partners [] = none ∷ []
partners (w ∷ ws) = map some (w ∷ ws)

-- serving s LEFT JOIN warehouse w
unfoldable pub joined : {F : Type 0} → List (Mart F) → List (Served F) → List (Joined F)
unfolding partners
joined warehouse [] = []
joined warehouse (s ∷ ss) =
    map (λ w. (s, w)) (partners (filter (matches s) warehouse)) ++ joined warehouse ss

-- s.mart_hour_ts IS NOT NULL AND s.mart_hour_ts != s.serving_hour
unfoldable pub is_stale : {F : Type 0} → Served F → Bool
is_stale s = elim s.mart_hour_ts [ none ↦ false | some t ↦ not (t == serving_hour s.requested_at) ]

abbrev pub is_matched : {F : Type 0} → Joined F → Bool
is_matched row = elim row.1 [ none ↦ false | some w ↦ true ]

-- sum(s[k] for k in …)
unfoldable pub sum_of : (Feature → ℕ) → List Feature → ℕ
sum_of n [] = 0
sum_of n (f ∷ fs) = n f + sum_of n fs

abbrev pub exit_code : ℕ → ℕ
exit_code true_offline_bugs = if ltb 0 true_offline_bugs then 1 else 0

-- `beyond`: whether a distance is above TOLERANCE
module _ {F : Type 0} (zero : F) (distance : F → F → F) (beyond : F → Bool) where
  abbrev pub coalesce : Option F → F
  coalesce none = zero
  coalesce (some x) = x

  abbrev pub warehouse_value : Option (Mart F) → Feature → Option F
  warehouse_value none f = none
  warehouse_value (some w) f = w.value f

  unfoldable pub differs : Feature → Joined F → Bool
  differs f row = beyond (distance (coalesce (row.0.value f)) (coalesce (warehouse_value row.1 f)))

  -- COUNT(*) FILTER (WHERE NOT is_stale AND d_… > tol)
  unfoldable pub true_bug : List (Joined F) → Feature → ℕ
  unfolding is_stale differs
  true_bug rows f = length (filter (λ row. not (is_stale row.0) && differs f row) rows)

  -- `bugs` and `true_bugs` of the offline features, `online` of the online ones
  pub record Summary : Type 0 where
    pub total : ℕ
    pub matched : ℕ
    pub unmatched : ℕ
    pub stale_mart : ℕ
    pub bugs : Feature → ℕ
    pub true_bugs : Feature → ℕ
    pub online : Feature → ℕ

  unfoldable pub summary : List (Joined F) → Summary
  unfolding true_bug is_stale differs
  summary rows = record {
    total = length rows;
    matched = length (filter is_matched rows);
    unmatched = length rows - length (filter is_matched rows);
    stale_mart = length (filter (λ row. is_stale row.0) rows);
    bugs = λ f. length (filter (differs f) rows);
    true_bugs = true_bug rows;
    online = λ f. length (filter (differs f) rows);
  }

  -- the exit code of _print_report
  unfoldable pub print_report : Summary → ℕ
  unfolding sum_of
  print_report s = exit_code (sum_of s.true_bugs offline_features)

  -- main(): the exit code
  unfoldable pub main : List (Mart F) → List (Served F) → ℕ
  unfolding joined summary print_report
  main warehouse served =
      if length served == 0 then 0 else print_report (summary (joined warehouse served))
