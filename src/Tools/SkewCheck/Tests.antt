-- ===== src/Tools/SkewCheck/Tests.antt =====
-- Served vectors: of the warehouse's row, of the row of an hour before, and of an hour that is not in the warehouse.
use weather_demand_forecast.Prelude.{
  ℕ, ◌+◌, ◌-◌, ◌≡◌, [], ◌∷◌, ◌⊎◌, refl, none, some, List, Bool, filter, All, ltb,
}
use weather_demand_forecast.Tools.SkewCheck.{
  offline_features, Served, Mart, joined, partners, is_stale, differs, true_bug, summary, sum_of,
  print_report, main,
}
use weather_demand_forecast.Tools.SkewCheck.InStep.{IsOlder, Agrees, main_iff}

abbrev distance : ℕ → ℕ → ℕ
distance a b = (a - b) + (b - a)

abbrev fresh : Served ℕ
fresh = record { city = "oslo"; requested_at = 7; mart_hour_ts = some 0; value = λ f. some 5 }

-- from the row of an hour before
abbrev stale : Served ℕ
stale = record fresh { requested_at = 3600000009 }

abbrev row : Mart ℕ
row = record { city = "oslo"; hour_ts = 0; value = λ f. some 6 }

-- an hour that the warehouse has not, and a vector of that hour that differs from zero
abbrev unmatched : Served ℕ
unmatched = record fresh { requested_at = 3600000009; mart_hour_ts = none }

abbrev all_served : List (Served ℕ)
all_served = fresh ∷ stale ∷ unmatched ∷ []

abbrev far : ℕ → Bool
far d = ltb 1 d

main_iff_example :
    (main 0 distance far (row ∷ []) all_served ≡ 0
      → All
          (λ f. All (λ s. IsOlder s ⊎ Agrees 0 distance far f (row ∷ []) s) all_served)
          offline_features)
    × (All
          (λ f. All (λ s. IsOlder s ⊎ Agrees 0 distance far f (row ∷ []) s) all_served)
          offline_features
        → main 0 distance far (row ∷ []) all_served ≡ 0)
main_iff_example = main_iff 0 distance far (row ∷ []) all_served

-- it is the one that is not in step
main_unmatched : main 0 distance far (row ∷ []) all_served ≡ 1
unfolding main joined partners filter is_stale differs true_bug summary sum_of print_report
main_unmatched = refl

main_in_step : main 0 distance far (row ∷ []) (fresh ∷ stale ∷ []) ≡ 0
unfolding main joined partners filter is_stale differs true_bug summary sum_of print_report
main_in_step = refl
