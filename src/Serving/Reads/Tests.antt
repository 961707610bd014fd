-- ===== src/Serving/Reads/Tests.antt =====
-- The history of a city with three hours, and a history of drift of two features.
use weather_demand_forecast.Floats.Whole.{whole}
use weather_demand_forecast.Prelude.{
  ℕ, ◌*◌, ◌≡◌, String, true, false, List, [], ◌∷◌, Option, none, some, ltb, ◌==◌, String_eq,
  if◌then◌else◌, arith,
}
use weather_demand_forecast.Json.{pos}
use weather_demand_forecast.Numbers.{sub_ℕ}
use weather_demand_forecast.Serving.Prometheus.{Reply, replied, success}
use weather_demand_forecast.Serving.Prometheus.History.{Ranged, Range, drift_history}
use weather_demand_forecast.Serving.Prometheus.Answers.{IsBounded, IsAnswer, drift_history-IsAnswer}
use weather_demand_forecast.Serving.Reads.{MartHour}

abbrev hour : ℕ → Option ℕ → MartHour ℕ
hour t x = record { city = "oslo"; hour_ts = t; total_demand = x }

abbrev mart : List (MartHour ℕ)
mart = hour 1 (some 40) ∷ hour 3 (some 60) ∷ hour 4 none ∷ hour 2 (some 50) ∷ []

abbrev rank : String → ℕ
rank feature = if feature == "event_count" then 0 else 1

ltb_asym : (m n : ℕ) → ltb m n ≡ true → ltb n m ≡ false
ltb_asym m n e = ground (arith, e)

ltb_trans : (m n k : ℕ) → ltb n m ≡ false → ltb k n ≡ false → ltb k m ≡ false
ltb_trans m n k e g = ground (arith, e, g)

abbrev series : String → Ranged
series feature = record { metric = ("feature", feature) ∷ []; values = (5, "1") ∷ (6, "NaN") ∷ [] }

abbrev to_float : String → Option ℕ
to_float text = if text == "1" then some 1 else none

abbrev reply : Range → Reply Ranged
reply range = replied 200 (success (series "precip_mm" ∷ series "event_count" ∷ []))

drift_history-IsAnswer_example :
    (hours : ℕ) × IsBounded 72 (pos 1) hours
    × IsAnswer whole to_float
        (λ x. true)
        (λ x y. ltb (rank x) (rank y))
        hours
        "5m"
        (reply (record { start = sub_ℕ 10000 (hours * 3600); until = 10000; step = "5m" }))
        (drift_history whole to_float
          (λ x. true)
          (λ x y. ltb (rank x) (rank y))
          true
          (pos 1)
          "5m"
          10000
          reply)
drift_history-IsAnswer_example =
    drift_history-IsAnswer whole to_float (λ x. true) (λ x y. ltb (rank x) (rank y))
      (λ x y. ltb_asym (rank x) (rank y)) (λ x y z. ltb_trans (rank x) (rank y) (rank z)) (pos 1)
      "5m" 10000 reply
