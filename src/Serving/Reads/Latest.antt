-- ===== src/Serving/Reads/Latest.antt =====
-- The history of a city has its latest hours.
use weather_demand_forecast.Prelude.{ℕ, ◌≡◌, ◌⊎◌, String, false, List, [], ◌∷◌, map, length, All}
use weather_demand_forecast.Ingestor.Consumers.{is_empty}
use weather_demand_forecast.Serving.Models.{Response, answered, http_error}
use weather_demand_forecast.Serving.Reads.{DemandHistory, newer, history}

module _ {F : Type 0} where
  -- no element of the second list is newer than one of the first
  abbrev pub IsLatest : List (ℕ × F) → List (ℕ × F) → Type 0
  IsLatest [] rest = Unit
  IsLatest (x ∷ xs) rest = All (λ y. newer y x ≡ false) rest × IsLatest xs rest

  -- What is answered for the rows that are picked, of all that the city has with a demand.
  abbrev pub IsHistory : (ℕ → String) → String → List (ℕ × F) → Response (DemandHistory F) → Type 0
  IsHistory isoformat city picked answer =
      ((answer ≡ http_error 404) × (picked ≡ []))
      ⊎ ((is_empty picked ≡ false)
          × (answer
              ≡ answered (record {
                city = city;
                count = length picked;
                history = map (λ r. (isoformat r.0, r.1)) picked;
              })))
