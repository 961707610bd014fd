-- ===== src/Models/Tests.antt =====
-- The promotion of concrete models.
use weather_demand_forecast.Floats.Whole.{whole}
use weather_demand_forecast.Prelude.{
  ℕ, ◌≡◌, String, false, ◌&&◌, [], ◌∷◌, some, ◌==◌, String_eq, ℕ_eq, if◌then◌else◌,
}
use weather_demand_forecast.Prelude.Dict.{get}
use weather_demand_forecast.Models.Promote.{
  production, Version, Versions, Texts, Answers, register_and_maybe_promote,
}
use weather_demand_forecast.Models.Promote.Decided.{IsDecided}
use weather_demand_forecast.Models.Promote.Gates.{
  passes_drift, beats_production, register_and_maybe_promote-Decided,
}

abbrev texts : Texts whole
texts = record {
  fixed = λ x digits. "x";
  joined = λ names. "names";
  drift_reason = λ drift. "drift";
  holdout_reason = λ new old version. "holdout";
}

-- one version serves, with an error of 5
abbrev answers : Answers whole
answers = record { production_versions = some ("1" ∷ []); prod_val_mae = some 5 }

abbrev versions : Versions
versions = ("1", record { stage = production; tags = [] }) ∷ []

abbrev psi : String → ℕ
psi feature = if feature == "city" then 2 else 1

-- an error of 4 is promoted
register_and_maybe_promote-Decided_example :
    let after = register_and_maybe_promote whole texts "2" 4 psi 3 answers versions in
    let promoted =
      passes_drift whole psi 3 && beats_production whole 4 (some ("1" ∷ [])) (some 5) in
    ((y : Version) × (get "2" after ≡ some y) × IsDecided promoted y)
    × ((w : String) → ("2" == w) ≡ false → get w after ≡ get w versions)
register_and_maybe_promote-Decided_example =
    register_and_maybe_promote-Decided whole texts "2" 4 psi 3 answers versions
