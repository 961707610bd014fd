-- ===== src/Retrain/Tests.antt =====
-- Retraining on concrete tables, calls and registries.
use weather_demand_forecast.Floats.Whole.{whole}
use weather_demand_forecast.Prelude.{
  ℕ, ◌*◌, ◌≤◌, ◌≡◌, refl, String, true, false, [], ◌∷◌, none, some, count, ◌==◌, String_eq, ℕ_eq,
  if◌then◌else◌, List,
}
use weather_demand_forecast.Json.{ok}
use weather_demand_forecast.Models.Promote.{production, Versions, Texts, Answers}
use weather_demand_forecast.Retrain.{FeatureRow, Score, Environment, Settings, drift, weekly, day}
use weather_demand_forecast.Retrain.Lock.{
  World, Reach, here, next, call, acquire, initial, holds, at, called, locked_in, Reach-one_trains,
  Reach-freed,
}

abbrev texts : Texts whole
texts = record {
  fixed = λ x digits. "x";
  joined = λ names. "names";
  drift_reason = λ drift. "drift";
  holdout_reason = λ new old version. "holdout";
}

abbrev row : ℕ → FeatureRow
row hour_ts = record { hour_ts = hour_ts; columns = [] }

abbrev rows : List FeatureRow
rows = row 0 ∷ row (9 * day) ∷ row (2 * day) ∷ row (10 * day) ∷ []

-- one version serves, with an error of 5
abbrev answers : Answers whole
answers = record { production_versions = some ("1" ∷ []); prod_val_mae = some 5 }

abbrev versions : Versions
versions = ("1", record { stage = production; tags = [] }) ∷ []

abbrev env : Environment whole
env = record { loaded = ok rows; train = λ train_df val_df trigger. ok ("2", 4); answers = answers }

-- the weekly job holds the lock while a drift check calls
abbrev two_threads : World
two_threads = record {
  shared = record { locked = true; last_triggered = none; versions = versions };
  threads = at [] weekly locked_in (record { trigger = drift; place = called } ∷ []);
}

two_threads-Reach : Reach whole texts 7 (initial whole texts 7 versions) two_threads
two_threads-Reach =
    next (next (next here (call _ [] weekly)) (call _ _ drift)) (acquire _ [] _ weekly refl)

Reach-one_trains_example :
    (count holds two_threads.threads ≤ 1)
    × (count holds two_threads.threads ≡ 1 → two_threads.shared.locked ≡ true)
Reach-one_trains_example = Reach-one_trains whole texts 7 versions two_threads two_threads-Reach

Reach-freed_example : (v : World) × Reach whole texts 7 two_threads v × (v.shared.locked ≡ false)
Reach-freed_example = Reach-freed whole texts 7 versions two_threads env two_threads-Reach

abbrev settings : Settings ℕ
settings = record {
  auto_retrain_on_drift = true;
  retrain_drift_threshold = 3;
  retrain_cooldown_minutes = 60;
}

abbrev scores : List (Score ℕ)
scores = record { feature = "city"; score = 4; detected = false } ∷ []

abbrev psi : String → ℕ
psi feature = if feature == "city" then 2 else 1
