-- ===== src/Serving/Shadow/Tests.antt =====
-- The task behind a prediction, with whole numbers in place of floats: a model adds its own number to nothing.
use weather_demand_forecast.Floats.Whole.{whole}
use weather_demand_forecast.Prelude.{ℕ, true, false, List, [], ◌∷◌, none, some}
use weather_demand_forecast.Json.{Result, ok}
use weather_demand_forecast.Serving.Models.{Loaded, Info}
use weather_demand_forecast.Serving.Predict.{Row}
use weather_demand_forecast.Serving.Shadow.{Call, Marts, Writes}

abbrev info : ℕ → Info ℕ
info n = record { version = n; stage = "Staging"; run_id = "run"; val_mae = none; tags = [] }

abbrev served : ℕ → Loaded ℕ ℕ
served n = record { prod_model = 7; prod_info = info 1; staging = some (n, info n) }

abbrev infer : ℕ → List (Row ℕ) → Result (List ℕ)
infer model rows = ok (model ∷ [])

abbrev call : Call whole
call = record {
  df = record { city = "oslo"; columns = [] } ∷ [];
  prod_preds = 7 ∷ [];
  city = "oslo";
  prod_version = 1;
  horizon_hours = 1;
  as_of = 50;
  prod_latency_ms = 3;
  online = record { values = []; missing = []; degraded = []; age = none; hash_present = true };
  mart_hour_ts = some 49;
}

abbrev writes : Writes
writes = record { pool = true; acquires = true; takes_log = true; takes_features = false }

abbrev empty : Marts whole
empty = record { prediction_log = []; prediction_features = [] }

abbrev first : Row ℕ
first = record { city = "oslo"; columns = [] }
