-- ===== src/Ingestor/Envelope.antt =====
-- Decoding and validation of a message, services/ingestor/app/consumers.py. `json.loads` is the
-- parameter `loads`: the value of the text, or the exception that it raises.
use weather_demand_forecast.Prelude.{ℕ, String, Bool, true, false, List, [], ◌∷◌, Option}
use weather_demand_forecast.Json.{
  Value, Result, ok, raise, validation_error, ◌>>=◌, ◌>>◌, subscript, contains, is_version_one,
}

module _ (loads : Option (List ℕ) → Result Value) where
  -- (schema_version, event_id, payload)
  unfoldable pub unwrap : Option (List ℕ) → Result (Value × Value × Value)
  unwrap raw_value = do
    envelope ← loads raw_value
    schema_version ← subscript envelope "schema_version"
    event_id ← subscript envelope "event_id"
    payload ← subscript envelope "payload"
    ok (schema_version, event_id, payload)

pub guard : Bool → Result (Unit {0})
guard true = ok tt
guard false = raise validation_error

pub require_fields : List String → Value → Result (Unit {0})
unfolding guard
require_fields [] payload = ok tt
require_fields (f ∷ fs) payload = do
  present ← contains payload f
  guard present
  require_fields fs payload

abbrev demand_fields : List String
demand_fields = "city" ∷ "event_type" ∷ "sim_ts" ∷ "quantity" ∷ []

abbrev weather_fields : List String
weather_fields = "city" ∷ "polled_at" ∷ []

unfoldable pub validate_demand : Value → Value → Result (Unit {0})
unfolding require_fields guard
validate_demand schema_version payload = do
  known ← is_version_one schema_version
  guard known
  require_fields demand_fields payload

unfoldable pub validate_weather : Value → Value → Result (Unit {0})
unfolding require_fields guard
validate_weather schema_version payload = do
  known ← is_version_one schema_version
  guard known
  require_fields weather_fields payload
