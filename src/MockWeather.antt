-- ===== src/MockWeather.antt =====
-- services/mock-weather/app/chaos.py and the chaos controls of main.py: errors, missing fields and a renamed field
-- that the weather service injects on purpose. Draws below a rate are an argument, in the order of the draws; the
-- delay before a response is left out.
pub mod Adapter
pub mod Shape
mod Tests
use text.Mathlib.Text.{starts_with}
use weather_demand_forecast.Floats.{Floats}
use weather_demand_forecast.Prelude.{
  ℕ, ◌+◌, String, Bool, true, false, ◌&&◌, ◌||◌, Option, none, some, ltb, ◌==◌, String_eq,
  if◌then◌else◌,
}
use weather_demand_forecast.Json.{
  Value, Items, Fields, null, bool, int, float, str, arr, obj, end, field, nil, cons,
}

pub record ChaosConfig (F : Type 0) : Type 0 where
  pub latency_ms : ℕ
  pub error_rate : F
  pub null_field_rate : F
  pub schema_drift : Bool

-- a field that is given replaces the one in the configuration
pub record ChaosUpdate (F : Type 0) : Type 0 where
  pub latency_ms : Option ℕ
  pub error_rate : Option F
  pub null_field_rate : Option F
  pub schema_drift : Option Bool

abbrev pub given {ℓ} : {A : Type ℓ} → Option A → A → A
given none old = old
given (some new) old = new

abbrev pub set_chaos : {F : Type 0} → ChaosUpdate F → ChaosConfig F → ChaosConfig F
set_chaos update cfg = record {
  latency_ms = given update.latency_ms cfg.latency_ms;
  error_rate = given update.error_rate cfg.error_rate;
  null_field_rate = given update.null_field_rate cfg.null_field_rate;
  schema_drift = given update.schema_drift cfg.schema_drift;
}

-- any(path.startswith(p) for p in _EXEMPT_PREFIXES)
abbrev pub is_exempt : String → Bool
is_exempt path = starts_with path "/health" || starts_with path "/admin/"

-- d[k] = v of a dict
unfoldable pub set_field : String → Value → Fields → Fields
set_field k v end = field k v end
set_field k v (field j w fs) =
    let rest = set_field k v fs in if j == k then field j v fs else field j w rest

abbrev pub renamed : String → String
renamed k = if k == "temperature" then "temp" else k

unfoldable mutual
  -- _drift; a field of a dict comprehension replaces an earlier one of its name
  pub drift : Value → Value
  drift null = null
  drift (bool b) = bool b
  drift (int n) = int n
  drift (float x) = float x
  drift (str s) = str s
  drift (arr vs) = arr (drift_items vs)
  drift (obj fs) = obj (drift_fields fs end)

  pub drift_items : Items → Items
  drift_items nil = nil
  drift_items (cons v vs) = cons (drift v) (drift_items vs)

  pub drift_fields : Fields → Fields → Fields
  drift_fields end done = done
  drift_fields (field k v fs) done = drift_fields fs (set_field (renamed k) (drift v) done)

-- `hit n`: whether the n-th draw is below the rate
module _ (hit : ℕ → Bool) where
  unfoldable mutual
    -- _nullify, with the number of draws before and after
    pub nullify : Value → ℕ → Value × ℕ
    nullify null n = (null, n)
    nullify (bool b) n = (bool b, n)
    nullify (int i) n = (int i, n)
    nullify (float x) n = (float x, n)
    nullify (str s) n = (str s, n)
    nullify (arr vs) n = let r = nullify_items vs n in (arr r.0, r.1)
    nullify (obj fs) n = let r = nullify_fields fs n in (obj r.0, r.1)

    pub nullify_items : Items → ℕ → Items × ℕ
    nullify_items nil n = (nil, n)
    nullify_items (cons v vs) n =
        let r = nullify v n in let rest = nullify_items vs r.1 in (cons r.0 rest.0, rest.1)

    pub nullify_fields : Fields → ℕ → Fields × ℕ
    nullify_fields end n = (end, n)
    nullify_fields (field k v fs) n =
        let r : Value × ℕ = if hit n then (null, n + 1) else nullify v (n + 1) in
        let rest = nullify_fields fs r.1 in (field k r.0 rest.0, rest.1)

module _ (fl : Floats) where
  -- `hits rate n`: rng.random() < rate at the n-th draw of a call
  unfoldable pub apply_chaos : (fl.Float → ℕ → Bool) → ChaosConfig fl.Float → Value → Value
  unfolding nullify drift
  apply_chaos hits cfg body =
      let nulled =
        if fl.lt (fl.of_ℕ 0) cfg.null_field_rate
        then (nullify (hits cfg.null_field_rate) body 0).0
        else body in
      if cfg.schema_drift then drift nulled else nulled

  -- dispatch: a status, and the body of 200; `route` is what the route answers
  unfoldable pub dispatch :
      Bool → ChaosConfig fl.Float → String → ℕ × Option Value → ℕ × Option Value
  dispatch error_drawn cfg path route =
      if is_exempt path
      then route
      else (if fl.lt (fl.of_ℕ 0) cfg.error_rate && error_drawn then (503, none) else route)
