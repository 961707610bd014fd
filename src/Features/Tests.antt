-- ===== src/Features/Tests.antt =====
-- The features' sync, fetch and registry on concrete values.
use weather_demand_forecast.Floats.Whole.{whole}
use weather_demand_forecast.Prelude.{
  ℕ, ◌*◌, ◌≡◌, ◌⊎◌, String, true, List, [], ◌∷◌, Option, none, some, All, ◌==◌, String_eq, ℕ_eq,
  if◌then◌else◌,
}
use weather_demand_forecast.Json.{ok, raise, redis_error}
use weather_demand_forecast.Stream.RedisOps.{Redis, Hash, Event, second, update_demand_features}
use weather_demand_forecast.Features.Registry.{Registry, index_by_name, route_features}
use weather_demand_forecast.Features.Sync.{Executed, executed, broke, Row, sync_to_redis}
use weather_demand_forecast.Features.Sync.Fields.{field_of}
use weather_demand_forecast.Features.Sync.Commute.{sync_commutes}
use weather_demand_forecast.Features.Sync.Sentinel.{Stamped, sync_to_redis-sentinel}

abbrev row : String → Row whole
row route = record {
  route_id = route;
  value = λ name. if name == "lead_time_p50" then some 3 else none;
}

abbrev redis : Redis
redis = record {
  searches = [];
  bookings = [];
  routes = ("oslo", ("searches_5m", "0") ∷ []) ∷ [];
  sync_completed_at = some "yesterday";
}

-- the second pipeline breaks after one command
abbrev second_breaks : ℕ → Executed
second_breaks i = if i == 1 then broke 1 else executed

abbrev table : List (Row whole)
table = row "bergen" ∷ row "lima" ∷ row "cairo" ∷ []

sync_to_redis-sentinel_example :
    let after = sync_to_redis whole 2 "today" second_breaks true (ok (row "oslo" ∷ table)) redis in
    ((after.0 ≡ ok tt)
      × (after.1.sync_completed_at ≡ some "today")
      × All (Stamped whole "today" after.1) (row "oslo" ∷ table))
    ⊎ ((after.0 ≡ raise redis_error) × (after.1.sync_completed_at ≡ some "yesterday"))
sync_to_redis-sentinel_example =
    sync_to_redis-sentinel whole "today" second_breaks 1 true (row "oslo") table redis

abbrev search : Event
search = record {
  route_id = "oslo";
  event_id = "a";
  event_type = "search";
  sim_epoch = 7000 * second;
}

sync_commutes_example :
    field_of "oslo" "searches_5m"
      (sync_to_redis whole 2 "today" second_breaks true
        (ok table)
        (update_demand_features whole "now" search redis)).1
    ≡ field_of "oslo" "searches_5m" (
        update_demand_features whole "now" search
          (sync_to_redis whole 2 "today" second_breaks true (ok table) redis).1)
sync_commutes_example =
    sync_commutes whole "now" search 2 "today" second_breaks true (ok table) redis "oslo"
      "searches_5m"

abbrev number : String → Option ℕ
number text = if text == "12" then some 12 else none

abbrev time : String → Option ℕ
time text = if text == "midnight" then some 0 else none

-- a temperature that is two hours old, and a precipitation that is no number
abbrev hash : Hash
hash =
    ("weather_temp_c", "12")
    ∷ ("weather_precip_mm", "wet")
    ∷ ("stream_computed_at", "midnight")
    ∷ []

abbrev route_registry : Registry
route_registry = record { features = route_features; by_name = index_by_name route_features [] }
