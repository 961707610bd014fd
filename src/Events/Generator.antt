-- ===== src/Events/Generator.antt =====
-- services/event-generator/app/main.py: each tick produces an event of every type for every city. The signals, the
-- stamps and what the Kafka library answers come with each tick; `isoformat`, the value that a float has in a
-- payload and the sum of a time and the step of the simulation are arguments.
pub mod Ticks
mod Tests
use weather_demand_forecast.Prelude.{
  ℕ, suc, ◌+◌, ◌*◌, String, Bool, true, false, not, List, [], ◌∷◌, Option, none, some, filter,
  if◌then◌else◌,
}
use weather_demand_forecast.Json.{
  Value, str, obj, field, end, Exc, kafka_error, other, Result, ok, raise, ◌>>=◌,
}
use weather_demand_forecast.Ingestor.Consumers.{is_empty}
use weather_demand_forecast.Numbers.{Numbers}
use weather_demand_forecast.Weather.{Time, City, WeatherReading}
use weather_demand_forecast.Events.Demand.{EventType, value, event_types, generate_quantity}
use weather_demand_forecast.Events.Producer.{
  Stamp, EventProducer, produce, exit, new_producer, demand_events_schema_version,
}
use weather_demand_forecast.Events.Poller.{is_in, known_cities, Exit, stopped, sys_exit, exit_code}

-- what a call of `produce` meets
pub record Call : Type 0 where
  pub stamp : Stamp
  pub answer : Option Exc

-- a turn of the loop: _SHUTDOWN, and the calls by city and type
pub record Tick : Type 0 where
  pub shutdown : Bool
  pub call : String → EventType → Call

-- {k: CITIES[k] for k in city_keys}: each city once, where it stands first
unfoldable pub dict_keys : List String → List String → List String
unfolding is_in
dict_keys seen [] = []
dict_keys seen (k ∷ ks) =
    let rest = dict_keys (k ∷ seen) ks in if is_in k seen then rest else k ∷ rest

-- What the generator computes of a city at a time, and what it calls of Python.
pub record Model : Type 1 where
  pub num : Numbers
  pub reading : String → Time → WeatherReading num
  pub gauss : String × String × ℕ × ℕ × ℕ × ℕ → num.Float → num.Float → num.Float
  pub isoformat : Time → String
  pub number : num.Float → Value
  pub later : Time → Time

module _ (model : Model) (demand_topic : String) where
  open model use {num, reading, gauss, isoformat, number, later}

  pub payload_of : String → EventType → Time → num.Float → Value
  payload_of city_key event_type sim_ts quantity =
      let r = reading city_key sim_ts in
      obj (
        field "city" (str city_key) (
          field "event_type" (str (value event_type)) (
            field "sim_ts" (str (isoformat sim_ts)) (
              field "quantity" (number quantity) (
                field "temperature_c" (number r.temperature_c)
                  (field "condition" (str r.condition) end))))))

  -- one event; an hour without a weight is an IndexError
  unfoldable pub emit :
      Tick → Time → String → EventType → EventProducer → Result (Unit {0}) × EventProducer
  emit t sim_ts city_key event_type p =
      let c = t.call city_key event_type in
      elim (generate_quantity num gauss event_type (reading city_key sim_ts) city_key sim_ts) [
        | none ↦ (raise other, p)
        | some quantity ↦
            produce c.answer demand_topic city_key demand_events_schema_version c.stamp
              (payload_of city_key event_type sim_ts quantity) p
      ]

  -- for event_type in EventType
  unfoldable pub emit_types :
      Tick → Time → String → List EventType → EventProducer → Result (Unit {0}) × EventProducer
  emit_types t sim_ts city_key [] p = (ok tt, p)
  emit_types t sim_ts city_key (e ∷ es) p =
      let done = emit t sim_ts city_key e p in
      let rest = emit_types t sim_ts city_key es done.1 in
      elim done.0 [ ok u ↦ rest | raise x ↦ (raise x, done.1) ]

  -- for city_key, city in cities.items()
  unfoldable pub emit_cities :
      Tick → Time → List String → EventProducer → Result (Unit {0}) × EventProducer
  emit_cities t sim_ts [] p = (ok tt, p)
  emit_cities t sim_ts (c ∷ cs) p =
      let done = emit_types t sim_ts c event_types p in
      let rest = emit_cities t sim_ts cs done.1 in
      elim done.0 [ ok u ↦ rest | raise x ↦ (raise x, done.1) ]

  -- `while not _SHUTDOWN`
  unfoldable pub ticks :
      List String → Time → List Tick → EventProducer → Result (Unit {0}) × EventProducer
  ticks cities sim_ts [] p = (ok tt, p)
  ticks cities sim_ts (t ∷ ts) p =
      let done = emit_cities t sim_ts cities p in
      let rest = ticks cities (later sim_ts) ts done.1 in
      if t.shutdown then (ok tt, p) else elim done.0 [ ok u ↦ rest | raise x ↦ (raise x, done.1) ]

  -- run(settings)
  unfoldable pub run : List String → Time → List Tick → Result Exit × EventProducer
  run cities start ts =
      let city_keys = filter (λ k. is_in k known_cities) cities in
      let ended = ticks (dict_keys [] city_keys) start ts new_producer in
      if is_empty city_keys
      then (ok sys_exit, new_producer)
      else (ended.0 >>= λ u. ok stopped, exit ended.1)

  -- main()
  unfoldable pub main : List String → Time → List Tick → Result Exit × EventProducer
  main cities start ts = let ran = run cities start ts in (exit_code ran.0, ran.1)
