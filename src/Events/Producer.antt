-- ===== src/Events/Producer.antt =====
-- libs/common/common/producer.py: the envelope of a message and the calls of the Kafka library. The identity of
-- a message and the time come as a stamp; what the library's `produce` raises comes with the call.
use weather_demand_forecast.Prelude.{ℕ, String, Bool, true, List, [], ◌∷◌, ◌++◌, Option, none, some}
use weather_demand_forecast.Json.{Value, int, pos, str, obj, field, end, Exc, Result, ok, raise}

-- str(uuid.uuid4()) and datetime.now(timezone.utc).isoformat()
pub record Stamp : Type 0 where
  pub event_id : String
  pub produced_at : String

-- A message that the library took: its key is the city, and its value the text of its envelope.
pub record Produced : Type 0 where
  pub topic : String
  pub city : String
  pub schema_version : ℕ
  pub stamp : Stamp
  pub payload : Value

abbrev pub envelope : Produced → Value
envelope m = obj (
    field "schema_version" (int (pos m.schema_version)) (
      field "event_id" (str m.stamp.event_id)
        (field "produced_at" (str m.stamp.produced_at) (field "payload" m.payload end))))

-- DEMAND_EVENTS_SCHEMA_VERSION and WEATHER_READINGS_SCHEMA_VERSION
abbrev pub demand_events_schema_version : ℕ
demand_events_schema_version = 1

abbrev pub weather_readings_schema_version : ℕ
weather_readings_schema_version = 1

pub record EventProducer : Type 0 where
  pub queue : List Produced
  pub flushed : Bool

abbrev pub new_producer : EventProducer
new_producer = record { queue = []; flushed = Bool.false }

-- produce(…), of which `answer` is what the library raises: a BufferError or a KafkaException
unfoldable pub produce :
    Option Exc
    → String
    → String
    → ℕ
    → Stamp
    → Value
    → EventProducer
    → Result (Unit {0}) × EventProducer
produce answer topic city schema_version stamp payload p = elim answer [
  | none ↦
      let m : Produced = record {
        topic = topic;
        city = city;
        schema_version = schema_version;
        stamp = stamp;
        payload = payload;
      } in
      (ok tt, record p { queue = p.queue ++ m ∷ [] })
  | some e ↦ (raise e, p)
]

-- __exit__, which waits until the library has delivered or given up
unfoldable pub exit : EventProducer → EventProducer
exit p = record p { flushed = true }
