-- ===== src/Events/Arrival.antt =====
-- What the ingestor makes of a produced message: the messages of both producers fit its validation and its rows.
use weather_demand_forecast.Prelude.{
  true, false, if◌then◌else◌, ℕ, String, ◌≡◌, refl, Bool, List, [], ◌∷◌, Option, none, some, All,
  All-append,
}
use weather_demand_forecast.Json.{
  Value, Fields, int, pos, str, obj, end, field, Exc, Result, ok, raise, ◌>>=◌, subscript, lookup,
}
use weather_demand_forecast.Ingestor.Db.{Buffered, Row}
use weather_demand_forecast.Ingestor.Envelope.{unwrap}
use weather_demand_forecast.Ingestor.Consumers.{Message, Topic, decode}
use weather_demand_forecast.Events.Producer.{Stamp, Produced, EventProducer, envelope, produce}

-- str.encode(), and json.dumps(v, default=str).encode()
pub record Codec : Type 0 where
  pub encode : String → List ℕ
  pub dumps : Value → List ℕ

-- a produced message, at its place in the topic
abbrev pub arrived : Codec → ℕ → ℕ → Produced → Message
arrived codec partition offset m = record {
  partition = partition;
  offset = offset;
  key = some (codec.encode m.city);
  value = some (codec.dumps (envelope m));
}

abbrev pub field_values : Fields → List Value
field_values end = []
field_values (field k v fs) = v ∷ field_values fs

abbrev pub values : Value → List Value
values (obj fs) = field_values fs
values _ = []

-- The topic's validation and its rows take such a payload.
abbrev pub Fits : Topic → Value → Type 0
Fits topic payload =
    (topic.validate (int (pos 1)) payload ≡ ok tt)
    × ((partition offset : ℕ) (key raw_value : Option (List ℕ)) (event_id : Value)
        → topic.row (record {
          partition = partition;
          offset = offset;
          key = key;
          raw_value = raw_value;
          schema_version = int (pos 1);
          event_id = event_id;
          payload = payload;
        })
          ≡ ok (record {
            columns = values payload;
            kafka_partition = partition;
            kafka_offset = offset;
            schema_version = int (pos 1);
            event_id = event_id;
          }))

abbrev pub IsSent : Topic → Produced → Type 0
IsSent topic m = (m.schema_version ≡ 1) × Fits topic m.payload

-- A result that satisfies `P`, if there is one.
pub data Ensures {ℓ} {A : Type ℓ} (P : A → Type 0) : Result A → Type ℓ where
  returns : (v : A) → P v → Ensures P (ok v)
  raises : (e : Exc) → Ensures P (raise e)

pub >>=-Ensures {ℓ κ} :
    {A : Type ℓ} {B : Type κ} (P : B → Type 0) (r : Result A) (f : A → Result B)
    → ((v : A) → Ensures P (f v))
    → Ensures P (r >>= f)
>>=-Ensures P (ok v) f h = h v
>>=-Ensures P (raise e) f h = raises e

-- A call of `produce` keeps what holds of the messages in the queue.
pub produce-IsSent :
    (topic : Topic) (answer : Option Exc) (name city : String) (stamp : Stamp) (payload : Value)
    (p : EventProducer)
    → Fits topic payload
    → All (IsSent topic) p.queue
    → All (IsSent topic) (produce answer name city 1 stamp payload p).1.queue
unfolding produce
produce-IsSent topic none name city stamp payload p fits all =
    All-append (IsSent topic) p.queue _ all ((refl, fits), tt)
produce-IsSent topic (some e) name city stamp payload p fits all = all

-- A turn of a loop that a signal may stop before it, and an exception after it.
pub unless_stopped :
    (P : EventProducer → Type 0) (stopped : Bool) (p : EventProducer)
    (done rest : Result (Unit {0}) × EventProducer)
    → P p
    → P done.1
    → P rest.1
    → P
        (if◌then◌else◌ {A = Result (Unit {0}) × EventProducer} stopped
          (ok tt, p)
          (elim done.0 [ ok u ↦ rest | raise e ↦ (raise e, done.1) ])).1
unless_stopped P true p done rest hp hd hr = hp
unless_stopped P false p (ok u, q) rest hp hd hr = hr
unless_stopped P false p (raise e, q) rest hp hd hr = hd

-- A step of a loop that an exception ends.
pub unless_raised :
    (P : EventProducer → Type 0) (done rest : Result (Unit {0}) × EventProducer)
    → P done.1
    → P rest.1
    → P
        (elim done.0 as (λ r. Result (Unit {0}) × EventProducer) [
          | ok u ↦ rest
          | raise e ↦ (raise e, done.1)
        ]).1
unless_raised P (ok u, q) rest hd hr = hr
unless_raised P (raise e, q) rest hd hr = hd

module _ (loads : Option (List ℕ) → Result Value) (same_id : Value → Value → Bool) (codec : Codec)
    (topic : Topic) (partition offset : ℕ) where
  -- The message is decoded and validated, and its row has the values of the payload in their order.
  abbrev pub Accepted : Produced → Type 0
  Accepted m =
      (b : Buffered) × (r : Row) × (decode loads same_id topic (arrived codec partition offset m)
        ≡ ok b)
      × (topic.row b ≡ ok r)
      × (r.columns ≡ values m.payload)
      × (r.event_id ≡ str m.stamp.event_id)
      × (r.kafka_partition ≡ partition)
      × (r.kafka_offset ≡ offset)

  -- json.loads gives the envelope back that json.dumps was given
  abbrev pub IsReadBack : Produced → Type 0
  IsReadBack m = loads (some (codec.dumps (envelope m))) ≡ ok (envelope m)

  abbrev buffered : Produced → Buffered
  buffered m = record {
    partition = partition;
    offset = offset;
    key = some (codec.encode m.city);
    raw_value = some (codec.dumps (envelope m));
    schema_version = int (pos m.schema_version);
    event_id = str m.stamp.event_id;
    payload = m.payload;
  }

  abbrev row_from : Produced → Row
  row_from m = record {
    columns = values m.payload;
    kafka_partition = partition;
    kafka_offset = offset;
    schema_version = int (pos m.schema_version);
    event_id = str m.stamp.event_id;
  }

  pub IsSent-Accepted : (m : Produced) → IsSent topic m → IsReadBack m → Accepted m
  unfolding decode unwrap subscript lookup
  IsSent-Accepted m (version, (valid, rows)) back = (
    buffered m,
    row_from m,
    rw (back, version, valid) refl,
    rw version (rows _ _ _ _ _),
    refl,
    refl,
    refl,
    refl,
  )

  pub All-Accepted :
      (ms : List Produced) → All (IsSent topic) ms → All IsReadBack ms → All Accepted ms
  All-Accepted [] sent back = tt
  All-Accepted (m ∷ ms) sent back = (IsSent-Accepted m sent.0 back.0, All-Accepted ms sent.1 back.1)
