-- ===== src/Stream/Consumer.antt =====
-- services/worker/app/stream_features/consumer.py: the two loops that read the demand and the weather
-- topic into Redis and the Parquet buffer. They differ in what they make of a message, a `Plan`, and
-- are written once. What the libraries answer comes with each round.
pub mod Skipped
use weather_demand_forecast.Floats.{Floats}
use weather_demand_forecast.Prelude.{
  ℕ, ◌+◌, ◌≡◌, refl, String, Bool, true, false, ◌&&◌, ◌||◌, List, [], ◌∷◌, ◌++◌, Option, none, some,
  length, leb, String_eq, ◌==◌, if◌then◌else◌,
}
use weather_demand_forecast.Prelude.Dict.{Dict, put}
use weather_demand_forecast.Json.{
  Value, Exc, json_decode, key_error, value_error, redis_error, kafka_error, other, Result, ok,
  raise, ◌>>=◌, ◌>>◌, subscript, get_field, contains, is_version_one,
}
use weather_demand_forecast.Ingestor.Envelope.{unwrap}
use weather_demand_forecast.Ingestor.Consumers.{
  Message, Poll, nothing, poll_error, message, update_max_offset, commit_offsets, is_empty,
}
use weather_demand_forecast.Stream.RedisOps.{
  Redis, Event, update_demand_features, update_weather_features,
}
use weather_demand_forecast.Stream.Buffer
use weather_demand_forecast.Stream.Buffer.{Record, Part, Upload, ParquetBuffer, append}

abbrev pub commit_size : ℕ
commit_size = 500

-- in microseconds
abbrev pub commit_timeout : ℕ
commit_timeout = 2_000_000

-- What a valid message asks for: a write to Redis, and then the record for the lake.
pub record Plan : Type 0 where
  pub write : Redis → Redis
  pub row : Result Record

-- What is not written in this program: the JSON parser, the parsing and printing of dates, the clock.
pub record Runtime : Type 0 where
  pub loads : Option (List ℕ) → Result Value
  -- datetime.fromisoformat(s), in microseconds since the epoch; ValueError or TypeError
  pub parse_time : Value → Result ℕ
  -- strftime("%Y-%m-%d") and .hour of a time in UTC
  pub date_of : ℕ → String
  pub hour_of : ℕ → ℕ
  -- str(float(v)) and str(v)
  pub float_text : Value → Result String
  pub text : Value → String
  -- the text of a JSON value used as a dictionary key or set member by Redis
  pub key_text : Value → Result String
  -- dict(payload) with event_id and schema_version added
  pub row_fields : Value → Value → Value → Dict String Value

pub raise_unless : Bool → Result (Unit {0})
raise_unless true = ok tt
raise_unless false = raise value_error

pub require_fields : List String → Value → Result (Unit {0})
unfolding raise_unless
require_fields [] payload = ok tt
require_fields (f ∷ fs) payload = do
  present ← contains payload f
  raise_unless present
  require_fields fs payload

module _ (fl : Floats) (rt : Runtime) (now_iso : String) where
  record_at : ℕ → Value → Value → Value → Record
  record_at time schema_version event_id payload = record {
    dt = rt.date_of time;
    hour = rt.hour_of time;
    fields = rt.row_fields schema_version event_id payload;
  }

  unfoldable pub demand_plan : Message → Result Plan
  unfolding require_fields raise_unless record_at
  demand_plan m = do
    (schema_version, event_id, payload) ← unwrap rt.loads m.value
    known ← is_version_one schema_version
    raise_unless known
    require_fields ("city" ∷ "event_type" ∷ "sim_ts" ∷ "quantity" ∷ []) payload
    city ← subscript payload "city"
    event_type ← subscript payload "event_type"
    sim_ts ← subscript payload "sim_ts"
    sim_epoch ← rt.parse_time sim_ts
    route_id ← rt.key_text city
    member ← rt.key_text event_id
    type_text ← rt.key_text event_type
    let e : Event = record {
      route_id = route_id;
      event_id = member;
      event_type = type_text;
      sim_epoch = sim_epoch;
    }
    ok (record {
      write = update_demand_features fl now_iso e;
      row = ok (record_at sim_epoch schema_version event_id payload);
    })

  -- str(float(x)) of a value that is not null
  optional_float : Value → Result (Option String)
  optional_float Value.null = ok none
  optional_float v = do t ← rt.float_text v; ok (some t)

  optional_text : Value → Option String
  optional_text Value.null = none
  optional_text v = some (rt.text v)

  unfoldable pub weather_plan : Message → Result Plan
  unfolding require_fields raise_unless record_at optional_float optional_text
  weather_plan m = do
    (schema_version, event_id, payload) ← unwrap rt.loads m.value
    known ← is_version_one schema_version
    raise_unless known
    require_fields ("city" ∷ "polled_at" ∷ []) payload
    city ← subscript payload "city"
    polled_at ← subscript payload "polled_at"
    temperature_c ← get_field payload "temperature_c"
    precip_mm ← get_field payload "precip_mm"
    condition ← get_field payload "condition"
    route_id ← rt.key_text city
    temperature ← optional_float temperature_c
    precip ← optional_float precip_mm
    ok (record {
      write =
          update_weather_features fl now_iso route_id temperature precip (optional_text condition);
      row = do
        polled ← rt.parse_time polled_at
        ok (record_at polled schema_version event_id payload);
    })

-- The Redis calls of a message: all answered, or one raised RedisError after those before it had
-- done what the function says.
pub data RedisAnswer : Type 0 where
  answered : RedisAnswer
  failed : (Redis → Redis) → RedisAnswer

-- One round: the clock, what Redis answered, what becomes of an upload, whether the broker takes a commit.
pub record Tick : Type 0 where
  pub poll : Poll
  pub now : ℕ
  pub epoch_ms : ℕ
  pub redis_answers : RedisAnswer
  pub upload_answer : Part → Upload
  pub commit_taken : Bool

pub record State : Type 0 where
  pub redis : Redis
  pub buffer : ParquetBuffer
  pub committed : Dict ℕ ℕ
  pub pending_offsets : Dict ℕ ℕ
  pub commit_started : ℕ
  pub parquet_flushed : ℕ

-- except (json.JSONDecodeError, KeyError, ValueError)
abbrev is_invalid : Exc → Bool
is_invalid json_decode = true
is_invalid key_error = true
is_invalid value_error = true
is_invalid _ = false

abbrev pub note_offset : Message → State → State
note_offset m s = record s {
  pending_offsets = update_max_offset m.partition m.offset s.pending_offsets;
}

-- an exception in the `try`: an invalid message is skipped with its offset noted, and of a RedisError,
-- such as the DataError of a member that Redis does not take, nothing is noted
unfoldable pub skip : Exc → Message → State → Result (Unit {0}) × State
skip redis_error m s = (ok tt, s)
skip e m s = if is_invalid e then (ok tt, note_offset m s) else (raise e, s)

-- the Redis calls of a plan; after a RedisError nothing is noted
unfoldable pub carry_out : RedisAnswer → Plan → Message → State → Result (Unit {0}) × State
unfolding skip
carry_out (failed partial) plan m s = (ok tt, record s { redis = partial s.redis })
carry_out answered plan m s =
    let written = record s { redis = plan.write s.redis } in
    elim plan.row [
      | ok r ↦ (ok tt, note_offset m (record written { buffer = append r s.buffer }))
      | raise e ↦ skip e m written
    ]

module _ (plan_of : String → Message → Result Plan) (now_iso : ℕ → String) (interval : ℕ) where
  unfoldable pub handle : Tick → Message → State → Result (Unit {0}) × State
  unfolding carry_out skip
  handle t m s = elim (plan_of (now_iso t.now) m) [
    | ok plan ↦ carry_out t.redis_answers plan m s
    | raise e ↦ skip e m s
  ]

  unfoldable pub receive : Tick → State → Result (Unit {0}) × State
  unfolding handle
  receive t s = elim t.poll [
    | nothing ↦ (ok tt, s)
    | poll_error ↦ (ok tt, s)
    | message m ↦ handle t m s
  ]

  -- the micro-batch commit
  unfoldable pub commit_if_due : Tick → State → Result (Unit {0}) × State
  commit_if_due t s =
      if is_empty s.pending_offsets
      then (ok tt, s)
      else if leb commit_size (length s.pending_offsets)
          || leb (s.commit_started + commit_timeout) t.now
      then (if t.commit_taken
          then (
            ok tt,
            record s {
              committed = commit_offsets s.pending_offsets s.committed;
              pending_offsets = [];
              commit_started = t.now;
            },
          )
          else (raise kafka_error, s))
      else (ok tt, s)

  -- the end of a flush on the timer: an exception leaves before the timer is set
  abbrev pub after_flush :
      Tick → State → Result (Unit {0}) × ParquetBuffer → Result (Unit {0}) × State
  after_flush t s (ok u, b) = (ok tt, record s { buffer = b; parquet_flushed = t.now })
  after_flush t s (raise e, b) = (raise e, record s { buffer = b })

  -- the independent timer of the Parquet buffer
  unfoldable pub flush_if_due : Tick → State → Result (Unit {0}) × State
  flush_if_due t s =
      if leb (s.parquet_flushed + interval) t.now
      then after_flush t s (Buffer.flush t.upload_answer t.epoch_ms [] s.buffer)
      else (ok tt, s)

  unfoldable pub iterate : Tick → State → Result (Unit {0}) × State
  unfolding receive commit_if_due flush_if_due
  iterate t s =
      let received = receive t s in
      let done = commit_if_due t received.1 in
      elim received.0 [
        | ok u ↦ elim done.0 [ ok v ↦ flush_if_due t done.1 | raise e ↦ (raise e, done.1) ]
        | raise e ↦ (raise e, received.1)
      ]

  unfoldable pub rounds : List Tick → State → Result (Unit {0}) × State
  rounds [] s = (ok tt, s)
  rounds (t ∷ ts) s =
      let done = iterate t s in
      let rest = rounds ts done.1 in elim done.0 [ ok u ↦ rest | raise e ↦ (raise e, done.1) ]

  -- the `finally` block: the last commit's exception is logged only, but that of the last flush is raised
  unfoldable pub drain : Tick → State → Result (Unit {0}) × State
  drain t s =
      let offered =
        if t.commit_taken then commit_offsets s.pending_offsets s.committed else s.committed in
      let flushed = Buffer.flush t.upload_answer t.epoch_ms [] s.buffer in
      (flushed.0, record s { committed = offered; buffer = flushed.1 })

  -- an exception of the `finally` block takes the place of the loop's
  unfoldable pub consumer_loop : List Tick → Tick → State → Result (Unit {0}) × State
  unfolding rounds drain
  consumer_loop ticks last s =
      let ended = rounds ticks s in
      let drained = drain last ended.1 in
      elim drained.0 [ ok u ↦ (ended.0, drained.1) | raise e ↦ (raise e, drained.1) ]

unfoldable pub demand_stream_consumer_loop :
    Floats → Runtime → (ℕ → String) → ℕ → List Tick → Tick → State → Result (Unit {0}) × State
demand_stream_consumer_loop fl rt = consumer_loop (demand_plan fl rt)

unfoldable pub weather_stream_consumer_loop :
    Floats → Runtime → (ℕ → String) → ℕ → List Tick → Tick → State → Result (Unit {0}) × State
weather_stream_consumer_loop fl rt = consumer_loop (weather_plan fl rt)
