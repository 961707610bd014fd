-- ===== src/Ingestor/Tests.antt =====
-- The consumers at work on concrete messages.
use weather_demand_forecast.Prelude.{
  ℕ, ◌≡◌, ◌<◌, length, refl, Bool, true, false, List, [], ◌∷◌, Option, none, some, All, arith, ◌==◌,
  String_eq,
}
use weather_demand_forecast.Ingestor.Envelope.{unwrap, validate_demand}
use weather_demand_forecast.Json.{lookup, subscript, is_version_one, contains, get_field}
use weather_demand_forecast.Json.{
  pos, Value, int, str, obj, end, field, json_decode, other, Result, ok, raise,
}
use weather_demand_forecast.Ingestor.Db.{Row}
use weather_demand_forecast.Ingestor.Consumers.Flush.{next}
use weather_demand_forecast.Prelude.Dict.{get, put}
use weather_demand_forecast.Ingestor.Db.Unique.{IsUnique}
use weather_demand_forecast.Ingestor.Consumers
use weather_demand_forecast.Ingestor.Consumers.Batches.{rounds-bounded}
use weather_demand_forecast.Ingestor.Consumers.{
  Message, accepted, refused, stored, failed, Answers, nothing, message, Tick, State, consumer_loop,
  demand_topic, rounds, iterate, receive, flush_if_due, is_due, decode, buffer, reject,
  update_max_offset, send_to_dlq, batch_size,
}
use weather_demand_forecast.Ingestor.Consumers.Loop.{Safe}
use weather_demand_forecast.Ingestor.Consumers.NoLoss.{consumer_loop-Safe}
use weather_demand_forecast.Ingestor.Consumers.Unique.{consumer_loop-IsUnique}

abbrev payload : Value
payload = obj (
    field "city" (str "oslo") (
      field "event_type" (str "search")
        (field "sim_ts" (str "2024-01-01T00:00:00+00:00") (field "quantity" (int (pos 2)) end))))

abbrev envelope : Value
envelope = obj (
    field "schema_version" (int (pos 1)) (field "event_id" (str "a") (field "payload" payload end)))

-- a parser that knows one text
abbrev parse : Option (List ℕ) → Result Value
parse none = raise other
parse (some []) = raise json_decode
parse (some (b ∷ bs)) = ok envelope

abbrev same_text : Value → Value → Bool
same_text (str a) (str b) = a == b
same_text _ _ = false

abbrev good : ℕ → Message
good offset = record { partition = 0; offset = offset; key = none; value = some (123 ∷ []) }

abbrev bad : ℕ → Message
bad offset = record { partition = 0; offset = offset; key = none; value = some [] }

abbrev answers : Answers
answers = record { deliver = λ d. accepted; insert = stored; commit_taken = true }

abbrev down : Answers
down = record { deliver = λ d. refused; insert = failed; commit_taken = true }

-- a good message, the same event again, and an invalid one, then a flush that fails
abbrev ticks : List Tick
ticks =
    record { poll = message (good 7); now = 1; answers = answers }
    ∷ record { poll = message (bad 8); now = 2; answers = answers }
    ∷ record { poll = message (good 9); now = 3; answers = answers }
    ∷ record { poll = nothing; now = 3_000_000; answers = answers }
    ∷ record { poll = message (good 10); now = 6_000_000; answers = down }
    ∷ []

abbrev start : State
start = record {
  store = record {
    raw = [];
    dlq = [];
    dlq_failures = [];
    messages_consumed = 0;
    validation_failed = 0;
    messages_dlq = 0;
    rows_written = 0;
  };
  delivered = [];
  committed = (0, 7) ∷ [];
  batch = [];
  pending_offsets = [];
  batch_started = 0;
  consumer_open = false;
  conn_open = false;
}

abbrev a_row : Row
a_row = record {
  columns = [];
  kafka_partition = 0;
  kafka_offset = 7;
  schema_version = int (pos 1);
  event_id = str "a";
}

consumer_loop-Safe_example :
    let after = (consumer_loop parse same_text demand_topic true ticks answers start).1 in
    All (Safe parse same_text demand_topic after) after.delivered
unfolding next get
consumer_loop-Safe_example =
    consumer_loop-Safe parse same_text demand_topic true ticks answers start refl
      (omega arith, (omega arith, (omega arith, (tt, (omega arith, tt)))))

consumer_loop-IsUnique_example :
    IsUnique same_text
      (consumer_loop parse same_text demand_topic true ticks answers start).1.store.raw
consumer_loop-IsUnique_example =
    consumer_loop-IsUnique parse same_text demand_topic true ticks answers start tt

-- a good message, an invalid one, and a round that flushes
abbrev quiet_ticks : List Tick
quiet_ticks =
    record { poll = message (good 7); now = 1; answers = answers }
    ∷ record { poll = message (bad 8); now = 2; answers = answers }
    ∷ record { poll = message (good 9); now = 3; answers = answers }
    ∷ []

rounds_quiet : (rounds parse same_text demand_topic quiet_ticks start).0 ≡ ok tt
unfolding rounds iterate receive Consumers.handle flush_if_due is_due decode buffer reject
    update_max_offset put get send_to_dlq unwrap subscript lookup validate_demand is_version_one
    contains get_field
rounds_quiet = refl

rounds-bounded_example :
    length (rounds parse same_text demand_topic quiet_ticks start).1.batch < batch_size
rounds-bounded_example =
    rounds-bounded parse same_text demand_topic quiet_ticks start (λ h. refl) (omega arith)
      rounds_quiet
