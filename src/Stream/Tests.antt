-- ===== src/Stream/Tests.antt =====
-- The stream consumer at work on concrete events.
use weather_demand_forecast.Floats.Whole.{whole}
use weather_demand_forecast.Prelude.{
  ℕ, ◌+◌, ◌*◌, ◌<◌, ◌≡◌, refl, String, Bool, true, List, [], ◌∷◌, ◌++◌, none, some, arith, count,
  length, ◌==◌, String_eq, ℕ_eq, if◌then◌else◌,
}
use weather_demand_forecast.Prelude.Dict.{Dict, get}
use weather_demand_forecast.Json.{Value, Result, ok}
use weather_demand_forecast.Ingestor.Consumers.{Message, message}
use weather_demand_forecast.Stream.RedisOps.{Redis, Event, second, or_empty, update_demand_features}
use weather_demand_forecast.Stream.Reconstruct.{reconstruct}
use weather_demand_forecast.Stream.Latest.{process, events, update_demand_features-reconstruct}
use weather_demand_forecast.Stream.Buffer.{
  Record, Part, Upload, taken, refused, ParquetBuffer, flush,
}
use weather_demand_forecast.Stream.Buffer.Kept.{of_record, in_lake, IsKept, flush_keeps}
use weather_demand_forecast.Stream.Consumer.{Plan, Tick, State, answered, failed, rounds}
use weather_demand_forecast.Stream.Consumer.Skipped.{redis_error_committed}

abbrev empty : Redis
empty = record { searches = []; bookings = []; routes = []; sync_completed_at = none }

abbrev event : String → String → ℕ → Event
event id event_type at = record {
  route_id = "oslo";
  event_id = id;
  event_type = event_type;
  sim_epoch = at * second;
}

abbrev before : List (String × Event)
before =
    ("t1", event "a" "search" 7000)
    ∷ ("t2", event "b" "booking" 7100)
    ∷ ("t3", event "a" "search" 7000)
    ∷ []

abbrev epoch_of : String → ℕ
epoch_of id =
    if id == "a" then 7000 * second else if id == "b" then 7100 * second else 7200 * second

update_demand_features-reconstruct_example :
    let e = event "c" "search" 7200 in
    let after = update_demand_features whole "t4" e (process whole before empty) in
    let hash = or_empty (get "oslo" after.routes) in
    let w = reconstruct whole "oslo" (7200 * second) (events whole before ++ e ∷ []) in
    (get "searches_5m" hash ≡ some (whole.str w.searches_5m))
    × (get "bookings_15m" hash ≡ some (whole.str w.bookings_15m))
    × (get "look_to_book_1h" hash ≡ some (whole.str w.look_to_book_1h))
    × (get "stream_computed_at" hash ≡ some "t4")
update_demand_features-reconstruct_example =
    update_demand_features-reconstruct whole epoch_of before "t4" (event "c" "search" 7200) empty
      refl refl ((refl, omega arith), ((refl, omega arith), ((refl, omega arith), tt))) refl

abbrev at_hour : ℕ → Record
at_hour hour = record {
  dt = "2024-01-01";
  hour = hour;
  fields = ("city", Value.str "oslo") ∷ ("_dt", Value.null) ∷ [];
}

abbrev buffered : ParquetBuffer
buffered = record { pending = at_hour 1 ∷ at_hour 2 ∷ at_hour 1 ∷ []; lake = [] }

-- S3 takes hour 1 and refuses hour 2
abbrev first_hour : Part → Upload
first_hour p = if p.hour == 1 then taken else refused

abbrev has_fields : String → ℕ → Dict String Value → Bool
has_fields dt hour row = length row == 1

flush_keeps_example :
    IsKept has_fields first_hour
      (at_hour 3 ∷ [])
      (count (of_record has_fields) buffered.pending
        + in_lake has_fields buffered.lake
        + count (of_record has_fields) (at_hour 3 ∷ []))
      (flush first_hour 5 (at_hour 3 ∷ []) buffered)
flush_keeps_example = flush_keeps has_fields first_hour 5 (at_hour 3 ∷ []) buffered tt

-- a plan that adds a route
abbrev plan_of : String → Message → Result Plan
plan_of now m = ok (record {
  write = λ r. record r { routes = (now, []) ∷ r.routes };
  row = ok (at_hour m.offset);
})

abbrev now_iso : ℕ → String
now_iso n = if n == 1 then "first" else "second"

abbrev at_offset : ℕ → Message
at_offset offset = record { partition = 0; offset = offset; key = none; value = none }

abbrev broken : Tick
broken = record {
  poll = message (at_offset 4);
  now = 1;
  epoch_ms = 1;
  redis_answers = failed (λ r. r);
  upload_answer = λ p. taken;
  commit_taken = true;
}

abbrev works : Tick
works = record {
  poll = message (at_offset 5);
  now = 2_000_000;
  epoch_ms = 2;
  redis_answers = answered;
  upload_answer = λ p. taken;
  commit_taken = true;
}

abbrev stream_start : State
stream_start = record {
  redis = empty;
  buffer = record { pending = []; lake = [] };
  committed = (0, 4) ∷ [];
  pending_offsets = [];
  commit_started = 0;
  parquet_flushed = 0;
}

redis_error_committed_example :
    let after = rounds plan_of now_iso 60_000_000 (broken ∷ works ∷ []) stream_start in
    ((c : ℕ) × (get 0 after.1.committed ≡ some c) × (4 < c) × (5 < c))
    × (after.0 ≡ ok tt)
    × (after.1.redis ≡ record empty { routes = ("second", []) ∷ [] })
redis_error_committed_example =
    redis_error_committed plan_of now_iso 60_000_000 broken works (at_offset 4) (at_offset 5)
      stream_start refl refl (omega arith) refl refl refl refl refl refl refl (omega arith) refl
      (λ p e h. cc h) (λ p e h. cc h)
